-- ===== src/Backtesting/Loop/Pasts.antt =====
-- Books that keep what an earlier book has.
use mytradingsystem.Base.{
  List, ℕ, [], take, ℤ, ◌++◌, ◌∷◌, ◌≡◌, length, sym, ◌∙◌, ap, append-nil, append_assoc, refl,
}
use mytradingsystem.Backtesting.Loop.{Book, set_last}

-- One list begins with the other.
abbrev pub Begins {ℓ} : {A : Type ℓ} → List A → List A → Type ℓ
Begins {A = A} xs ys = (more : List A) × (ys ≡ xs ++ more)

pub Begins-refl {ℓ} : {A : Type ℓ} (xs : List A) → Begins xs xs
Begins-refl xs = ([], sym (append-nil xs))

pub Begins-trans {ℓ} : {A : Type ℓ} (xs ys zs : List A) → Begins xs ys → Begins ys zs → Begins xs zs
Begins-trans xs ys zs (m, p) (n, q) = (m ++ n, q ∙ ap (λ l. l ++ n) p ∙ append_assoc xs m n)

-- A later book has what an earlier one has.
pub record Extends (b b' : Book) : Type 0 where
  pub trades : Begins b.trades b'.trades
  pub rejected : Begins b.rejected b'.rejected
  pub equity : Begins b.equity_curve b'.equity_curve
  pub drawdown : Begins b.drawdown_curve b'.drawdown_curve

pub Extends-refl : (b : Book) → Extends b b
Extends-refl b = record {
  trades = Begins-refl b.trades;
  rejected = Begins-refl b.rejected;
  equity = Begins-refl b.equity_curve;
  drawdown = Begins-refl b.drawdown_curve;
}

pub Extends-trans : (a b c : Book) → Extends a b → Extends b c → Extends a c
Extends-trans a b c h k = record {
  trades = Begins-trans a.trades b.trades c.trades h.trades k.trades;
  rejected = Begins-trans a.rejected b.rejected c.rejected h.rejected k.rejected;
  equity = Begins-trans a.equity_curve b.equity_curve c.equity_curve h.equity k.equity;
  drawdown = Begins-trans a.drawdown_curve b.drawdown_curve c.drawdown_curve h.drawdown k.drawdown;
}

-- What a run over more candles keeps of the book after the first ones.
pub record Remembers (b final : Book) : Type 0 where
  pub trades : Begins b.trades final.trades
  pub rejected : Begins b.rejected final.rejected
  pub equity : take (length b.equity_curve) final.equity_curve ≡ b.equity_curve
  pub drawdown : take (length b.drawdown_curve) final.drawdown_curve ≡ b.drawdown_curve

pub take-set_last :
    (q : ℕ × ℤ) (xs : List (ℕ × ℤ)) (y : ℕ × ℤ) (ys : List (ℕ × ℤ))
    → take (length xs) (set_last q (xs ++ y ∷ ys)) ≡ xs
take-set_last q [] y ys = refl
take-set_last q (x ∷ []) y ys = refl
take-set_last q (x ∷ z ∷ xs) y ys = ap (λ l. x ∷ l) (take-set_last q (z ∷ xs) y ys)

pub take-length {ℓ} : {A : Type ℓ} (xs ys : List A) → take (length xs) (xs ++ ys) ≡ xs
take-length [] ys = refl
take-length (x ∷ xs) ys = ap (λ l. x ∷ l) (take-length xs ys)

-- The curves have gone on by a point.
pub record GoneOn (b b' : Book) : Type 0 where
  pub later : Extends b b'
  pub point : ℕ × ℤ
  pub points : List (ℕ × ℤ)
  pub equity_on : b'.equity_curve ≡ b.equity_curve ++ point ∷ points
  pub down : ℕ × ℤ
  pub downs : List (ℕ × ℤ)
  pub drawdown_on : b'.drawdown_curve ≡ b.drawdown_curve ++ down ∷ downs

pub GoneOn-Remembers : (b b' : Book) → GoneOn b b' → Remembers b b'
GoneOn-Remembers b b' g = record {
  trades = g.later.trades;
  rejected = g.later.rejected;
  equity = rw g.equity_on (take-length b.equity_curve (g.point ∷ g.points));
  drawdown = rw g.drawdown_on (take-length b.drawdown_curve (g.down ∷ g.downs));
}
