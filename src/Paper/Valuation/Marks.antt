-- ===== src/Paper/Valuation/Marks.antt =====
-- The marks of a valuation against the account's positions and the given prices.
use mytradingsystem.Base.{
  nat_keys, ℕ, ℤ, Arithmetic, Dict, List, ◌+ℤ◌, Option, [], pos, ◌∷◌, ◌≡◌, int_laws, ok, ◌++◌, ◌≢◌,
  lookup, subst, none, ok_injective, some, arith, sym, ◌<ℤ◌, Bool-cases, append-nil, >>=-ok, leb_ℤ,
  inl, inr, ◌==ℤ◌, ◌∙◌, ap, ◌-ℤ◌, append_assoc, refl,
}
use mytradingsystem.Paper.Tables.{Position}
use mytradingsystem.Paper.Valuation.{PositionMark, mark_all, Totals, mark_one, mark_open, marked}

-- The marks of positions at given prices: one for each open position, in their order, at a positive
-- price that was given for its instrument, and none for a position of nothing.
pub data Marks (prices : Dict ℕ ℤ) : List (ℕ × Position) → List PositionMark → Type 0 where
  none_left : Marks prices [] []
  flat :
      {i : ℕ} {p : Position} {ps : List (ℕ × Position)} {ms : List PositionMark}
      → p.quantity ≡ pos 0
      → Marks prices ps ms
      → Marks prices ((i, p) ∷ ps) ms
  active :
      {i : ℕ} {p : Position} {ps : List (ℕ × Position)} {m : PositionMark} {ms : List PositionMark}
      → p.quantity ≢ pos 0
      → lookup i prices ≡ some m.market_price
      → pos 0 <ℤ m.market_price
      → (m.instrument_id ≡ i)
        × (m.quantity ≡ p.quantity)
        × (m.average_price ≡ p.average_price)
        × (m.realized_pnl ≡ p.realized_pnl)
      → Marks prices ps ms
      → Marks prices ((i, p) ∷ ps) (m ∷ ms)

abbrev pub realized_of : List (ℕ × Position) → ℤ
realized_of [] = pos 0
realized_of ((i, p) ∷ ps) = p.realized_pnl +ℤ realized_of ps

-- What the loop adds to its sums and its marks.
pub record Adds (prices : Dict ℕ ℤ) (ps : List (ℕ × Position)) (t t' : Totals) : Type 0 where
  pub added : List PositionMark
  pub marks : t'.marks ≡ t.marks ++ added
  pub marked : Marks prices ps added
  pub realized : t'.realized ≡ t.realized +ℤ realized_of ps

add_first : (x y z : ℤ) → (x +ℤ y) +ℤ z ≡ x +ℤ (y +ℤ z)
add_first x y z = omega int_laws

active-Adds :
    (a : Arithmetic) (prices : Dict ℕ ℤ) (i : ℕ) (p : Position) (ps : List (ℕ × Position))
    (o : Option ℤ) (t : Totals) {u t' : Totals}
    → p.quantity ≢ pos 0
    → lookup i prices ≡ o
    → mark_open a i p o t ≡ ok u
    → Adds prices ps u t'
    → Adds prices ((i, p) ∷ ps) t t'
active-Adds a prices i p ps none t open_now q h k = absurd (ground arith)
active-Adds a prices i p ps (some price) t {u = u} open_now q h k =
    elim (Bool-cases (leb_ℤ price (pos 0))) [
      | inl low ↦ absurd (ground arith)
      | inr high ↦
          let is : marked a i p price t ≡ u = ok_injective (rw high at h) in
          let m : PositionMark = record {
            instrument_id = i;
            quantity = p.quantity;
            average_price = p.average_price;
            market_price = price;
            realized_pnl = p.realized_pnl;
            unrealized_pnl = a.mul (price -ℤ p.average_price) p.quantity;
          } in
          record {
            added = m ∷ k.added;
            marks =
                k.marks
                ∙ ap (λ x. x.marks ++ k.added) (sym is)
                ∙ append_assoc t.marks (m ∷ []) k.added;
            marked = active open_now q (ground (arith, high)) (refl, refl, refl, refl) k.marked;
            realized =
                k.realized
                ∙ ap (λ x. x.realized +ℤ realized_of ps) (sym is)
                ∙ add_first t.realized p.realized_pnl (realized_of ps);
          }
    ]

pub mark_all-Adds :
    (a : Arithmetic) (prices : Dict ℕ ℤ) (ps : List (ℕ × Position)) (t : Totals) {t' : Totals}
    → mark_all a prices ps t ≡ ok t'
    → Adds prices ps t t'
unfolding mark_all mark_one
mark_all-Adds a prices [] t h = subst (Adds prices [] t) (ok_injective h) (record {
  added = [];
  marks = sym (append-nil t.marks);
  marked = none_left;
  realized = omega int_laws;
})
mark_all-Adds a prices ((i, p) ∷ ps) t h =
    let (u, one, rest) = >>=-ok (mark_one a prices i p t) (λ x. mark_all a prices ps x) h in
    let k = mark_all-Adds a prices ps u rest in
    elim (Bool-cases (p.quantity ==ℤ pos 0)) [
      | inl nothing ↦
          let is : record t { realized = t.realized +ℤ p.realized_pnl } ≡ u =
            ok_injective (rw nothing at one) in
          record {
            added = k.added;
            marks = k.marks ∙ ap (λ x. x.marks ++ k.added) (sym is);
            marked = flat (ground (arith, nothing)) k.marked;
            realized =
                k.realized
                ∙ ap (λ x. x.realized +ℤ realized_of ps) (sym is)
                ∙ add_first t.realized p.realized_pnl (realized_of ps);
          }
      | inr open_now ↦
          active-Adds a prices i p ps (lookup i prices) t (λ e. ground (arith, open_now, e)) refl
            (rw open_now at one) k
    ]
