-- ===== src/Backtesting/Loop/Times.antt =====
-- Trades in the order of time.
use mytradingsystem.Decision.{DecisionResult}
use mytradingsystem.Base.{List, ℕ, All, [], ◌++◌, ◌<◌, ◌∷◌, ◌≤◌, arith, ◌≡◌, Option, some}
use mytradingsystem.Backtesting.Positions.{Trade, Position}
use mytradingsystem.Backtesting.Loop.{Book}

-- A trade's signal comes before its entry, and its entry not after its exit.
pub record InOrder (t : Trade) : Type 0 where
  pub signalled : t.signal_at < t.entered_at
  pub lasted : t.entered_at ≤ t.exited_at

-- The trades follow one another: each is over when a later one is entered.
abbrev pub Chronicle : List Trade → Type 0
Chronicle [] = Unit
Chronicle (t ∷ ts) = InOrder t × All (λ u. t.exited_at ≤ u.entered_at) ts × Chronicle ts

abbrev pub OverBy : ℕ → List Trade → Type 0
OverBy n ts = All (λ t. t.exited_at ≤ n) ts

pub OverBy-le : (m n : ℕ) (ts : List Trade) → m ≤ n → OverBy m ts → OverBy n ts
OverBy-le m n [] le h = tt
OverBy-le m n (t ∷ ts) le h = (omega (arith, h.0), OverBy-le m n ts le h.1)

pub OverBy-snoc :
    (n : ℕ) (ts : List Trade) (t : Trade) → OverBy n ts → t.exited_at ≤ n → OverBy n (ts ++ t ∷ [])
OverBy-snoc n [] t h k = (k, tt)
OverBy-snoc n (u ∷ ts) t h k = (h.0, OverBy-snoc n ts t h.1 k)

pub After-snoc :
    (n : ℕ) (ts : List Trade) (t : Trade)
    → All (λ u. n ≤ u.entered_at) ts
    → n ≤ t.entered_at
    → All (λ u. n ≤ u.entered_at) (ts ++ t ∷ [])
After-snoc n [] t h k = (k, tt)
After-snoc n (u ∷ ts) t h k = (h.0, After-snoc n ts t h.1 k)

pub Chronicle-snoc :
    (ts : List Trade) (t : Trade)
    → Chronicle ts
    → OverBy t.entered_at ts
    → InOrder t
    → Chronicle (ts ++ t ∷ [])
Chronicle-snoc [] t h over i = (i, tt, tt)
Chronicle-snoc (u ∷ ts) t (first, later, rest) over i =
    (first, After-snoc u.exited_at ts t later over.0, Chronicle-snoc ts t rest over.1 i)

-- What is held was signalled before it was entered, and entered when the trades were over.
pub record HeldSince (now : ℕ) (ts : List Trade) (p : Position) : Type 0 where
  pub signalled : p.held_signal_at < p.held_entered_at
  pub entered : p.held_entered_at ≤ now
  pub over : OverBy p.held_entered_at ts

-- The book at a time. What is queued was decided before `limit`.
pub record Timely (now limit : ℕ) (b : Book) : Type 0 where
  pub chronicle : Chronicle b.trades
  pub over : OverBy now b.trades
  pub held : (p : Position) → b.position ≡ some p → HeldSince now b.trades p
  pub queued : (d : DecisionResult) → b.pending ≡ some d → d.result_timestamp < limit

pub some_injective : {p q : Position} → ◌≡◌ {A = Option Position} (some p) (some q) → p ≡ q
some_injective h = cc
