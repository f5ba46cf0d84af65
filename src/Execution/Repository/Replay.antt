-- ===== src/Execution/Repository/Replay.antt =====
-- The replay of an order's events, and the event rows of an order after one more is added.
use mytradingsystem.Base.{
  ℕ, ◌+◌, ◌≤◌, ◌<◌, ◌≡◌, ◌≢◌, refl, List, [], ◌∷◌, ◌++◌, arith, Result, ok, err, ◌>>=◌, ==_refl,
  nat_keys, All,
}
use mytradingsystem.Execution.StateMachine.{OrderEvent, OrderState, OrderError, apply_order_event}
use mytradingsystem.Execution.Repository.{EventRow, insert_row, ordered_rows}

-- The events applied one after another.
abbrev pub replay : OrderState → List OrderEvent → Result OrderError OrderState
replay s [] = ok s
replay s (e ∷ es) = apply_order_event s e >>= λ t. replay t es

bind_ok : {A : Type 0} (m : Result OrderError A) → (m >>= ok) ≡ m
bind_ok (ok a) = refl
bind_ok (err e) = refl

bind_under :
    {A B C : Type 0} (m : Result OrderError A) (f : A → Result OrderError B)
    (g : A → Result OrderError C) (h : B → Result OrderError C)
    → ((a : A) → g a ≡ (f a >>= h))
    → (m >>= g) ≡ ((m >>= f) >>= h)
bind_under (ok a) f g h k = k a
bind_under (err e) f g h k = refl

pub replay-append :
    (s : OrderState) (es : List OrderEvent) (e : OrderEvent)
    → replay s (es ++ e ∷ []) ≡ (replay s es >>= λ t. apply_order_event t e)
replay-append s [] e = bind_ok (apply_order_event s e)
replay-append s (d ∷ es) e =
    bind_under (apply_order_event s d) (λ t. replay t es) (λ t. replay t (es ++ e ∷ []))
      (λ t. apply_order_event t e) (λ t. replay-append t es e)

insert_row-last :
    (r : EventRow) (rs : List EventRow)
    → All (λ s. s.resulting_version < r.resulting_version) rs
    → insert_row r rs ≡ rs ++ r ∷ []
unfolding insert_row
insert_row-last r [] h = refl
insert_row-last r (s ∷ rs) h = ground (arith, insert_row-last r rs h.1)

pub All-snoc :
    (v : ℕ) (rs : List EventRow) (r : EventRow)
    → All (λ s. s.resulting_version ≤ v) rs
    → r.resulting_version ≡ v + 1
    → All (λ s. s.resulting_version ≤ v + 1) (rs ++ r ∷ [])
All-snoc v [] r h q = (omega arith, tt)
All-snoc v (s ∷ rs) r h q = (omega arith, All-snoc v rs r h.1 q)

All-below :
    (v w : ℕ) (rs : List EventRow)
    → v < w
    → All (λ s. s.resulting_version ≤ v) rs
    → All (λ s. s.resulting_version < w) rs
All-below v w [] q h = tt
All-below v w (s ∷ rs) q h = (omega arith, All-below v w rs q h.1)

pub ordered_rows-ne :
    (i j : ℕ) (e : OrderEvent) (v : ℕ) (rs : List EventRow)
    → j ≢ i
    → ordered_rows j (record { order_id = i; event = e; resulting_version = v } ∷ rs)
      ≡ ordered_rows j rs
ordered_rows-ne i j e v rs ne = ground arith

pub events-append :
    (i : ℕ) (e : OrderEvent) (v : ℕ) (rs : List EventRow)
    → All (λ s. s.resulting_version ≤ v) (ordered_rows i rs)
    → ordered_rows i (record { order_id = i; event = e; resulting_version = v + 1 } ∷ rs)
      ≡ ordered_rows i rs ++ record { order_id = i; event = e; resulting_version = v + 1 } ∷ []
events-append i e v rs h =
    let r : EventRow = record { order_id = i; event = e; resulting_version = v + 1 } in
    rw (==_refl i) (insert_row-last r (ordered_rows i rs) (All-below v (v + 1) _ (omega arith) h))
