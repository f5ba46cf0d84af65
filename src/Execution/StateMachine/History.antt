-- ===== src/Execution/StateMachine/History.antt =====
-- Whole lives of an order: what every state that is reached from a new order has behind it.
use mytradingsystem.Base.{
  ℕ, ◌≡◌, ◌≢◌, ◌⊎◌, inl, inr, Bool, true, false, ◌||◌, some, ℤ, pos, ◌+ℤ◌, arith, ok, refl, List,
  [], ◌∷◌, ◌∙◌, sym, ap, String, contains, if◌then◌else◌, DateTime, any, str_eq, or-true, +ℤ-zero,
  Bool-cases, eq_iff, err,
}
use mytradingsystem.Domain.{
  OrderStatus, created, risk_pending, risk_rejected, reconciliation_required,
}
use mytradingsystem.Execution.StateMachine.{
  OrderEvent, OrderState, EventType, risk_approved, apply_order_event, requires_reconciliation,
  is_duplicate, fill, initial_order_state, transition, is_fillable, OrderError,
}
use mytradingsystem.Execution.StateMachine.Step.{
  Step, repeated, late, conflicting, too_much, fills, moves, apply-Step,
}
use mytradingsystem.Execution.StateMachine.Invariant.{
  EventIsValid, IsValid, initial-IsValid, apply-IsValid,
}

-- The order after any calls, with the events whose calls returned, the newest first. A call that
-- raised leaves the order and the list as they were.
pub data Reach (i : ℕ) (q : ℤ) (at : DateTime) : List OrderEvent → OrderState → Type 0 where
  begin : {s : OrderState} → initial_order_state i q at ≡ ok s → Reach i q at [] s
  next :
      {es : List OrderEvent} {s : OrderState} {e : OrderEvent} {t : OrderState}
      → Reach i q at es s
      → EventIsValid e
      → apply_order_event s e ≡ ok t
      → Reach i q at (e ∷ es) t
  raised :
      {es : List OrderEvent} {s : OrderState} (e : OrderEvent) (x : OrderError)
      → Reach i q at es s
      → apply_order_event s e ≡ err x
      → Reach i q at es s

module _ {i : ℕ} {q : ℤ} {at : DateTime} where
  -- Every order that is reached is valid.
  pub Reach-IsValid : {es : List OrderEvent} {s : OrderState} → Reach i q at es s → IsValid s
  Reach-IsValid (begin h) = initial-IsValid i q at h
  Reach-IsValid (next {s = s} {e = e} r w h) = apply-IsValid s e (Reach-IsValid r) w h
  Reach-IsValid (raised e x r h) = Reach-IsValid r

abbrev pub is_approval : OrderEvent → Bool
is_approval e = elim e.event_type [ risk_approved ↦ true | _ ↦ false ]

-- The statuses that an order has with no approval by the risk engine.
abbrev pub is_unapproved : OrderStatus → Bool
is_unapproved created = true
is_unapproved risk_pending = true
is_unapproved risk_rejected = true
is_unapproved reconciliation_required = true
is_unapproved _ = false

abbrev Cleared : List OrderEvent → OrderState → Type 0
Cleared es s =
    (any is_approval es ≡ true) ⊎ (is_unapproved s.status ≡ true) × (s.filled_quantity ≡ pos 0)

Step-Cleared :
    {s : OrderState} {e : OrderEvent} {t : OrderState} (es : List OrderEvent)
    → Step s e t
    → Cleared es s
    → Cleared (e ∷ es) t
unfolding requires_reconciliation
Step-Cleared es (repeated h) c = ground arith
Step-Cleared es (late h k) c = ground arith
Step-Cleared es (conflicting h k x) c = ground arith
Step-Cleared es (too_much a f o q) c = ground arith
Step-Cleared es (fills a f o q) c = ground arith
Step-Cleared es (moves a q) c = ground arith

module _ {i : ℕ} {q : ℤ} {at : DateTime} where
  Reach-Cleared : {es : List OrderEvent} {s : OrderState} → Reach i q at es s → Cleared es s
  unfolding initial_order_state
  Reach-Cleared (begin h) = ground arith
  Reach-Cleared (next {es = es} {s = s} {e = e} r w h) =
      Step-Cleared es (apply-Step s e h) (Reach-Cleared r)
  Reach-Cleared (raised e x r h) = Reach-Cleared r

-- No order is sent to the broker, nor any part of it filled, before an approval by the risk engine:
-- where the status is past the approval or something is filled, an approval is among the events whose
-- calls returned.
pub Reach-approved :
    (i : ℕ) (q : ℤ) (at : DateTime) {es : List OrderEvent} {s : OrderState}
    → Reach i q at es s
    → (is_unapproved s.status ≡ false) ⊎ (s.filled_quantity ≢ pos 0)
    → any is_approval es ≡ true
Reach-approved i q at r past = ground (arith, Reach-Cleared r)

-- Whether an event of this identity is in the list.
abbrev pub seen : String → List OrderEvent → Bool
seen k [] = false
seen k (e ∷ es) = str_eq k e.event_id || seen k es

-- The fills of the events, each event identity counted when it first came.
abbrev pub reported_once : List OrderEvent → ℤ
reported_once [] = pos 0
reported_once (e ∷ es) =
    let rest = reported_once es in if seen e.event_id es then rest else rest +ℤ e.fill_quantity

record Tally (es : List OrderEvent) (s : OrderState) : Type 0 where
  ids : (k : String) → contains k s.processed_event_ids ≡ seen k es
  total : s.status ≢ reconciliation_required → s.filled_quantity ≡ reported_once es

contains-repeated :
    (k i : String) (ids : List String)
    → contains i ids ≡ true
    → (str_eq k i || contains k ids) ≡ contains k ids
contains-repeated k i ids h = elim (Bool-cases (str_eq k i)) [
  | inl same ↦ rw ((eq_iff k i).0 same) (rw h (or-true _))
  | inr other ↦ rw other
]

Step-ids :
    {s : OrderState} {e : OrderEvent} {t : OrderState}
    → Step s e t
    → (k : String)
    → contains k t.processed_event_ids ≡ (str_eq k e.event_id || contains k s.processed_event_ids)
unfolding requires_reconciliation is_duplicate contains
Step-ids {s} {e} (repeated h) k = sym (contains-repeated k e.event_id s.processed_event_ids h)
Step-ids (late h x) k = refl
Step-ids (conflicting h x c) k = refl
Step-ids (too_much a f o q) k = refl
Step-ids (fills a f o q) k = refl
Step-ids (moves a q) k = refl

fillable-live : (o : OrderStatus) → is_fillable o ≡ true → o ≢ reconciliation_required
fillable-live o h = ground arith

moves-live :
    (o : OrderStatus) (k : EventType) {t : OrderStatus}
    → transition o k ≡ some t
    → o ≢ reconciliation_required
moves-live o k h = ground arith

moves-not_fill :
    (o : OrderStatus) (k : EventType) {t : OrderStatus} → transition o k ≡ some t → k ≢ fill
moves-not_fill o k h = ground arith

Step-total :
    {s : OrderState} {e : OrderEvent} {t : OrderState} (es : List OrderEvent)
    → EventIsValid e
    → Step s e t
    → Tally es s
    → t.status ≢ reconciliation_required
    → t.filled_quantity ≡ reported_once (e ∷ es)
unfolding requires_reconciliation is_duplicate
Step-total {s} {e} es w (repeated h) y live = rw (sym (y.ids e.event_id) ∙ h) (y.total live)
Step-total es w (late h k) y live = absurd (live refl)
Step-total es w (conflicting h k x) y live = absurd (live refl)
Step-total es w (too_much a f o q) y live = absurd (live refl)
Step-total {s} {e} es w (fills a f o q) y live =
    rw (sym (y.ids e.event_id) ∙ a.fresh)
      (ap (λ n. n +ℤ e.fill_quantity) (y.total (fillable-live s.status o)))
Step-total {s} {e} es w (moves a q) y live = rw (sym (y.ids e.event_id) ∙ a.fresh) (
    y.total (moves-live s.status e.event_type q)
    ∙ sym (+ℤ-zero _ _ (w.other_zero (moves-not_fill s.status e.event_type q))))

module _ {i : ℕ} {q : ℤ} {at : DateTime} where
  Reach-Tally : {es : List OrderEvent} {s : OrderState} → Reach i q at es s → Tally es s
  unfolding initial_order_state contains
  Reach-Tally (begin h) = record { ids = λ k. ground arith; total = λ live. ground arith }
  Reach-Tally (next {es = es} {s = s} {e = e} r w h) =
      let st = apply-Step s e h in
      let y = Reach-Tally r in
      record { ids = λ k. rw (Step-ids st k, y.ids k); total = Step-total es w st y }
  Reach-Tally (raised e x r h) = Reach-Tally r

-- The filled quantity is the sum of the fills of the events whose calls returned, each event identity
-- counted once however often and between whatever other events it was delivered, unless the order is
-- locked for reconciliation. A fill whose call raised, as of an order that is not open at the broker,
-- is not counted.
pub Reach-filled :
    (i : ℕ) (q : ℤ) (at : DateTime) {es : List OrderEvent} {s : OrderState}
    → Reach i q at es s
    → s.status ≢ reconciliation_required
    → s.filled_quantity ≡ reported_once es
Reach-filled i q at r live = (Reach-Tally r).total live
