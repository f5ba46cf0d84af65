-- ===== src/Execution/StateMachine/Step.antt =====
-- The lifecycle as a step relation: what `apply_order_event` may do, and when.
use mytradingsystem.Base.{
  ◌≡◌, ◌≤◌, ◌<◌, true, false, some, ℤ, ◌+ℤ◌, ◌≤ℤ◌, ◌<ℤ◌, ◌==ℤ◌, arith, ok, if◌then◌else◌, ltb,
  Bool-cases, inl, inr, ltb_ℤ, subst, Option, none, ok_injective, refl,
}
use mytradingsystem.Domain.{OrderStatus, filled, partially_filled}
use mytradingsystem.Execution.StateMachine.{
  OrderEvent, OrderState, out_of_order_event, conflicting_broker_order_id, overfill, fill, is_fill,
  is_fillable, transition, conflicts, is_duplicate, accept, requires_reconciliation, apply_fill,
  apply_target, apply_order_event,
}

-- The event is new, not older than the last one, and names no other broker order.
pub record Admissible (s : OrderState) (e : OrderEvent) : Type 0 where
  pub fresh : is_duplicate s e ≡ false
  pub in_order : s.last_event_at ≤ e.occurred_at
  pub same_order : conflicts s.broker_order_id e.broker_order_id ≡ false

abbrev pub after_fill : OrderState → ℤ → OrderStatus
after_fill s total = if total ==ℤ s.quantity then filled else partially_filled

pub data Step (s : OrderState) (e : OrderEvent) : OrderState → Type 0 where
  repeated : is_duplicate s e ≡ true → Step s e s
  late :
      is_duplicate s e ≡ false
      → e.occurred_at < s.last_event_at
      → Step s e (requires_reconciliation s e out_of_order_event)
  conflicting :
      is_duplicate s e ≡ false
      → s.last_event_at ≤ e.occurred_at
      → conflicts s.broker_order_id e.broker_order_id ≡ true
      → Step s e (requires_reconciliation s e conflicting_broker_order_id)
  too_much :
      Admissible s e
      → e.event_type ≡ fill
      → is_fillable s.status ≡ true
      → s.quantity <ℤ (s.filled_quantity +ℤ e.fill_quantity)
      → Step s e (requires_reconciliation s e overfill)
  fills :
      Admissible s e
      → e.event_type ≡ fill
      → is_fillable s.status ≡ true
      → (s.filled_quantity +ℤ e.fill_quantity) ≤ℤ s.quantity
      → Step s e (
          accept s e
            (after_fill s (s.filled_quantity +ℤ e.fill_quantity))
            (s.filled_quantity +ℤ e.fill_quantity))
  moves :
      {target : OrderStatus}
      → Admissible s e
      → transition s.status e.event_type ≡ some target
      → Step s e (accept s e target s.filled_quantity)

is_fill-eq : (e : OrderEvent) → is_fill e.event_type ≡ true → e.event_type ≡ fill
is_fill-eq e h = ground arith

fill-Step :
    (s : OrderState) (e : OrderEvent) {t : OrderState}
    → Admissible s e
    → e.event_type ≡ fill
    → apply_fill s e (s.filled_quantity +ℤ e.fill_quantity) ≡ ok t
    → Step s e t
unfolding apply_fill
fill-Step s e a f h = elim (Bool-cases (is_fillable s.status)) [
  | inl open_order ↦ elim (Bool-cases (ltb_ℤ s.quantity (s.filled_quantity +ℤ e.fill_quantity))) [
    | inl over ↦ subst (Step s e) (ground arith) (too_much a f open_order (ground arith))
    | inr fits ↦ subst (Step s e) (ground arith) (fills a f open_order (ground arith))
  ]
  | inr shut ↦ cc (rw shut at h)
]

target-Step :
    (s : OrderState) (e : OrderEvent) (target : Option OrderStatus) {t : OrderState}
    → Admissible s e
    → transition s.status e.event_type ≡ target
    → apply_target s e target ≡ ok t
    → Step s e t
target-Step s e none a q h = cc
target-Step s e (some target) a q h = subst (Step s e) (ok_injective h) (moves a q)

pub Admissible-apply :
    (s : OrderState) (e : OrderEvent)
    → Admissible s e
    → apply_order_event s e ≡ (
        if is_fill e.event_type
        then apply_fill s e (s.filled_quantity +ℤ e.fill_quantity)
        else apply_target s e (transition s.status e.event_type))
unfolding apply_order_event
Admissible-apply s e a = ground arith

Admissible-Step :
    (s : OrderState) (e : OrderEvent) {t : OrderState}
    → Admissible s e
    → apply_order_event s e ≡ ok t
    → Step s e t
Admissible-Step s e a h = elim (Bool-cases (is_fill e.event_type)) [
  | inl f ↦ fill-Step s e a (is_fill-eq e f) (rw (Admissible-apply s e a, f) at h)
  | inr m ↦
      target-Step s e (transition s.status e.event_type) a refl
        (rw (Admissible-apply s e a, m) at h)
]

-- A call that returns makes a step of the relation.
pub apply-Step :
    (s : OrderState) (e : OrderEvent) {t : OrderState} → apply_order_event s e ≡ ok t → Step s e t
unfolding apply_order_event
apply-Step s e h = elim (Bool-cases (is_duplicate s e)) [
  | inl old ↦ subst (Step s e) (ground arith) (repeated old)
  | inr new ↦ elim (Bool-cases (ltb e.occurred_at s.last_event_at)) [
    | inl before ↦ subst (Step s e) (ground arith) (late new (ground arith))
    | inr after ↦ elim (Bool-cases (conflicts s.broker_order_id e.broker_order_id)) [
      | inl other ↦ subst (Step s e) (ground arith) (conflicting new (ground arith) other)
      | inr same ↦
          Admissible-Step s e (record { fresh = new; in_order = ground arith; same_order = same }) h
    ]
  ]
]
