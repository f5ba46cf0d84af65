-- ===== src/Execution/StateMachine/Safety.antt =====
-- Single calls: repetition, order of time, and the states that an order does not leave.
use mytradingsystem.Base.{
  ◌+◌, ◌≤◌, ◌≡◌, ◌⊎◌, inl, inr, Bool, true, false, ◌≤ℤ◌, +ℤ_parts, arith, ok, refl, contains,
  contains-cons_self, ◌+ℤ◌, ◌<ℤ◌, err,
}
use mytradingsystem.Domain.{
  OrderStatus, risk_rejected, filled, cancelled, rejected, expired, reconciliation_required,
  cancel_pending, partially_filled,
}
use mytradingsystem.Execution.StateMachine.{
  OrderEvent, OrderState, apply_order_event, requires_reconciliation, is_duplicate, apply_fill,
  fill, cancel_confirmed, invalid_event,
}
use mytradingsystem.Execution.StateMachine.Step.{
  Step, repeated, late, conflicting, too_much, fills, moves, apply-Step, Admissible,
  Admissible-apply,
}
use mytradingsystem.Execution.StateMachine.Invariant.{EventIsValid}

-- Applied or locked, the event is remembered.
Step-remembers :
    {s : OrderState} {e : OrderEvent} {t : OrderState}
    → Step s e t
    → contains e.event_id t.processed_event_ids ≡ true
unfolding is_duplicate requires_reconciliation
Step-remembers (repeated h) = h
Step-remembers {s} {e} (late h k) = contains-cons_self e.event_id s.processed_event_ids
Step-remembers {s} {e} (conflicting h k c) = contains-cons_self e.event_id s.processed_event_ids
Step-remembers {s} {e} (too_much a f o q) = contains-cons_self e.event_id s.processed_event_ids
Step-remembers {s} {e} (fills a f o q) = contains-cons_self e.event_id s.processed_event_ids
Step-remembers {s} {e} (moves a q) = contains-cons_self e.event_id s.processed_event_ids

-- An event that was applied once changes nothing when it is delivered again.
pub apply-apply_idem :
    (s : OrderState) (e : OrderEvent) {t : OrderState}
    → apply_order_event s e ≡ ok t
    → apply_order_event t e ≡ ok t
unfolding apply_order_event is_duplicate
apply-apply_idem s e h = rw (Step-remembers (apply-Step s e h))

-- What no call takes back.
pub record Grows (s t : OrderState) : Type 0 where
  pub same_id : t.order_id ≡ s.order_id
  pub same_quantity : t.quantity ≡ s.quantity
  pub filled_grows : s.filled_quantity ≤ℤ t.filled_quantity
  pub time_grows : s.last_event_at ≤ t.last_event_at
  pub version_grows : (t ≡ s) ⊎ (t.version ≡ s.version + 1)

Step-Grows :
    {s : OrderState} {e : OrderEvent} {t : OrderState} → EventIsValid e → Step s e t → Grows s t
unfolding requires_reconciliation
Step-Grows w (repeated h) = ground arith
Step-Grows w (late h k) = ground arith
Step-Grows w (conflicting h k c) = ground arith
Step-Grows w (too_much a f o q) = ground arith
Step-Grows {s} {e} w (fills a f o q) =
    ground (arith, +ℤ_parts s.filled_quantity e.fill_quantity, w.fill_positive f, a.in_order)
Step-Grows w (moves a q) = ground (arith, a.in_order)

-- A call keeps the order's identity and quantity; the filled quantity and the time of the last event
-- never fall; the version rises by one unless the call changes nothing at all.
pub apply-Grows :
    (s : OrderState) (e : OrderEvent) {t : OrderState}
    → EventIsValid e
    → apply_order_event s e ≡ ok t
    → Grows s t
apply-Grows s e w h = Step-Grows w (apply-Step s e h)

-- The statuses with no way on.
abbrev pub is_final : OrderStatus → Bool
is_final risk_rejected = true
is_final filled = true
is_final cancelled = true
is_final rejected = true
is_final expired = true
is_final reconciliation_required = true
is_final _ = false

Step-final :
    {s : OrderState} {e : OrderEvent} {t : OrderState}
    → is_final s.status ≡ true
    → Step s e t
    → (t ≡ s) ⊎ (t.status ≡ reconciliation_required) × (t.filled_quantity ≡ s.filled_quantity)
unfolding requires_reconciliation
Step-final h (repeated d) = inl refl
Step-final h (late d k) = inr (refl, refl)
Step-final h (conflicting d k c) = inr (refl, refl)
Step-final h (too_much a f o q) = inr (refl, refl)
Step-final h (fills a f o q) = ground arith
Step-final h (moves a q) = ground arith

-- From a final status a call changes nothing or locks the order for reconciliation, and no call
-- takes an order out of the lock or fills any more of it.
pub apply-final :
    (s : OrderState) (e : OrderEvent) {t : OrderState}
    → is_final s.status ≡ true
    → apply_order_event s e ≡ ok t
    → (t ≡ s) ⊎ (t.status ≡ reconciliation_required) × (t.filled_quantity ≡ s.filled_quantity)
apply-final s e f h = Step-final f (apply-Step s e h)

-- A partial fill that arrives while a cancellation is pending takes the order back to
-- PARTIALLY_FILLED, and the confirmation of that cancellation is then refused: the order is left
-- partially filled, though the broker has cancelled it.
pub cancel_pending-fill_refuses_confirmation :
    (s : OrderState) (e c : OrderEvent) {t : OrderState}
    → s.status ≡ cancel_pending
    → Admissible s e
    → e.event_type ≡ fill
    → (s.filled_quantity +ℤ e.fill_quantity) <ℤ s.quantity
    → apply_order_event s e ≡ ok t
    → Admissible t c
    → c.event_type ≡ cancel_confirmed
    → (t.status ≡ partially_filled)
      × (apply_order_event t c ≡ err (invalid_event cancel_confirmed partially_filled))
unfolding apply_fill
cancel_pending-fill_refuses_confirmation s e c {t} pending a f part h b k =
    let status : t.status ≡ partially_filled = ground (arith, Admissible-apply s e a) in
    (status, ground (arith, Admissible-apply t c b))
