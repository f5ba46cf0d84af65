-- ===== src/Execution/StateMachine/Invariant.antt =====
-- What holds of every order state, and of every event that its constructor accepts.
use mytradingsystem.Base.{
  ℕ, ◌≡◌, ◌≢◌, Bool, true, false, String, Option, some, ℤ, pos, ◌+ℤ◌, ◌≤ℤ◌, ◌<ℤ◌, +ℤ_parts, arith,
  ok, length, DateTime, is_some,
}
use mytradingsystem.Domain.{
  OrderStatus, partially_filled, filled, cancel_pending, cancelled, reconciliation_required,
}
use mytradingsystem.Execution.StateMachine.{
  EventType, fill, OrderEvent, OrderState, order_event, initial_order_state, apply_order_event,
  is_fillable, accept, transition, requires_reconciliation, Reason,
}
use mytradingsystem.Execution.StateMachine.Step.{
  Step, repeated, late, conflicting, too_much, fills, moves, after_fill, apply-Step,
}

pub record EventIsValid (e : OrderEvent) : Type 0 where
  pub fill_positive : e.event_type ≡ fill → pos 0 <ℤ e.fill_quantity
  pub other_zero : e.event_type ≢ fill → e.fill_quantity ≡ pos 0

pub order_event-IsValid :
    (i : String) (k : EventType) (t : DateTime) (q : ℤ) (b : Option String) {e : OrderEvent}
    → order_event i k t q b ≡ ok e
    → EventIsValid e
unfolding order_event
order_event-IsValid i k t q b h = ground arith

-- The filled quantity that goes with each status.
abbrev pub FilledFits : OrderStatus → ℤ → ℤ → Type 0
FilledFits filled quantity total = total ≡ quantity
FilledFits partially_filled quantity total = (pos 0 <ℤ total) × (total <ℤ quantity)
FilledFits cancel_pending quantity total = (pos 0 ≤ℤ total) × (total <ℤ quantity)
FilledFits cancelled quantity total = (pos 0 ≤ℤ total) × (total <ℤ quantity)
FilledFits reconciliation_required quantity total = (pos 0 ≤ℤ total) × (total ≤ℤ quantity)
FilledFits _ quantity total = total ≡ pos 0

abbrev pub ReasonFits : OrderStatus → Bool → Type 0
ReasonFits reconciliation_required given = given ≡ true
ReasonFits _ given = given ≡ false

-- The invariant of an order state.
pub record IsValid (s : OrderState) : Type 0 where
  pub quantity_positive : pos 0 <ℤ s.quantity
  pub filled_fits : FilledFits s.status s.quantity s.filled_quantity
  pub reason_fits : ReasonFits s.status (is_some s.reconciliation_reason)
  pub version_counts : s.version ≡ length s.processed_event_ids

pub initial-IsValid :
    (i : ℕ) (q : ℤ) (t : DateTime) {s : OrderState} → initial_order_state i q t ≡ ok s → IsValid s
unfolding initial_order_state
initial-IsValid i q t h = ground arith

-- In a valid state the filled quantity lies between zero and the quantity of the order.
pub filled_in_range :
    (s : OrderState) → IsValid s → (pos 0 ≤ℤ s.filled_quantity) × (s.filled_quantity ≤ℤ s.quantity)
filled_in_range s v = ground arith

fill-IsValid :
    (s : OrderState) (e : OrderEvent)
    → IsValid s
    → pos 0 <ℤ e.fill_quantity
    → is_fillable s.status ≡ true
    → let total = s.filled_quantity +ℤ e.fill_quantity in
      total ≤ℤ s.quantity → IsValid (accept s e (after_fill s total) total)
fill-IsValid s e v p f q =
    ground (arith, filled_in_range s v, +ℤ_parts s.filled_quantity e.fill_quantity)

move-IsValid :
    (s : OrderState) (e : OrderEvent) (target : OrderStatus)
    → IsValid s
    → transition s.status e.event_type ≡ some target
    → IsValid (accept s e target s.filled_quantity)
move-IsValid s e target v q = ground arith

locked-IsValid :
    (s : OrderState) (e : OrderEvent) (r : Reason)
    → IsValid s
    → IsValid (requires_reconciliation s e r)
unfolding requires_reconciliation
locked-IsValid s e r v = ground (arith, filled_in_range s v)

pub Step-IsValid :
    {s : OrderState} {e : OrderEvent} {t : OrderState}
    → IsValid s
    → EventIsValid e
    → Step s e t
    → IsValid t
Step-IsValid v w (repeated h) = v
Step-IsValid {s} {e} v w (late h k) = locked-IsValid s e _ v
Step-IsValid {s} {e} v w (conflicting h k c) = locked-IsValid s e _ v
Step-IsValid {s} {e} v w (too_much a f o q) = locked-IsValid s e _ v
Step-IsValid {s} {e} v w (fills a f o q) = fill-IsValid s e v (w.fill_positive f) o q
Step-IsValid {s} {e} v w (moves a q) = move-IsValid s e _ v q

-- A valid event that is applied to a valid state without an exception gives a valid state.
pub apply-IsValid :
    (s : OrderState) (e : OrderEvent) {t : OrderState}
    → IsValid s
    → EventIsValid e
    → apply_order_event s e ≡ ok t
    → IsValid t
apply-IsValid s e v w h = Step-IsValid v w (apply-Step s e h)
