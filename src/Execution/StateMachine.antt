-- ===== src/Execution/StateMachine.antt =====
-- packages/execution/state_machine.py: the lifecycle of one order. A state's and an event's times
-- are instants, since both are built from aware datetimes only.
pub mod Step
pub mod Invariant
pub mod Safety
pub mod History
use mytradingsystem.Base.{
  ℕ, ◌+◌, max, Bool, true, false, not, ◌&&◌, ◌||◌, String, Option, none, some, List, [], ◌∷◌, ℤ,
  pos, ◌+ℤ◌, ltb_ℤ, leb_ℤ, ◌==ℤ◌, ltb, if◌then◌else◌, Result, ok, err, ◌>>=◌, ◌>>◌, raise_if,
  is_blank, contains, opt_str_eq, is_some, DateTime, is_naive, instant,
}
use mytradingsystem.Domain.{
  OrderStatus, created, risk_pending, risk_rejected, approved, submitting, submitted, acknowledged,
  partially_filled, filled, cancel_pending, cancelled, rejected, expired, reconciliation_required,
}

pub data EventType : Type 0 where
  risk_requested risk_approved risk_refused submit_started submit_confirmed : EventType
  submission_unknown broker_acknowledged fill cancel_requested cancel_confirmed : EventType
  broker_rejected time_expired : EventType

abbrev pub is_fill : EventType → Bool
is_fill fill = true
is_fill _ = false

-- The `ValueError`s of the file.
pub data OrderError : Type 0 where
  empty_event_id naive_event_time negative_fill fill_without_quantity : OrderError
  quantity_without_fill nonpositive_quantity naive_creation_time : OrderError
  invalid_fill : OrderStatus → OrderError
  invalid_event : EventType → OrderStatus → OrderError

pub record OrderEvent : Type 0 where
  pub event_id : String
  pub event_type : EventType
  pub occurred_at : ℕ
  pub fill_quantity : ℤ
  pub broker_order_id : Option String

-- `OrderEvent(...)` with its `__post_init__`.
unfoldable pub order_event :
    String → EventType → DateTime → ℤ → Option String → Result OrderError OrderEvent
order_event event_id event_type occurred_at quantity broker_id = do
  raise_if (is_blank event_id) empty_event_id
  raise_if (is_naive occurred_at) naive_event_time
  raise_if (ltb_ℤ quantity (pos 0)) negative_fill
  raise_if (is_fill event_type && leb_ℤ quantity (pos 0)) fill_without_quantity
  raise_if (not (is_fill event_type) && not (quantity ==ℤ pos 0)) quantity_without_fill
  ok (record {
    event_id = event_id;
    event_type = event_type;
    occurred_at = instant occurred_at;
    fill_quantity = quantity;
    broker_order_id = broker_id;
  })

-- The texts of `reconciliation_reason`.
pub data Reason : Type 0 where
  out_of_order_event conflicting_broker_order_id overfill submission_outcome_unknown : Reason

pub record OrderState : Type 0 where
  pub order_id : ℕ
  pub quantity : ℤ
  pub status : OrderStatus
  pub filled_quantity : ℤ
  pub broker_order_id : Option String
  pub last_event_at : ℕ
  pub processed_event_ids : List String
  pub version : ℕ
  pub reconciliation_reason : Option Reason

unfoldable pub initial_order_state : ℕ → ℤ → DateTime → Result OrderError OrderState
initial_order_state order_id quantity created_at = do
  raise_if (leb_ℤ quantity (pos 0)) nonpositive_quantity
  raise_if (is_naive created_at) naive_creation_time
  ok (record {
    order_id = order_id;
    quantity = quantity;
    status = created;
    filled_quantity = pos 0;
    broker_order_id = none;
    last_event_at = instant created_at;
    processed_event_ids = [];
    version = 0;
    reconciliation_reason = none;
  })

-- `_TRANSITIONS.get((status, event_type))`
abbrev pub transition : OrderStatus → EventType → Option OrderStatus
transition created risk_requested = some risk_pending
transition risk_pending risk_approved = some approved
transition risk_pending risk_refused = some risk_rejected
transition approved submit_started = some submitting
transition submitting submit_confirmed = some submitted
transition submitting submission_unknown = some reconciliation_required
transition submitted broker_acknowledged = some acknowledged
transition submitted broker_rejected = some rejected
transition acknowledged broker_rejected = some rejected
transition submitted cancel_requested = some cancel_pending
transition acknowledged cancel_requested = some cancel_pending
transition partially_filled cancel_requested = some cancel_pending
transition cancel_pending cancel_confirmed = some cancelled
transition submitted time_expired = some expired
transition acknowledged time_expired = some expired
transition _ _ = none

-- `status in _FILLABLE`
abbrev pub is_fillable : OrderStatus → Bool
is_fillable submitted = true
is_fillable acknowledged = true
is_fillable partially_filled = true
is_fillable cancel_pending = true
is_fillable _ = false

-- `_requires_reconciliation`
unfoldable pub requires_reconciliation : OrderState → OrderEvent → Reason → OrderState
requires_reconciliation s e reason = record s {
  status = reconciliation_required;
  last_event_at = max s.last_event_at e.occurred_at;
  processed_event_ids = e.event_id ∷ s.processed_event_ids;
  version = s.version + 1;
  reconciliation_reason = some reason;
}

-- The event was applied before; the source then returns the state object itself.
unfoldable pub is_duplicate : OrderState → OrderEvent → Bool
is_duplicate s e = contains e.event_id s.processed_event_ids

-- The event names a broker order other than the one that is known.
abbrev pub conflicts : Option String → Option String → Bool
conflicts known reported = is_some reported && is_some known && not (opt_str_eq known reported)

abbrev pub merge_broker_id : Option String → Option String → Option String
merge_broker_id known none = known
merge_broker_id known (some reported) = some reported

abbrev pub reason_for : OrderStatus → Option Reason → Option Reason
reason_for reconciliation_required before = some submission_outcome_unknown
reason_for _ before = before

-- The `replace` at the end of `apply_order_event`.
abbrev pub accept : OrderState → OrderEvent → OrderStatus → ℤ → OrderState
accept s e status quantity = record s {
  status = status;
  filled_quantity = quantity;
  broker_order_id = merge_broker_id s.broker_order_id e.broker_order_id;
  last_event_at = e.occurred_at;
  processed_event_ids = e.event_id ∷ s.processed_event_ids;
  version = s.version + 1;
  reconciliation_reason = reason_for status s.reconciliation_reason;
}

-- The branch for a fill, on the quantity filled with it.
unfoldable pub apply_fill : OrderState → OrderEvent → ℤ → Result OrderError OrderState
apply_fill s e total =
    if not (is_fillable s.status)
    then err (invalid_fill s.status)
    else if ltb_ℤ s.quantity total
    then ok (requires_reconciliation s e overfill)
    else ok (accept s e (if total ==ℤ s.quantity then filled else partially_filled) total)

abbrev pub apply_target :
    OrderState → OrderEvent → Option OrderStatus → Result OrderError OrderState
apply_target s e none = err (invalid_event e.event_type s.status)
apply_target s e (some target) = ok (accept s e target s.filled_quantity)

unfoldable pub apply_order_event : OrderState → OrderEvent → Result OrderError OrderState
apply_order_event s e =
    if is_duplicate s e
    then ok s
    else if ltb e.occurred_at s.last_event_at
    then ok (requires_reconciliation s e out_of_order_event)
    else if conflicts s.broker_order_id e.broker_order_id
    then ok (requires_reconciliation s e conflicting_broker_order_id)
    else if is_fill e.event_type
    then apply_fill s e (s.filled_quantity +ℤ e.fill_quantity)
    else apply_target s e (transition s.status e.event_type)
