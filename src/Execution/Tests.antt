-- ===== src/Execution/Tests.antt =====
-- Runs of the execution components at concrete orders, and the theorems at inputs that meet their
-- hypotheses.
use mathlib.Core.List.{Memᴰ}
use mytradingsystem.Execution.Reconciliation.Complete.{reconcile_safe_iff}
use mytradingsystem.Execution.Reconciliation.Agreement.{Agrees}
use mytradingsystem.Execution.Repository.Replay.{replay}
use mytradingsystem.Execution.Repository.Runs.{Runs, then_do, Runs-replay, start_empty}
use mytradingsystem.Execution.Repository.Locking.{
  apply_error_unchanged, apply_loaded-lost_update, load-apply_each,
}
use mytradingsystem.Domain.{
  cancel_pending, cancelled, created, submitted, OrderStatus-discrete, approved, partially_filled,
  risk_pending, reconciliation_required, filled, submitting,
}
use mytradingsystem.Execution.Repository.{
  Tables, apply, apply_loaded, create, load, row_of, event_ids, no_such_order, store_update,
  concurrent_update, events, update_where,
}
use mytradingsystem.Execution.StateMachine.History.{
  Reach, is_approval, reported_once, Reach-filled, next, Reach-approved, begin, raised,
}
use mytradingsystem.Execution.StateMachine.{
  OrderEvent, OrderState, apply_order_event, initial_order_state, order_event, EventType, accept,
  broker_rejected, cancel_confirmed, fill, is_duplicate, risk_approved, risk_requested, apply_fill,
  requires_reconciliation, out_of_order_event, invalid_event, invalid_fill, submit_confirmed,
  submit_started,
}
use mytradingsystem.Execution.StateMachine.Safety.{
  cancel_pending-fill_refuses_confirmation, apply-final,
}
use mytradingsystem.Execution.StateMachine.Invariant.{EventIsValid, IsValid, order_event-IsValid}
use mytradingsystem.Base.{
  DateTime, String, any, pos, arith, aware, has_key, is_blank, lookup, ◌∷◌, ◌≡◌, [], contains,
  insert, none, ok, some, ℕ, err, true, ℤ, ◌↔◌, ◌+ℤ◌, inl, ◌⊎◌, refl, List, ◌≢◌,
}
use mytradingsystem.Execution.Repository.Sessions.{Config, creates, loads, updates}
use mytradingsystem.Execution.Reconciliation.{BrokerOrderSnapshot, reconcile_orders}

abbrev start : DateTime
start = aware 100

abbrev order : OrderState
order = record {
  order_id = 7;
  quantity = pos 10;
  status = created;
  filled_quantity = pos 0;
  broker_order_id = none;
  last_event_at = 100;
  processed_event_ids = [];
  version = 0;
  reconciliation_reason = none;
}

initial_order : initial_order_state 7 (pos 10) start ≡ ok order
unfolding initial_order_state
initial_order = refl

abbrev event : String → EventType → ℕ → ℤ → OrderEvent
event i k t q = record {
  event_id = i;
  event_type = k;
  occurred_at = t;
  fill_quantity = q;
  broker_order_id = none;
}

abbrev requested : OrderEvent
requested = event "r" risk_requested 101 (pos 0)

abbrev approval : OrderEvent
approval = event "a" risk_approved 102 (pos 0)

abbrev pending_order : OrderState
pending_order = accept order requested risk_pending (pos 0)

abbrev approved_order : OrderState
approved_order = accept pending_order approval approved (pos 0)

abbrev submitted_order : OrderState
submitted_order = record order { status = submitted; broker_order_id = some "B1" }

abbrev first_fill : OrderEvent
first_fill = event "f1" fill 105 (pos 4)

abbrev filled_order : OrderState
filled_order = accept submitted_order first_fill partially_filled (pos 4)

submitted-IsValid : IsValid submitted_order
submitted-IsValid = ground arith

first_fill-IsValid : EventIsValid first_fill
first_fill-IsValid = ground arith

applied_fill : apply_order_event submitted_order first_fill ≡ ok filled_order
unfolding apply_order_event is_duplicate contains apply_fill ◌+ℤ◌
applied_fill = refl

applied_request : apply_order_event order requested ≡ ok pending_order
unfolding apply_order_event is_duplicate contains
applied_request = refl

applied_approval : apply_order_event pending_order approval ≡ ok approved_order
unfolding apply_order_event is_duplicate contains
applied_approval = refl

order_event-IsValid_example : EventIsValid first_fill
unfolding order_event is_blank
order_event-IsValid_example = order_event-IsValid "f1" fill (aware 105) (pos 4) none refl

abbrev cancelled_order : OrderState
cancelled_order = record order { status = cancelled; filled_quantity = pos 4 }

abbrev late_event : OrderEvent
late_event = event "x" broker_rejected 50 (pos 0)

apply-final_example :
    let t = requires_reconciliation cancelled_order late_event out_of_order_event in
    (t ≡ cancelled_order) ⊎ (t.status ≡ reconciliation_required) × (t.filled_quantity ≡ pos 4)
unfolding apply_order_event is_duplicate contains
apply-final_example = apply-final cancelled_order late_event refl refl

reached : Reach 7 (pos 10) start (approval ∷ requested ∷ []) approved_order
reached =
    next (next (begin initial_order) (ground arith) applied_request) (ground arith) applied_approval

Reach-approved_example : any is_approval (approval ∷ requested ∷ []) ≡ true
Reach-approved_example = Reach-approved 7 (pos 10) start reached (inl refl)

abbrev submission : OrderEvent
submission = event "s" submit_started 103 (pos 0)

abbrev submitting_order : OrderState
submitting_order = accept approved_order submission submitting (pos 0)

applied_submission : apply_order_event approved_order submission ≡ ok submitting_order
unfolding apply_order_event is_duplicate contains
applied_submission = refl

-- A fill before the submission is confirmed raises.
early_fill :
    apply_order_event submitting_order (event "f0" fill 103 (pos 1)) ≡ err (invalid_fill submitting)
unfolding apply_order_event is_duplicate contains apply_fill
early_fill = refl

abbrev confirmed : OrderEvent
confirmed = event "k" submit_confirmed 104 (pos 0)

abbrev live_order : OrderState
live_order = accept submitting_order confirmed submitted (pos 0)

applied_confirmed : apply_order_event submitting_order confirmed ≡ ok live_order
unfolding apply_order_event is_duplicate contains
applied_confirmed = refl

abbrev part_order : OrderState
part_order = accept live_order first_fill partially_filled (pos 4)

applied_part : apply_order_event live_order first_fill ≡ ok part_order
unfolding apply_order_event is_duplicate contains apply_fill ◌+ℤ◌
applied_part = refl

part_repeated : apply_order_event part_order first_fill ≡ ok part_order
unfolding apply_order_event is_duplicate contains
part_repeated = refl

abbrev last_fill : OrderEvent
last_fill = event "f2" fill 106 (pos 6)

abbrev full_order : OrderState
full_order = accept part_order last_fill filled (pos 10)

applied_last : apply_order_event part_order last_fill ≡ ok full_order
unfolding apply_order_event is_duplicate contains apply_fill ◌+ℤ◌
applied_last = refl

abbrev life : List OrderEvent
life = last_fill ∷ first_fill ∷ first_fill ∷ confirmed ∷ submission ∷ approval ∷ requested ∷ []

lived : Reach 7 (pos 10) start life full_order
lived =
    let sent = next reached (ground arith) applied_submission in
    let open_now =
      next (raised (event "f0" fill 103 (pos 1)) (invalid_fill submitting) sent early_fill)
        (ground arith) applied_confirmed in
    let part = next open_now (ground arith) applied_part in
    next (next part (ground arith) part_repeated) (ground arith) applied_last

Reach-filled_example : pos 10 ≡ reported_once life
Reach-filled_example = Reach-filled 7 (pos 10) start lived (λ e. cc)

abbrev cancelling_order : OrderState
cancelling_order = record submitted_order { status = cancel_pending }

abbrev raced_order : OrderState
raced_order = accept cancelling_order first_fill partially_filled (pos 4)

abbrev confirmation : OrderEvent
confirmation = event "c" cancel_confirmed 106 (pos 0)

cancel_pending-fill_refuses_confirmation_example :
    (raced_order.status ≡ partially_filled)
    × (apply_order_event raced_order confirmation
        ≡ err (invalid_event cancel_confirmed partially_filled))
unfolding apply_order_event is_duplicate contains apply_fill ◌+ℤ◌
cancel_pending-fill_refuses_confirmation_example =
    cancel_pending-fill_refuses_confirmation cancelling_order first_fill confirmation refl
      (record { fresh = refl; in_order = omega arith; same_order = refl }) refl (omega arith) refl
      (record { fresh = refl; in_order = omega arith; same_order = refl }) refl

abbrev snapshot : BrokerOrderSnapshot
snapshot = record {
  broker_order_id = "B1";
  status = submitted;
  quantity = pos 10;
  filled_quantity = pos 0;
}

reconcile_safe_iff_example :
    ((reconcile_orders (submitted_order ∷ order ∷ []) (snapshot ∷ [])).safe_to_trade ≡ true)
    ↔ Agrees (submitted_order ∷ order ∷ []) (snapshot ∷ [])
reconcile_safe_iff_example = reconcile_safe_iff (submitted_order ∷ order ∷ []) (snapshot ∷ [])

reconciled :
    reconcile_orders (submitted_order ∷ order ∷ []) (snapshot ∷ [])
    ≡ record { safe_to_trade = true; matched_orders = 1; issues = [] }
unfolding reconcile_orders has_key OrderStatus-discrete
reconciled = refl

abbrev tables : Tables
tables = record { orders = (7, row_of order) ∷ []; event_rows = [] }

abbrev tables_after : Tables
tables_after = record {
  orders = (7, row_of pending_order) ∷ [];
  event_rows = record { order_id = 7; event = requested; resulting_version = 1 } ∷ [];
}

stored_request : apply_loaded 7 requested order tables ≡ (ok pending_order, tables_after)
unfolding apply_loaded apply_order_event is_duplicate contains store_update update_where lookup
    insert
stored_request = refl

loaded_order : load 7 tables ≡ ok order
unfolding load lookup event_ids
loaded_order = refl

apply_loaded-lost_update_example :
    apply_loaded 7 (event "other" risk_requested 103 (pos 0)) order tables_after
    ≡ (err concurrent_update, tables_after)
unfolding apply_order_event is_duplicate contains
apply_loaded-lost_update_example =
    apply_loaded-lost_update 7 requested (event "other" risk_requested 103 (pos 0)) order tables
      refl refl stored_request refl

load-apply_each_example :
    (load 7 tables_after ≡ ok pending_order)
    × ((j : ℕ) → j ≢ 7 → load j tables_after ≡ load j tables)
unfolding apply load lookup event_ids apply_loaded apply_order_event is_duplicate contains
    store_update update_where insert
load-apply_each_example = load-apply_each 7 requested tables refl

apply_error_unchanged_example : (apply 9 requested tables).1 ≡ tables
unfolding apply load lookup
apply_error_unchanged_example = apply_error_unchanged 9 requested tables {x = no_such_order} refl

abbrev running : Config
running = record { tables = tables_after; loaded = (7, order) ∷ [] }

runs : Runs running
unfolding create initial_order_state has_key lookup insert
runs =
    then_do (then_do (then_do start_empty (creates 7 (pos 10) start refl)) (loads 7 loaded_order))
      (updates 7 order requested (Memᴰ.head refl) stored_request)

Runs-replay_example :
    (at : DateTime) × (first : OrderState) × (initial_order_state 7 (pos 10) at ≡ ok first)
    × (replay first (events 7 tables_after) ≡ ok pending_order)
unfolding load lookup event_ids
Runs-replay_example = Runs-replay running 7 runs refl
