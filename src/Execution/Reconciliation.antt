-- ===== src/Execution/Reconciliation.antt =====
-- packages/execution/reconciliation.py: local orders against the broker's. The text of an issue's
-- details is kept as the values that it is made of.
pub mod Agreement
pub mod Clean
pub mod Complete
use mytradingsystem.Base.{
  ℕ, ◌+◌, Bool, true, false, not, ◌&&◌, ◌||◌, String, Option, none, some, List, [], ◌∷◌, ◌++◌, ℤ,
  pos, ltb_ℤ, leb_ℤ, ◌==ℤ◌, if◌then◌else◌, Result, ok, err, ◌>>=◌, ◌>>◌, raise_if, is_blank,
  is_empty, Dict, lookup, has_key, text_keys,
}
use mytradingsystem.Domain.{
  OrderStatus, created, risk_pending, risk_rejected, approved, same_status,
}
use mytradingsystem.Execution.StateMachine.{OrderState}

pub data IssueType : Type 0 where
  unknown_broker_order missing_broker_order duplicate_broker_order : IssueType
  filled_quantity_mismatch status_mismatch : IssueType

pub data SnapshotError : Type 0 where
  empty_broker_order_id invalid_quantities : SnapshotError

pub record BrokerOrderSnapshot : Type 0 where
  pub broker_order_id : String
  pub status : OrderStatus
  pub quantity : ℤ
  pub filled_quantity : ℤ

-- `BrokerOrderSnapshot(...)` with its `__post_init__`.
unfoldable pub broker_order_snapshot :
    String → OrderStatus → ℤ → ℤ → Result SnapshotError BrokerOrderSnapshot
broker_order_snapshot i status quantity total = do
  raise_if (is_blank i) empty_broker_order_id
  raise_if (leb_ℤ quantity (pos 0) || ltb_ℤ total (pos 0) || ltb_ℤ quantity total)
      invalid_quantities
  ok (record { broker_order_id = i; status = status; quantity = quantity; filled_quantity = total })

pub data Details : Type 0 where
  local_without_id : ℕ → OrderStatus → Details
  several_local_orders : Details
  broker_repeats_identity : Details
  local_status broker_status : OrderStatus → Details
  local_and_broker_fills : ℤ → ℤ → ℤ → ℤ → Details
  local_and_broker_status : OrderStatus → OrderStatus → Details

pub record Issue : Type 0 where
  pub issue_type : IssueType
  pub broker_order_id : String
  pub details : Details

pub record ReconciliationResult : Type 0 where
  pub safe_to_trade : Bool
  pub matched_orders : ℕ
  pub issues : List Issue

-- `status in _PRE_BROKER_STATES`
abbrev pub is_pre_broker : OrderStatus → Bool
is_pre_broker created = true
is_pre_broker risk_pending = true
is_pre_broker risk_rejected = true
is_pre_broker approved = true
is_pre_broker _ = false

abbrev pub issue : IssueType → String → Details → Issue
issue t i d = record { issue_type = t; broker_order_id = i; details = d }

abbrev pub unassigned_issues : OrderState → List Issue
unassigned_issues o =
    if not (is_pre_broker o.status)
    then issue missing_broker_order "<unassigned>" (local_without_id o.order_id o.status) ∷ []
    else []

-- The body of the loop over the local orders, on the dict and the issues so far.
abbrev pub Locals : Type 0
Locals = Dict String OrderState × List Issue

unfoldable pub add_local : OrderState → Locals → Locals
add_local o (d, issues) = elim o.broker_order_id [
  | none ↦ (d, issues ++ unassigned_issues o)
  | some k ↦
      if has_key k d
      then (d, issues ++ issue duplicate_broker_order k several_local_orders ∷ [])
      else (d ++ (k, o) ∷ [], issues)
]

unfoldable pub scan_locals : List OrderState → Locals → Locals
scan_locals [] acc = acc
scan_locals (o ∷ os) acc = scan_locals os (add_local o acc)

abbrev pub Brokers : Type 0
Brokers = Dict String BrokerOrderSnapshot × List Issue

unfoldable pub add_broker : BrokerOrderSnapshot → Brokers → Brokers
add_broker b (d, issues) =
    if has_key b.broker_order_id d
    then (d, issues ++ issue duplicate_broker_order b.broker_order_id broker_repeats_identity ∷ [])
    else (d ++ (b.broker_order_id, b) ∷ [], issues)

unfoldable pub scan_brokers : List BrokerOrderSnapshot → Brokers → Brokers
scan_brokers [] acc = acc
scan_brokers (b ∷ bs) acc = scan_brokers bs (add_broker b acc)

-- What the third loop appends for one local order and the broker's order of that identity.
abbrev pub fill_issues : String → OrderState → BrokerOrderSnapshot → List Issue
fill_issues k o b =
    if not (o.quantity ==ℤ b.quantity) || not (o.filled_quantity ==ℤ b.filled_quantity)
    then issue filled_quantity_mismatch k
        (local_and_broker_fills o.filled_quantity o.quantity b.filled_quantity b.quantity)
      ∷ []
    else []

abbrev pub status_issues : String → OrderState → BrokerOrderSnapshot → List Issue
status_issues k o b =
    if not (same_status o.status b.status)
    then issue status_mismatch k (local_and_broker_status o.status b.status) ∷ []
    else []

abbrev pub match_one :
    String → OrderState → Option BrokerOrderSnapshot → ℕ × List Issue → ℕ × List Issue
match_one k o none (n, issues) =
    (n, issues ++ issue missing_broker_order k (local_status o.status) ∷ [])
match_one k o (some b) (n, issues) = (n + 1, issues ++ fill_issues k o b ++ status_issues k o b)

unfoldable pub match_locals :
    Dict String BrokerOrderSnapshot → Dict String OrderState → ℕ × List Issue → ℕ × List Issue
match_locals brokers [] acc = acc
match_locals brokers ((k, o) ∷ d) acc =
    match_locals brokers d (match_one k o (lookup k brokers) acc)

unfoldable pub report_unknown :
    Dict String OrderState → Dict String BrokerOrderSnapshot → List Issue → List Issue
report_unknown locals [] issues = issues
report_unknown locals ((k, b) ∷ d) issues = report_unknown locals d (
    if has_key k locals
    then issues
    else issues ++ issue unknown_broker_order k (broker_status b.status) ∷ [])

unfoldable pub reconcile_orders : List OrderState → List BrokerOrderSnapshot → ReconciliationResult
unfolding scan_locals add_local scan_brokers add_broker match_locals report_unknown
reconcile_orders local_orders broker_orders =
    let (locals, local_issues) = scan_locals local_orders ([], []) in
    let (brokers, broker_issues) = scan_brokers broker_orders ([], local_issues) in
    let (matched, match_issues) = match_locals brokers locals (0, broker_issues) in
    let issues = report_unknown locals brokers match_issues in
    record { safe_to_trade = is_empty issues; matched_orders = matched; issues = issues }
