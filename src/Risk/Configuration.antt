-- ===== src/Risk/Configuration.antt =====
-- packages/risk_engine/persistence.py: `PersistentRiskConfigurationStore`, the stored limits and the
-- kill switch. The digest of a configuration's version is a parameter.
pub mod Ordering
pub mod Latest
pub mod Loaded
use mytradingsystem.Risk.Limits.{RiskLimits, RiskError, PortfolioRiskContext, check_limits}
use mytradingsystem.Risk.Engine.{
  ReasonCode, maximum_daily_loss, maximum_weekly_loss, maximum_drawdown,
  consecutive_loss_circuit_breaker, names_where, IssuedDecision,
}
use mytradingsystem.Base.{
  Arithmetic, Bool, ℕ, ℤ, pos, neg, List, [], ◌∷◌, Option, none, some, String, is_blank, leb, leb_ℤ,
  ◌==ℤ◌, ◌==◌, Dict, DateTime, is_naive, instant, Result, ok, err, ◌>>=◌, ◌>>◌, raise_if, or_raise,
  true, false, not, ◌&&◌, ◌||◌, if◌then◌else◌, is_empty,
}

pub data LimitType : Type 0 where
  risk_per_trade daily_loss open_positions instrument_exposure quote_age spread : LimitType
  weekly_loss drawdown gross_exposure net_exposure orders_per_minute consecutive_losses : LimitType
  sector_exposure strategy_allocation slippage options_exposure portfolio_delta : LimitType
  portfolio_gamma : LimitType

unfoldable pub LimitType-discrete : Discrete LimitType
LimitType-discrete = hlevel

abbrev pub same_type : LimitType → LimitType → Bool
same_type a b = elim (LimitType-discrete a b) [ yes h ↦ true | no h ↦ false ]

-- `RiskLimitRecord`
pub record LimitRecord : Type 0 where
  pub record_id : ℕ
  pub account_id : ℕ
  pub limit_type : LimitType
  pub value : ℤ
  pub enabled : Bool
  pub effective_from : ℕ

-- The reason of an automatic change is "automatic: " and the codes.
pub data KillReason : Type 0 where
  manual : String → KillReason
  automatic : List ReasonCode → KillReason

-- `AuditEventRecord` for a change of the kill switch.
pub record KillAudit : Type 0 where
  pub occurred_at : ℕ
  pub actor_id : String
  pub outcome : Bool
  pub audit_reason : KillReason
  pub audit_correlation_id : String

pub data AuthorityError : Type 0 where
  naive_as_of missing_reason naive_switch_time conflicting_inputs : AuthorityError
  missing_limits : List LimitType → AuthorityError
  not_a_whole_number : LimitType → AuthorityError
  bad_limits : RiskError → AuthorityError

-- `SafetyStateRecord` under the key of the kill switch.
pub record Safety : Type 0 where
  pub enabled : Bool
  pub reason : KillReason
  pub updated_at : ℕ
  pub correlation_id : String

pub record Configuration : Type 0 where
  pub limits : RiskLimits
  pub kill_switch_enabled : Bool
  pub kill_switch_reason : Option KillReason

abbrev pub is_effective : ℕ → ℕ → LimitRecord → Bool
is_effective account as_of r = r.account_id == account && r.enabled && leb r.effective_from as_of

abbrev pub insert_latest : LimitRecord → List LimitRecord → List LimitRecord
insert_latest r [] = r ∷ []
insert_latest r (x ∷ xs) =
    if leb x.effective_from r.effective_from then r ∷ x ∷ xs else x ∷ insert_latest r xs

-- `select(...).where(...).order_by(effective_from.desc())`
unfoldable pub effective_records : ℕ → ℕ → List LimitRecord → List LimitRecord
effective_records account as_of [] = []
effective_records account as_of (r ∷ rs) =
    let rest = effective_records account as_of rs in
    if is_effective account as_of r then insert_latest r rest else rest

-- `latest[limit_type]`: the first record of its type.
unfoldable pub latest : LimitType → List LimitRecord → Option LimitRecord
latest t [] = none
latest t (r ∷ rs) = if same_type r.limit_type t then some r else latest t rs

-- In the order of their values.
abbrev pub sorted_limit_types : List LimitType
sorted_limit_types =
    consecutive_losses ∷ daily_loss ∷ drawdown ∷ gross_exposure ∷ instrument_exposure ∷ net_exposure
    ∷ open_positions ∷ options_exposure ∷ orders_per_minute ∷ portfolio_delta ∷ portfolio_gamma
    ∷ quote_age ∷ risk_per_trade ∷ sector_exposure ∷ slippage ∷ spread ∷ strategy_allocation
    ∷ weekly_loss ∷ []

-- The types with no record, in their order.
abbrev pub missing_types : List LimitRecord → List LimitType → List LimitType
missing_types rs [] = []
missing_types rs (t ∷ ts) =
    let rest = missing_types rs ts in elim (latest t rs) [ some r ↦ rest | none ↦ t ∷ rest ]

abbrev pub value_of : LimitType → List LimitRecord → ℤ
value_of t rs = elim (latest t rs) [ some r ↦ r.value | none ↦ pos 0 ]

-- `_whole_number`
abbrev pub whole_number : Arithmetic → LimitType → List LimitRecord → Result AuthorityError ℤ
whole_number a t rs =
    let v = value_of t rs in
    if not (v ==ℤ a.whole (a.truncate v)) || leb_ℤ (a.truncate v) (pos 0)
    then err (not_a_whole_number t)
    else ok (a.truncate v)

abbrev pub lift_limits : Result RiskError RiskLimits → Result AuthorityError RiskLimits
lift_limits (ok l) = ok l
lift_limits (err e) = err (bad_limits e)

abbrev pub switched_on : Option Safety → Bool
switched_on none = false
switched_on (some s) = s.enabled

-- `none` is the text "not configured".
abbrev pub switch_reason : Option Safety → Option KillReason
switch_reason none = none
switch_reason (some s) = some s.reason

abbrev pub configuration : RiskLimits → Option Safety → Configuration
configuration limits safety = record {
  limits = limits;
  kill_switch_enabled = switched_on safety;
  kill_switch_reason = switch_reason safety;
}

-- `RiskLimits(...)` of the latest records and the four whole numbers.
abbrev pub from_records :
    (List LimitRecord → String) → List LimitRecord → ℤ → ℤ → ℤ → ℤ → RiskLimits
from_records version rs positions age orders losses = record {
  policy_version = version rs;
  maximum_risk_per_trade_fraction = value_of risk_per_trade rs;
  maximum_daily_loss_fraction = value_of daily_loss rs;
  maximum_open_positions = positions;
  maximum_instrument_exposure_fraction = value_of instrument_exposure rs;
  maximum_quote_age_seconds = age;
  maximum_spread_bps = value_of spread rs;
  maximum_weekly_loss_fraction = value_of weekly_loss rs;
  maximum_drawdown_fraction = value_of drawdown rs;
  maximum_gross_exposure_fraction = value_of gross_exposure rs;
  maximum_net_exposure_fraction = value_of net_exposure rs;
  maximum_orders_per_minute = orders;
  maximum_consecutive_losses = losses;
  maximum_sector_exposure_fraction = value_of sector_exposure rs;
  maximum_strategy_allocation_fraction = value_of strategy_allocation rs;
  maximum_slippage_bps = value_of slippage rs;
  maximum_options_exposure = value_of options_exposure rs;
  maximum_portfolio_delta = value_of portfolio_delta rs;
  maximum_portfolio_gamma = value_of portfolio_gamma rs;
}

unfoldable pub limits_from :
    Arithmetic → (List LimitRecord → String) → List LimitRecord → Result AuthorityError RiskLimits
limits_from a version rs = do
  positions ← whole_number a open_positions rs
  age ← whole_number a quote_age rs
  orders ← whole_number a orders_per_minute rs
  losses ← whole_number a consecutive_losses rs
  lift_limits (check_limits a (from_records version rs positions age orders losses))

-- The tables of the risk component but for the decisions.
pub record ControlTables : Type 0 where
  pub limit_records : List LimitRecord
  pub safety : Option Safety
  pub audits : List KillAudit

unfoldable pub load_configuration :
    Arithmetic
    → (List LimitRecord → String)
    → ℕ
    → DateTime
    → ControlTables
    → Result AuthorityError Configuration
load_configuration a version account as_of db = do
  raise_if (is_naive as_of) naive_as_of
  let rs = effective_records account (instant as_of) db.limit_records
  let missing = missing_types rs sorted_limit_types
  raise_if (not (is_empty missing)) (missing_limits missing)
  limits ← limits_from a version rs
  ok (configuration limits db.safety)

abbrev pub reason_is_blank : KillReason → Bool
reason_is_blank (manual text) = is_blank text
reason_is_blank (automatic codes) = false

unfoldable pub set_kill_switch :
    Bool
    → KillReason
    → String
    → String
    → DateTime
    → ControlTables
    → Result AuthorityError (Unit {0}) × ControlTables
set_kill_switch enabled reason correlation actor at db =
    if reason_is_blank reason || is_blank correlation || is_blank actor
    then (err missing_reason, db)
    else if is_naive at
    then (err naive_switch_time, db)
    else (
      ok tt,
      record db {
        safety = some (record {
          enabled = enabled;
          reason = reason;
          updated_at = instant at;
          correlation_id = correlation;
        });
        audits =
            record {
              occurred_at = instant at;
              actor_id = actor;
              outcome = enabled;
              audit_reason = reason;
              audit_correlation_id = correlation;
            }
            ∷ db.audits;
      },
    )

-- The losses that switch trading off.
abbrev pub loss_tests : Arithmetic → PortfolioRiskContext → RiskLimits → List (Bool × ReasonCode)
loss_tests a c l =
    (leb_ℤ c.daily_pnl (neg (a.mul c.equity l.maximum_daily_loss_fraction)), maximum_daily_loss)
    ∷ (
      leb_ℤ c.weekly_pnl (neg (a.mul c.equity l.maximum_weekly_loss_fraction)),
      maximum_weekly_loss,
    )
    ∷ (leb_ℤ l.maximum_drawdown_fraction c.drawdown_fraction, maximum_drawdown)
    ∷ (leb_ℤ l.maximum_consecutive_losses c.consecutive_losses, consecutive_loss_circuit_breaker)
    ∷ []

unfoldable pub activate_automatic_kill :
    Arithmetic
    → PortfolioRiskContext
    → RiskLimits
    → String
    → ControlTables
    → Result AuthorityError Bool × ControlTables
activate_automatic_kill a c l correlation db =
    let reasons = names_where (loss_tests a c l) in
    if is_empty reasons
    then (ok false, db)
    else let (r, db') =
        set_kill_switch true (automatic reasons) correlation "risk-engine" c.evaluated_at db in
      (r >>= λ _. ok true, db')
