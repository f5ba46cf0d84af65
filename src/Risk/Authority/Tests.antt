-- ===== src/Risk/Authority/Tests.antt =====
-- A stored configuration with an old and a new limit, and the theorems at it.
use mytradingsystem.Risk.Authority.Decides.{kill_stops_entries}
use mytradingsystem.Risk.Authority.Lasting.{authority_evaluate_once, none_since, evaluates, rereads}
use mytradingsystem.Domain.{reject}
use mytradingsystem.Risk.Limits.{RiskLimits, check_limits}
use mytradingsystem.Risk.Configuration.Latest.{Newest}
use mytradingsystem.Risk.Configuration.Loaded.{load-Newest}
use mytradingsystem.Risk.Engine.{
  IssuedDecision, Request, refuse, evaluate_order_risk, kill_switch, evaluate_entry, locks,
  size_entry, exceeded,
}
use mytradingsystem.Risk.Authority.{
  Hashes, Tables, authority_evaluate, evaluate_with_configuration, new_record, reread,
}
use mytradingsystem.Risk.Tests.{context, entry, killed, limits}
use mytradingsystem.Risk.Configuration.{
  risk_per_trade, daily_loss, open_positions, instrument_exposure, quote_age, spread, weekly_loss,
  drawdown, gross_exposure, net_exposure, orders_per_minute, consecutive_losses, sector_exposure,
  strategy_allocation, slippage, options_exposure, portfolio_delta, portfolio_gamma, ControlTables,
  LimitRecord, LimitType, effective_records, latest, Configuration, LimitType-discrete,
  load_configuration, value_of, configuration, limits_from, manual, set_kill_switch,
  conflicting_inputs,
}
use mytradingsystem.Base.{
  ℕ, ℤ, List, aware, hundredths, [], if◌then◌else◌, none, pos, some, true, ◌∷◌, ◌≡◌, refl, lookup,
  err, insert, is_blank, ok, ◌+ℤ◌, ◌-ℤ◌,
}

abbrev limit_record : ℕ → LimitType → ℤ → ℕ → LimitRecord
limit_record i t v from = record {
  record_id = i;
  account_id = 1;
  limit_type = t;
  value = v;
  enabled = true;
  effective_from = from;
}

-- The second record of the daily loss is newer than the first.
abbrev records : List LimitRecord
records =
    limit_record 1 daily_loss (pos 2) 100
    ∷ limit_record 2 risk_per_trade (pos 1) 0
    ∷ limit_record 3 daily_loss (pos 3) 0
    ∷ limit_record 4 open_positions (pos 500) 0
    ∷ limit_record 5 instrument_exposure (pos 50) 0
    ∷ limit_record 6 quote_age (pos 500) 0
    ∷ limit_record 7 spread (pos 10000) 0
    ∷ limit_record 8 weekly_loss (pos 100) 0
    ∷ limit_record 9 drawdown (pos 100) 0
    ∷ limit_record 10 gross_exposure (pos 100) 0
    ∷ limit_record 11 net_exposure (pos 100) 0
    ∷ limit_record 12 orders_per_minute (pos 1000) 0
    ∷ limit_record 13 consecutive_losses (pos 400) 0
    ∷ limit_record 14 sector_exposure (pos 100) 0
    ∷ limit_record 15 strategy_allocation (pos 100) 0
    ∷ limit_record 16 slippage (pos 10000) 0
    ∷ limit_record 17 options_exposure (pos 100000) 0
    ∷ limit_record 18 portfolio_delta (pos 100000) 0
    ∷ limit_record 19 portfolio_gamma (pos 100000) 0
    ∷ []

abbrev controls : ControlTables
controls = record { limit_records = records; safety = none; audits = [] }

abbrev tables : Tables
tables = record { decisions = []; controls = controls }

-- A digest that tells apart what the tests compare.
abbrev hashes : Hashes
hashes = record {
  fingerprint = λ r. if r.context.kill_switch_enabled then "killed" else "open";
  version = λ rs. "persisted";
}

daily_loss_taken : value_of daily_loss (effective_records 1 2000000 records) ≡ pos 2
unfolding effective_records latest LimitType-discrete
daily_loss_taken = refl

daily_loss_before : value_of daily_loss (effective_records 1 99 records) ≡ pos 3
unfolding effective_records latest LimitType-discrete
daily_loss_before = refl

abbrev configured_limits : RiskLimits
configured_limits = record limits {
  policy_version = "persisted";
  maximum_daily_loss_fraction = pos 2;
}

abbrev loaded : Configuration
loaded = configuration configured_limits none

controls_load : load_configuration hundredths hashes.version 1 (aware 2000000) controls ≡ ok loaded
unfolding load_configuration effective_records latest limits_from check_limits is_blank
    LimitType-discrete
controls_load = refl

load-Newest_example : (r : LimitRecord) × Newest 1 2000000 daily_loss records r × (pos 2 ≡ r.value)
load-Newest_example =
    load-Newest hundredths hashes.version 1 (aware 2000000) controls controls_load daily_loss

abbrev decided : Tables
decided = record tables { decisions = (3, new_record hundredths hashes entry 70) ∷ [] }

entry-decided :
    authority_evaluate hundredths hashes entry 70 tables
    ≡ (ok (new_record hundredths hashes entry 70).issued, decided)
unfolding authority_evaluate lookup insert
entry-decided = refl

abbrev whole_column : ℤ → ℤ
whole_column x = hundredths.whole (hundredths.truncate x)

quantity_kept :
    let n = (evaluate_order_risk hundredths entry).approved_quantity in whole_column n ≡ n
unfolding evaluate_order_risk evaluate_entry locks ◌+ℤ◌ ◌-ℤ◌ size_entry exceeded
quantity_kept = refl

-- Another intent is evaluated, and the rows are read back in whole hundredths.
abbrev other_entry : Request
other_entry = record entry { intent = record entry.intent { intent_id = 4 } }

abbrev afterwards : Tables
afterwards = reread whole_column (authority_evaluate hundredths hashes other_entry 72 decided).1

authority_evaluate_once_example :
    authority_evaluate hundredths hashes killed 71 afterwards ≡ (err conflicting_inputs, afterwards)
authority_evaluate_once_example =
    authority_evaluate_once hundredths hashes whole_column entry killed 70 71 tables entry-decided
      quantity_kept (rereads (evaluates other_entry 72 none_since)) refl

abbrev killed_controls : ControlTables
killed_controls = record controls {
  safety =
      some (record {
        enabled = true;
        reason = manual "drill";
        updated_at = 5;
        correlation_id = "c-1";
      });
  audits =
      record {
        occurred_at = 5;
        actor_id = "ops";
        outcome = true;
        audit_reason = manual "drill";
        audit_correlation_id = "c-1";
      }
      ∷ [];
}

switch_set :
    set_kill_switch true (manual "drill") "c-1" "ops" (aware 5) controls ≡ (ok tt, killed_controls)
unfolding set_kill_switch is_blank
switch_set = refl

abbrev killed_entry : Request
killed_entry = record killed { limits = configured_limits }

abbrev refused : IssuedDecision
refused = record { decision_id = 70; decision = refuse killed_entry (kill_switch ∷ []) }

entry_refused :
    evaluate_with_configuration hundredths hashes entry.intent context
      (pos 10000)
      (some (pos 9900))
      70
      (record { decisions = []; controls = killed_controls })
    ≡ (
      ok refused,
      record {
        decisions = (3, new_record hundredths hashes killed_entry 70) ∷ [];
        controls = killed_controls;
      },
    )
unfolding evaluate_with_configuration authority_evaluate load_configuration effective_records latest
    limits_from check_limits is_blank LimitType-discrete lookup insert evaluate_order_risk
    evaluate_entry locks ◌+ℤ◌ ◌-ℤ◌
entry_refused = refl

kill_stops_entries_example : refused.decision.outcome ≡ reject
unfolding lookup
kill_stops_entries_example =
    kill_stops_entries hundredths hashes entry.intent context (pos 10000) (some (pos 9900)) 70
      tables (manual "drill") "c-1" "ops" (aware 5) switch_set refl refl entry_refused
