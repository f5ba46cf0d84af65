-- ===== src/Risk/Authority.antt =====
-- packages/risk_engine/persistence.py: `PersistentRiskAuthority`, one stored decision for each intent.
-- The fingerprint of a request is a parameter, and so is the fresh identifier of a decision. A row is
-- what the session holds, with the values that were written; `reread` is the table as it is read back
-- from its columns, of which the approved quantity, a quotient, is assumed to fit only where a
-- theorem says so.
pub mod Decides
pub mod Lasting
pub mod Tests
use mytradingsystem.Domain.{OrderIntent}
use mytradingsystem.Risk.Limits.{PortfolioRiskContext, RiskLimits}
use mytradingsystem.Risk.Engine.{Request, RiskDecision, IssuedDecision, evaluate_order_risk}
use mytradingsystem.Risk.Configuration.{
  AuthorityError, conflicting_inputs, LimitRecord, ControlTables, Configuration, load_configuration,
}
use mytradingsystem.Base.{
  Arithmetic, Bool, ℕ, ℤ, List, Option, none, some, String, str_eq, Dict, lookup, insert, nat_keys,
  Result, ok, err, ◌>>=◌, not, ◌||◌, if◌then◌else◌, [], ◌∷◌,
}

-- `RiskDecisionRecord`, under the intent's identifier, which is unique.
pub record DecisionRecord : Type 0 where
  pub issued : IssuedDecision
  pub record_account_id : ℕ
  pub record_instrument_id : ℕ
  pub request_fingerprint : String

pub record Tables : Type 0 where
  pub decisions : Dict ℕ DecisionRecord
  pub controls : ControlTables

pub record Hashes : Type 0 where
  pub fingerprint : Request → String
  pub version : List LimitRecord → String

-- A row read back, where `column` is what `Numeric(28, 8)` keeps of a value.
abbrev pub reread_record : (ℤ → ℤ) → DecisionRecord → DecisionRecord
reread_record column x =
    let d = x.issued.decision in
    record x {
      issued = record {
        decision_id = x.issued.decision_id;
        decision = record d { approved_quantity = column d.approved_quantity };
      };
    }

abbrev pub reread_all : (ℤ → ℤ) → Dict ℕ DecisionRecord → Dict ℕ DecisionRecord
reread_all column [] = []
reread_all column ((k, x) ∷ ds) = (k, reread_record column x) ∷ reread_all column ds

abbrev pub reread : (ℤ → ℤ) → Tables → Tables
reread column db = record db { decisions = reread_all column db.decisions }

abbrev pub new_record : Arithmetic → Hashes → Request → ℕ → DecisionRecord
new_record a h r fresh = record {
  issued = record { decision_id = fresh; decision = evaluate_order_risk a r };
  record_account_id = r.intent.account_id;
  record_instrument_id = r.intent.instrument_id;
  request_fingerprint = h.fingerprint r;
}

-- `evaluate`
unfoldable pub authority_evaluate :
    Arithmetic → Hashes → Request → ℕ → Tables → Result AuthorityError IssuedDecision × Tables
authority_evaluate a h r fresh db = elim (lookup r.intent.intent_id db.decisions) [
  | some old ↦
      if not (str_eq old.request_fingerprint (h.fingerprint r))
      then (err conflicting_inputs, db)
      else (ok old.issued, db)
  | none ↦
      let new = new_record a h r fresh in
      (ok new.issued, record db { decisions = insert r.intent.intent_id new db.decisions })
]

abbrev pub effective_context : PortfolioRiskContext → Configuration → PortfolioRiskContext
effective_context c k = record c {
  kill_switch_enabled = c.kill_switch_enabled || k.kill_switch_enabled;
}

abbrev pub effective_request :
    OrderIntent → PortfolioRiskContext → ℤ → Option ℤ → Configuration → Request
effective_request intent c price stop k = record {
  intent = intent;
  context = effective_context c k;
  limits = k.limits;
  reference_price = price;
  stop_price = stop;
}

-- `evaluate_with_persisted_configuration`
unfoldable pub evaluate_with_configuration :
    Arithmetic
    → Hashes
    → OrderIntent
    → PortfolioRiskContext
    → ℤ
    → Option ℤ
    → ℕ
    → Tables
    → Result AuthorityError IssuedDecision × Tables
evaluate_with_configuration a h intent c price stop fresh db =
    elim (load_configuration a h.version intent.account_id c.evaluated_at db.controls) [
      | err x ↦ (err x, db)
      | ok k ↦ authority_evaluate a h (effective_request intent c price stop k) fresh db
    ]
