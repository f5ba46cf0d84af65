-- ===== src/Risk/Engine/Decisions.antt =====
-- Every decision of the evaluation: its quantity agrees with its outcome.
use mytradingsystem.Base.{Arithmetic, ℤ, pos, ◌≡◌, ◌<ℤ◌, arith, inl, inr, Option-cases, abs, ◌-ℤ◌}
use mytradingsystem.Domain.{RiskOutcome, approve, resize, reject}
use mytradingsystem.Risk.Engine.{
  Request, RiskDecision, evaluate_exit, evaluate_entry, evaluate_order_risk, size_entry,
}

-- What an outcome says of a quantity, for an intent of quantity `asked`.
abbrev pub Agrees : ℤ → RiskOutcome → ℤ → Type 0
Agrees asked approve n = n ≡ asked
Agrees asked resize n = (pos 0 <ℤ n) × (n <ℤ asked)
Agrees asked reject n = n ≡ pos 0

abbrev pub DecisionAgrees : Request → RiskDecision → Type 0
DecisionAgrees r d = Agrees r.intent.quantity d.outcome d.approved_quantity

exit-Agrees : (r : Request) → pos 0 <ℤ r.intent.quantity → DecisionAgrees r (evaluate_exit r)
unfolding evaluate_exit
exit-Agrees r h = ground arith

size-Agrees :
    (a : Arithmetic) (r : Request) (d : ℤ)
    → pos 0 <ℤ r.intent.quantity
    → DecisionAgrees r (size_entry a r d)
unfolding size_entry
size-Agrees a r d h = ground arith

entry-Agrees :
    (a : Arithmetic) (r : Request)
    → pos 0 <ℤ r.intent.quantity
    → DecisionAgrees r (evaluate_entry a r)
unfolding evaluate_entry
entry-Agrees a r h = elim (Option-cases r.stop_price) [
  | inl q ↦ ground (arith, q)
  | inr (stop, q) ↦ ground (arith, q, size-Agrees a r (abs (r.reference_price -ℤ stop)) h)
]

-- For an intent of positive quantity an approval is for all of it, a resize for a positive part that
-- is smaller, and a rejection for nothing.
pub evaluate-Agrees :
    (a : Arithmetic) (r : Request)
    → pos 0 <ℤ r.intent.quantity
    → DecisionAgrees r (evaluate_order_risk a r)
unfolding evaluate_order_risk
evaluate-Agrees a r h = ground (arith, exit-Agrees r h, entry-Agrees a r h)
