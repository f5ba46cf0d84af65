-- ===== src/Risk/Authority/Decides.antt =====
-- What an evaluation stores, and the stored kill switch in front of it.
use mytradingsystem.Base.{
  Arithmetic, ℕ, ℤ, List, Option, none, some, String, eq_iff, DateTime, lookup, nat_keys,
  lookup-insert_self, Result, ok, err, true, false, ◌≡◌, ◌≢◌, inl, inr, Option-cases, Result-cases,
  arith, refl, ap, sym, ◌∙◌, is_naive, raise_if-ok, ◌>>=◌, ok_injective,
}
use mytradingsystem.Domain.{OrderIntent, RiskOutcome, approve, resize, reject}
use mytradingsystem.Risk.Limits.{PortfolioRiskContext, RiskLimits}
use mytradingsystem.Risk.Engine.{Request, IssuedDecision, evaluate_order_risk}
use mytradingsystem.Risk.Engine.Entries.{evaluate-Allowed}
use mytradingsystem.Risk.Configuration.{
  AuthorityError, LimitRecord, ControlTables, Configuration, KillReason, Safety, load_configuration,
  set_kill_switch, switched_on, configuration, naive_as_of,
}
use mytradingsystem.Risk.Authority.{
  DecisionRecord, Tables, Hashes, new_record, authority_evaluate, effective_request,
  evaluate_with_configuration,
}

-- What a call that returned has left under the intent.
pub stored_decision :
    (a : Arithmetic) (h : Hashes) (r : Request) (fresh : ℕ) (db : Tables) {d : IssuedDecision}
    {db' : Tables}
    → authority_evaluate a h r fresh db ≡ (ok d, db')
    → (old : DecisionRecord) × (lookup r.intent.intent_id db'.decisions ≡ some old)
      × (old.issued ≡ d)
      × (old.request_fingerprint ≡ h.fingerprint r)
unfolding authority_evaluate
stored_decision a h r fresh db {d} {db'} e =
    elim (Option-cases (lookup r.intent.intent_id db.decisions)) [
      | inr (old, q) ↦ (
        old,
        ground arith,
        ground arith,
        ground (arith, eq_iff old.request_fingerprint (h.fingerprint r)),
      )
      | inl q ↦
          let new = new_record a h r fresh in
          (
            new,
            ground (arith, lookup-insert_self r.intent.intent_id new db.decisions),
            ground arith,
            refl,
          )
    ]

configured :
    (m : Result AuthorityError RiskLimits) (s : Option Safety) {k : Configuration}
    → (m >>= λ l. ok (configuration l s)) ≡ ok k
    → k.kill_switch_enabled ≡ switched_on s
configured (ok l) s h = ap (λ k. k.kill_switch_enabled) (sym (ok_injective h))
configured (err e) s h = absurd (ground arith)

-- A load that returned has the stored state of the kill switch.
loaded_switch :
    (a : Arithmetic) (version : List LimitRecord → String) (account : ℕ) (at : DateTime)
    (db : ControlTables) {k : Configuration}
    → load_configuration a version account at db ≡ ok k
    → k.kill_switch_enabled ≡ switched_on db.safety
unfolding load_configuration
loaded_switch a version account at db h =
    let (_, aware) = raise_if-ok (is_naive at) naive_as_of _ h in
    let (_, complete) = raise_if-ok _ _ _ aware in configured _ db.safety complete

set_switch :
    (reason : KillReason) (correlation actor : String) (at : DateTime) (db : ControlTables)
    {db' : ControlTables}
    → set_kill_switch true reason correlation actor at db ≡ (ok tt, db')
    → switched_on db'.safety ≡ true
unfolding set_kill_switch
set_switch reason correlation actor at db h = ground arith

-- An intent with no decision yet gets the one of the risk evaluation.
first_decision :
    (a : Arithmetic) (h : Hashes) (r : Request) (fresh : ℕ) (db : Tables) {d : IssuedDecision}
    {db' : Tables}
    → lookup r.intent.intent_id db.decisions ≡ none
    → authority_evaluate a h r fresh db ≡ (ok d, db')
    → d.decision ≡ evaluate_order_risk a r
unfolding authority_evaluate
first_decision a h r fresh db unseen e = ground (arith, unseen)

not_open : (o : RiskOutcome) → ¬ (o ≢ reject) → o ≡ reject
not_open approve h = absurd (h (λ e. ground arith))
not_open resize h = absurd (h (λ e. ground arith))
not_open reject h = refl

killed_entry :
    (a : Arithmetic) (r : Request)
    → r.intent.is_exit ≡ false
    → r.context.kill_switch_enabled ≡ true
    → (evaluate_order_risk a r).outcome ≡ reject
killed_entry a r entry killed = not_open _ (λ passed.
    let (_, allowed) = evaluate-Allowed a r entry passed in
    ground (arith, allowed.unlocked.no_kill_switch))

configured_evaluation :
    (a : Arithmetic) (h : Hashes) (intent : OrderIntent) (c : PortfolioRiskContext) (price : ℤ)
    (stop : Option ℤ) (fresh : ℕ) (db : Tables) {d : IssuedDecision} {db' : Tables}
    → evaluate_with_configuration a h intent c price stop fresh db ≡ (ok d, db')
    → (k : Configuration) × (load_configuration a h.version intent.account_id c.evaluated_at
          db.controls
        ≡ ok k)
      × (authority_evaluate a h (effective_request intent c price stop k) fresh db ≡ (ok d, db'))
unfolding evaluate_with_configuration
configured_evaluation a h intent c price stop fresh db e =
    elim (Result-cases
      (load_configuration a h.version intent.account_id c.evaluated_at db.controls)) [
        | inl (k, q) ↦ (k, q, ground (arith, q))
        | inr (x, q) ↦ absurd (ground (arith, q))
      ]

-- Once the kill switch has been set, an entry that has no decision yet is refused, whatever its
-- context says of the switch.
pub kill_stops_entries :
    (a : Arithmetic) (h : Hashes) (intent : OrderIntent) (c : PortfolioRiskContext) (price : ℤ)
    (stop : Option ℤ) (fresh : ℕ) (db : Tables) (reason : KillReason) (correlation actor : String)
    (at : DateTime) {controls' : ControlTables} {d : IssuedDecision} {db' : Tables}
    → set_kill_switch true reason correlation actor at db.controls ≡ (ok tt, controls')
    → intent.is_exit ≡ false
    → lookup intent.intent_id db.decisions ≡ none
    → evaluate_with_configuration a h intent c price stop fresh (record db { controls = controls' })
      ≡ (ok d, db')
    → d.decision.outcome ≡ reject
kill_stops_entries a h intent c price stop fresh db reason correlation actor at {controls'} set
      entry unseen e =
    let db0 : Tables = record db { controls = controls' } in
    let (k, loaded, evaluated) = configured_evaluation a h intent c price stop fresh db0 e in
    let on =
      loaded_switch a h.version intent.account_id c.evaluated_at controls' loaded
      ∙ set_switch reason correlation actor at db.controls set in
    let r = effective_request intent c price stop k in
    ap (λ x. x.outcome) (first_decision a h r fresh db0 unseen evaluated)
    ∙ killed_entry a r entry (ground (arith, on))
