-- ===== src/Risk/Authority/Lasting.antt =====
-- A decision lasts, whatever is evaluated after it.
use mytradingsystem.Risk.Authority.Decides.{stored_decision}
use mytradingsystem.Risk.Configuration.{ControlTables, conflicting_inputs}
use mytradingsystem.Risk.Engine.{IssuedDecision, Request}
use mytradingsystem.Base.{
  nat_keys, ◌==◌, [], ◌∷◌, ℕ, ℤ, Arithmetic, lookup, Dict, String, ◌≡◌, Option-cases, err, ok, some,
  if◌then◌else◌, inl, inr, subst, Bool-cases, str_eq, sym, ap, arith, not, ◌∙◌, ◌≢◌,
  lookup-insert_ne, insert,
}
use mytradingsystem.Risk.Authority.{
  DecisionRecord, Tables, authority_evaluate, Hashes, reread, reread_all, reread_record, new_record,
}

-- The tables after any further evaluations, of any intents, changes of the limits and of the kill
-- switch, and reads of the rows from their columns.
pub data Later (a : Arithmetic) (h : Hashes) (column : ℤ → ℤ) (db : Tables) : Tables → Type 0 where
  none_since : Later a h column db db
  evaluates :
      {now : Tables} (r : Request) (fresh : ℕ)
      → Later a h column db now
      → Later a h column db (authority_evaluate a h r fresh now).1
  changes :
      {now : Tables} (c : ControlTables)
      → Later a h column db now
      → Later a h column db (record now { controls = c })
  rereads : {now : Tables} → Later a h column db now → Later a h column db (reread column now)

-- The decision that is stored under an intent, and the fingerprint of its inputs.
record Holds (k : ℕ) (d : IssuedDecision) (print : String) (db : Tables) : Type 0 where
  row : DecisionRecord
  found : lookup k db.decisions ≡ some row
  issued : row.issued ≡ d
  printed : row.request_fingerprint ≡ print

evaluate-Holds :
    (a : Arithmetic) (h : Hashes) (r : Request) (fresh k : ℕ) (d : IssuedDecision) (print : String)
    (db : Tables)
    → Holds k d print db
    → Holds k d print (authority_evaluate a h r fresh db).1
unfolding authority_evaluate
evaluate-Holds a h r fresh k d print db x =
    elim (Option-cases (lookup r.intent.intent_id db.decisions)) [
      | inr (old, q) ↦ elim (Bool-cases (not (str_eq old.request_fingerprint (h.fingerprint r)))) [
        | inl other ↦ subst (Holds k d print) (ground (arith, q, other)) x
        | inr same ↦ subst (Holds k d print) (ground (arith, q, same)) x
      ]
      | inl q ↦
          let new = new_record a h r fresh in
          let apart : k ≢ r.intent.intent_id =
            λ e. let clash = sym x.found ∙ ap (λ i. lookup i db.decisions) e ∙ q in cc in
          let kept = lookup-insert_ne k r.intent.intent_id new db.decisions apart in
          subst (Holds k d print)
            {x = record db { decisions = insert r.intent.intent_id new db.decisions }}
            (ground (arith, q))
            (record { row = x.row; found = kept ∙ x.found; issued = x.issued; printed = x.printed })
    ]

lookup-reread :
    (column : ℤ → ℤ) (k : ℕ) (ds : Dict ℕ DecisionRecord) {row : DecisionRecord}
    → lookup k ds ≡ some row
    → lookup k (reread_all column ds) ≡ some (reread_record column row)
unfolding lookup
lookup-reread column k [] h = absurd (ground arith)
lookup-reread column k ((j, x) ∷ ds) {row = row} h = elim (Bool-cases (k == j)) [
  | inl e ↦
      let is : x ≡ row = ground (arith, e, h) in rw e (ap (λ y. some (reread_record column y)) is)
  | inr e ↦ rw e (lookup-reread column k ds (rw e at h))
]

reread-Holds :
    (column : ℤ → ℤ) (k : ℕ) (d : IssuedDecision) (print : String) (db : Tables)
    → column d.decision.approved_quantity ≡ d.decision.approved_quantity
    → Holds k d print db
    → Holds k d print (reread column db)
reread-Holds column k d print db fits x =
    let exact : column x.row.issued.decision.approved_quantity
        ≡ x.row.issued.decision.approved_quantity =
      subst (λ y. column y.decision.approved_quantity ≡ y.decision.approved_quantity) (sym x.issued)
        fits in
    record {
      row = reread_record column x.row;
      found = lookup-reread column k db.decisions x.found;
      issued =
          ap
            (λ n. record {
              decision_id = x.row.issued.decision_id;
              decision = record x.row.issued.decision { approved_quantity = n };
            })
            exact
          ∙ x.issued;
      printed = x.printed;
    }

module _ (a : Arithmetic) (h : Hashes) (column : ℤ → ℤ) where
  Later-Holds :
      {db now : Tables} (k : ℕ) (d : IssuedDecision) (print : String)
      → column d.decision.approved_quantity ≡ d.decision.approved_quantity
      → Later a h column db now
      → Holds k d print db
      → Holds k d print now
  Later-Holds k d print fits none_since x = x
  Later-Holds k d print fits (evaluates r fresh l) x =
      evaluate-Holds a h r fresh k d print _ (Later-Holds k d print fits l x)
  Later-Holds k d print fits (changes c l) x =
      let y = Later-Holds k d print fits l x in
      record { row = y.row; found = y.found; issued = y.issued; printed = y.printed }
  Later-Holds k d print fits (rereads l) x =
      reread-Holds column k d print _ fits (Later-Holds k d print fits l x)

  -- Once an intent has a decision whose approved quantity its column keeps exactly, then after
  -- whatever further evaluations, changes of the controls and reads of the rows from their columns an
  -- evaluation of the intent returns that decision, where the inputs have the same fingerprint, or is
  -- refused; in both cases nothing is stored.
  pub authority_evaluate_once :
      (r s : Request) (fresh next : ℕ) (db : Tables) {d : IssuedDecision} {db' now : Tables}
      → authority_evaluate a h r fresh db ≡ (ok d, db')
      → column d.decision.approved_quantity ≡ d.decision.approved_quantity
      → Later a h column db' now
      → s.intent.intent_id ≡ r.intent.intent_id
      → authority_evaluate a h s next now ≡ (
        (if str_eq (h.fingerprint r) (h.fingerprint s) then ok d else err conflicting_inputs),
        now,
      )
  unfolding authority_evaluate
  authority_evaluate_once r s fresh next db {d = d} {now = now} e fits l same =
      let (old, found, is, print) = stored_decision a h r fresh db e in
      let x =
        Later-Holds r.intent.intent_id d (h.fingerprint r) fits l
          (record { row = old; found = found; issued = is; printed = print }) in
      let found' : lookup s.intent.intent_id now.decisions ≡ some x.row =
        ap (λ i. lookup i now.decisions) same ∙ x.found in
      ground (arith, found', x.issued, x.printed)
