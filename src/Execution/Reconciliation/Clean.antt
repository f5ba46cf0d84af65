-- ===== src/Execution/Reconciliation/Clean.antt =====
-- Each pass over the orders that ends with no issue has found its part of the agreement; so a
-- result that is safe to trade on stands for agreement.
use mytradingsystem.Base.{
  ℕ, ◌+◌, ◌≡◌, true, String, List, [], ◌∷◌, ◌++◌, eq_of_parts, arith, All, Dict, lookup, has_key,
  text_keys, refl, Bool-cases, inl, inr, Option-cases, append-nil, append_assoc, append-eq_nil,
  append-cons_ne_nil, sym, ◌∙◌, ap, subst, subst₂, is_empty,
}
use mytradingsystem.Domain.{same_status-eq}
use mytradingsystem.Execution.StateMachine.{OrderState}
use mytradingsystem.Execution.Reconciliation.{
  BrokerOrderSnapshot, Issue, reconcile_orders, is_pre_broker, unassigned_issues, add_local,
  scan_locals, scan_brokers, fill_issues, status_issues, match_one, match_locals, report_unknown,
}
use mytradingsystem.Execution.Reconciliation.Agreement.{
  assigned, identified, NoRepeat, Unsent, Matched, Agrees, add_local-unassigned, add_local-repeated,
  add_local-new, add_broker-new, add_broker-repeated, assigned-none, assigned-some,
}

same_quantities :
    (k : String) (o : OrderState) (b : BrokerOrderSnapshot)
    → fill_issues k o b ≡ []
    → (o.quantity ≡ b.quantity) × (o.filled_quantity ≡ b.filled_quantity)
same_quantities k o b h = (eq_of_parts _ _ (ground arith), eq_of_parts _ _ (ground arith))

same_statuses :
    (k : String) (o : OrderState) (b : BrokerOrderSnapshot)
    → status_issues k o b ≡ []
    → o.status ≡ b.status
same_statuses k o b h = same_status-eq o.status b.status (ground arith)

unsent_of_nil : (o : OrderState) → unassigned_issues o ≡ [] → is_pre_broker o.status ≡ true
unsent_of_nil o h = ground arith

abbrev LocalsClean :
    List OrderState
    → Dict String OrderState
    → List Issue
    → Dict String OrderState × List Issue
    → Type 0
LocalsClean os d is out =
    (is ≡ []) × All Unsent os × NoRepeat d (assigned os) × (out.0 ≡ d ++ assigned os)

scan_locals-nil :
    (os : List OrderState) (d : Dict String OrderState) (is : List Issue)
    → (scan_locals os (d, is)).1 ≡ []
    → LocalsClean os d is (scan_locals os (d, is))
unfolding scan_locals
scan_locals-nil [] d is h = (h, tt, tt, sym (append-nil d))
scan_locals-nil (o ∷ os) d is h = elim (Option-cases o.broker_order_id) [
  | inl e ↦
      let go = add_local-unassigned o d is e in
      let (clean, unsent, ids, eq) =
        scan_locals-nil os d (is ++ unassigned_issues o)
          (subst (λ acc. (scan_locals os acc).1 ≡ []) go h) in
      let (before, here) = append-eq_nil is (unassigned_issues o) clean in
      subst
        (λ c.
          (is ≡ [])
          × All Unsent (o ∷ os)
          × NoRepeat d c
          × ((scan_locals os (add_local o (d, is))).0 ≡ d ++ c))
        (sym (assigned-none o os e))
        (
          before,
          ((λ _. unsent_of_nil o here), unsent),
          ids,
          ap (λ acc. (scan_locals os acc).0) go ∙ eq,
        )
  | inr (k, e) ↦ elim (Bool-cases (has_key k d)) [
    | inl old ↦ absurd (
        append-cons_ne_nil is _
          (scan_locals-nil os d _
            (subst (λ acc. (scan_locals os acc).1 ≡ []) (add_local-repeated o k d is e old) h)).0)
    | inr new ↦
        let go = add_local-new o k d is e new in
        let (clean, unsent, ids, eq) =
          scan_locals-nil os (d ++ (k, o) ∷ []) is
            (subst (λ acc. (scan_locals os acc).1 ≡ []) go h) in
        subst
          (λ c.
            (is ≡ [])
            × All Unsent (o ∷ os)
            × NoRepeat d c
            × ((scan_locals os (add_local o (d, is))).0 ≡ d ++ c))
          (sym (assigned-some o k os e))
          (
            clean,
            ((λ z. cc), unsent),
            (new, ids),
            ap (λ acc. (scan_locals os acc).0) go ∙ eq ∙ append_assoc d _ _,
          )
  ]
]

scan_brokers-nil :
    (bs : List BrokerOrderSnapshot) (d : Dict String BrokerOrderSnapshot) (is : List Issue)
    → (scan_brokers bs (d, is)).1 ≡ []
    → (is ≡ []) × NoRepeat d (identified bs) × ((scan_brokers bs (d, is)).0 ≡ d ++ identified bs)
unfolding scan_brokers
scan_brokers-nil [] d is h = (h, tt, sym (append-nil d))
scan_brokers-nil (b ∷ bs) d is h = elim (Bool-cases (has_key b.broker_order_id d)) [
  | inl old ↦ absurd (
      append-cons_ne_nil is _
        (scan_brokers-nil bs d _
          (subst (λ acc. (scan_brokers bs acc).1 ≡ []) (add_broker-repeated b d is old) h)).0)
  | inr new ↦
      let go = add_broker-new b d is new in
      let (clean, ids, eq) =
        scan_brokers-nil bs (d ++ (b.broker_order_id, b) ∷ []) is
          (subst (λ acc. (scan_brokers bs acc).1 ≡ []) go h) in
      (clean, (new, ids), ap (λ acc. (scan_brokers bs acc).0) go ∙ eq ∙ append_assoc d _ _)
]

match_locals-nil :
    (brokers : Dict String BrokerOrderSnapshot) (d : Dict String OrderState) (n : ℕ)
    (is : List Issue)
    → (match_locals brokers d (n, is)).1 ≡ []
    → (is ≡ []) × All (Matched brokers) d
unfolding match_locals
match_locals-nil brokers [] n is h = (h, tt)
match_locals-nil brokers ((k, o) ∷ d) n is h = elim (Option-cases (lookup k brokers)) [
  | inl e ↦ absurd (
      append-cons_ne_nil is _
        (match_locals-nil brokers d n _
          (subst (λ m. (match_locals brokers d (match_one k o m (n, is))).1 ≡ []) e h)).0)
  | inr (b, e) ↦
      let (clean, rest) =
        match_locals-nil brokers d (n + 1) (is ++ fill_issues k o b ++ status_issues k o b)
          (subst (λ m. (match_locals brokers d (match_one k o m (n, is))).1 ≡ []) e h) in
      let (first, statuses) = append-eq_nil (is ++ fill_issues k o b) (status_issues k o b) clean in
      let (before, fills) = append-eq_nil is (fill_issues k o b) first in
      let (q, f) = same_quantities k o b fills in
      (before, ((b, e, q, f, same_statuses k o b statuses), rest))
]

report_unknown-nil :
    (locals : Dict String OrderState) (d : Dict String BrokerOrderSnapshot) (is : List Issue)
    → report_unknown locals d is ≡ []
    → (is ≡ []) × All (λ p. has_key p.0 locals ≡ true) d
unfolding report_unknown
report_unknown-nil locals [] is h = (h, tt)
report_unknown-nil locals ((k, b) ∷ d) is h = elim (Bool-cases (has_key k locals)) [
  | inl old ↦
      let (clean, rest) = report_unknown-nil locals d is (rw old at h) in (clean, (old, rest))
  | inr new ↦ absurd (append-cons_ne_nil is _ (report_unknown-nil locals d _ (rw new at h)).0)
]

is_empty-nil {ℓ} : {A : Type ℓ} (xs : List A) → is_empty xs ≡ true → xs ≡ []
is_empty-nil [] h = refl
is_empty-nil (x ∷ xs) h = cc

pub reconcile_safe-Agrees :
    (ls : List OrderState) (bs : List BrokerOrderSnapshot)
    → (reconcile_orders ls bs).safe_to_trade ≡ true
    → Agrees ls bs
unfolding reconcile_orders
reconcile_safe-Agrees ls bs h =
    let (locals, local_issues) = scan_locals ls ([], []) in
    let (brokers, broker_issues) = scan_brokers bs ([], local_issues) in
    let (matched, match_issues) = match_locals brokers locals (0, broker_issues) in
    let (c4, known) = report_unknown-nil locals brokers match_issues (is_empty-nil _ h) in
    let (c3, pairs) = match_locals-nil brokers locals 0 broker_issues c4 in
    let (c2, broker_ids, broker_eq) = scan_brokers-nil bs [] local_issues c3 in
    let (c1, unsent, local_ids, local_eq) = scan_locals-nil ls [] [] c2 in
    record {
      unsent = unsent;
      local_ids = local_ids;
      broker_ids = broker_ids;
      matched = subst₂ (λ l b. All (Matched b) l) local_eq broker_eq pairs;
      known = subst₂ (λ l b. All (λ p. has_key p.0 l ≡ true) b) local_eq broker_eq known;
    }
