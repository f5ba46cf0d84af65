-- ===== src/Execution/Reconciliation/Complete.antt =====
-- Where the orders agree, each pass leaves the issues as they were; so the result is safe.
use mytradingsystem.Base.{
  ℕ, ◌+◌, ◌≡◌, ◌↔◌, true, String, List, [], ◌∷◌, ◌++◌, arith, All, Dict, has_key, text_keys, refl,
  inl, inr, Option-cases, append-nil, append_assoc, sym, ◌∙◌, ap, subst, length, ap₂,
}
use mytradingsystem.Domain.{OrderStatus, same_status}
use mytradingsystem.Execution.StateMachine.{OrderState}
use mytradingsystem.Execution.Reconciliation.{
  BrokerOrderSnapshot, Issue, ReconciliationResult, reconcile_orders, is_pre_broker,
  unassigned_issues, scan_locals, scan_brokers, fill_issues, status_issues, match_one, match_locals,
  report_unknown,
}
use mytradingsystem.Execution.Reconciliation.Agreement.{
  assigned, identified, NoRepeat, Unsent, Matched, Agrees, add_local-unassigned, add_local-new,
  add_broker-new, assigned-none, assigned-some,
}
use native.Mathlib.Nat.{zero-add}
use mytradingsystem.Execution.Reconciliation.Clean.{reconcile_safe-Agrees}

unassigned_issues-nil : (o : OrderState) → is_pre_broker o.status ≡ true → unassigned_issues o ≡ []
unassigned_issues-nil o h = ground arith

same_status_refl : (a : OrderStatus) → same_status a a ≡ true
same_status_refl a = ground arith

no_issues :
    (k : String) (o : OrderState) (b : BrokerOrderSnapshot) (is : List Issue)
    → o.quantity ≡ b.quantity
    → o.filled_quantity ≡ b.filled_quantity
    → o.status ≡ b.status
    → is ++ fill_issues k o b ++ status_issues k o b ≡ is
no_issues k o b is q f s =
    let fills : fill_issues k o b ≡ [] = ground arith in
    let statuses : status_issues k o b ≡ [] = ground (arith, same_status_refl b.status) in
    ap₂ (λ x y. is ++ x ++ y) fills statuses ∙ append-nil (is ++ []) ∙ append-nil is

scan_locals-clean :
    (os : List OrderState) (d : Dict String OrderState) (is : List Issue)
    → All Unsent os
    → NoRepeat d (assigned os)
    → scan_locals os (d, is) ≡ (d ++ assigned os, is)
unfolding scan_locals
scan_locals-clean [] d is u r = ap (λ (c : Dict String OrderState). (c, is)) (sym (append-nil d))
scan_locals-clean (o ∷ os) d is u r = elim (Option-cases o.broker_order_id) [
  | inl e ↦
      let none_left : unassigned_issues o ≡ [] = unassigned_issues-nil o (u.0 e) in
      let rest = subst (λ c. NoRepeat d c) (assigned-none o os e) r in
      ap (scan_locals os) (
        add_local-unassigned o d is e
        ∙ ap (λ (c : List Issue). (d, c)) (ap (λ c. is ++ c) none_left ∙ append-nil is))
      ∙ scan_locals-clean os d is u.1 rest
      ∙ ap (λ (c : Dict String OrderState). (d ++ c, is)) (sym (assigned-none o os e))
  | inr (k, e) ↦
      let (new, rest) = subst (λ c. NoRepeat d c) (assigned-some o k os e) r in
      ap (scan_locals os) (add_local-new o k d is e new)
      ∙ scan_locals-clean os (d ++ (k, o) ∷ []) is u.1 rest
      ∙ ap (λ (c : Dict String OrderState). (c, is))
          (append_assoc d _ _ ∙ ap (λ c. d ++ c) (sym (assigned-some o k os e)))
]

scan_brokers-clean :
    (bs : List BrokerOrderSnapshot) (d : Dict String BrokerOrderSnapshot) (is : List Issue)
    → NoRepeat d (identified bs)
    → scan_brokers bs (d, is) ≡ (d ++ identified bs, is)
unfolding scan_brokers
scan_brokers-clean [] d is r =
    ap (λ (c : Dict String BrokerOrderSnapshot). (c, is)) (sym (append-nil d))
scan_brokers-clean (b ∷ bs) d is r =
    ap (scan_brokers bs) (add_broker-new b d is r.0)
    ∙ scan_brokers-clean bs (d ++ (b.broker_order_id, b) ∷ []) is r.1
    ∙ ap (λ (c : Dict String BrokerOrderSnapshot). (c, is)) (append_assoc d _ _)

match_locals-clean :
    (brokers : Dict String BrokerOrderSnapshot) (d : Dict String OrderState) (n : ℕ)
    (is : List Issue)
    → All (Matched brokers) d
    → match_locals brokers d (n, is) ≡ (n + length d, is)
unfolding match_locals
match_locals-clean brokers [] n is h = ground arith
match_locals-clean brokers ((k, o) ∷ d) n is ((b, e, q, f, s), rest) =
    ap (λ m. match_locals brokers d (match_one k o m (n, is))) e
    ∙ ap (λ c. match_locals brokers d (n + 1, c)) (no_issues k o b is q f s)
    ∙ match_locals-clean brokers d (n + 1) is rest
    ∙ ap (λ (m : ℕ). (m, is)) (omega arith)

report_unknown-clean :
    (locals : Dict String OrderState) (d : Dict String BrokerOrderSnapshot) (is : List Issue)
    → All (λ p. has_key p.0 locals ≡ true) d
    → report_unknown locals d is ≡ is
unfolding report_unknown
report_unknown-clean locals [] is h = refl
report_unknown-clean locals ((k, b) ∷ d) is (old, rest) =
    rw old (report_unknown-clean locals d is rest)

Agrees-result :
    (ls : List OrderState) (bs : List BrokerOrderSnapshot)
    → Agrees ls bs
    → reconcile_orders ls bs
      ≡ record { safe_to_trade = true; matched_orders = length (assigned ls); issues = [] }
unfolding reconcile_orders
Agrees-result ls bs a = rw (
  scan_locals-clean ls [] [] a.unsent a.local_ids,
  scan_brokers-clean bs [] [] a.broker_ids,
  match_locals-clean (identified bs) (assigned ls) 0 [] a.matched,
  report_unknown-clean (assigned ls) (identified bs) [] a.known,
  zero-add,
)

-- The result is safe to trade on exactly where the local orders and the broker's agree.
pub reconcile_safe_iff :
    (ls : List OrderState) (bs : List BrokerOrderSnapshot)
    → ((reconcile_orders ls bs).safe_to_trade ≡ true) ↔ Agrees ls bs
reconcile_safe_iff ls bs = (
  reconcile_safe-Agrees ls bs,
  λ a. ap (λ (r : ReconciliationResult). r.safe_to_trade) (Agrees-result ls bs a),
)
