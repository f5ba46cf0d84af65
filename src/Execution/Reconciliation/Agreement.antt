-- ===== src/Execution/Reconciliation/Agreement.antt =====
-- What it means that the local orders and the broker's agree, said without loops; and the body of
-- each loop over the orders by the branch that it takes.
use mytradingsystem.Base.{
  ◌≡◌, true, false, String, none, some, List, [], ◌∷◌, ◌++◌, arith, All, Dict, lookup, has_key,
  text_keys,
}
use mytradingsystem.Execution.StateMachine.{OrderState}
use mytradingsystem.Execution.Reconciliation.{
  BrokerOrderSnapshot, Issue, issue, duplicate_broker_order, several_local_orders,
  broker_repeats_identity, is_pre_broker, unassigned_issues, add_local, add_broker,
}

-- The local orders with a broker identity, under it, in order.
abbrev pub assigned : List OrderState → Dict String OrderState
assigned [] = []
assigned (o ∷ os) = elim o.broker_order_id [ none ↦ assigned os | some k ↦ (k, o) ∷ assigned os ]

abbrev pub identified : List BrokerOrderSnapshot → Dict String BrokerOrderSnapshot
identified [] = []
identified (b ∷ bs) = (b.broker_order_id, b) ∷ identified bs

-- No key stands in `before`, or twice in the list.
abbrev pub NoRepeat {ℓ} : {V : Type ℓ} → Dict String V → Dict String V → Type 0
NoRepeat before [] = Unit
NoRepeat before (p ∷ d) = (has_key p.0 before ≡ false) × NoRepeat (before ++ p ∷ []) d

abbrev pub Unsent : OrderState → Type 0
Unsent o = o.broker_order_id ≡ none → is_pre_broker o.status ≡ true

-- The broker has an order of this identity, with the same quantities and status.
abbrev pub Matched : Dict String BrokerOrderSnapshot → String × OrderState → Type 0
Matched brokers (k, o) =
    (b : BrokerOrderSnapshot) × (lookup k brokers ≡ some b)
    × (o.quantity ≡ b.quantity)
    × (o.filled_quantity ≡ b.filled_quantity)
    × (o.status ≡ b.status)

pub record Agrees (local_orders : List OrderState) (broker_orders : List BrokerOrderSnapshot)
    : Type 0 where
  pub unsent : All Unsent local_orders
  pub local_ids : NoRepeat [] (assigned local_orders)
  pub broker_ids : NoRepeat [] (identified broker_orders)
  pub matched : All (Matched (identified broker_orders)) (assigned local_orders)
  pub known : All (λ p. has_key p.0 (assigned local_orders) ≡ true) (identified broker_orders)

-- Each loop's body, by the branch that it takes.
pub add_local-unassigned :
    (o : OrderState) (d : Dict String OrderState) (is : List Issue)
    → o.broker_order_id ≡ none
    → add_local o (d, is) ≡ (d, is ++ unassigned_issues o)
unfolding add_local
add_local-unassigned o d is e = ground arith

pub add_local-repeated :
    (o : OrderState) (k : String) (d : Dict String OrderState) (is : List Issue)
    → o.broker_order_id ≡ some k
    → has_key k d ≡ true
    → add_local o (d, is) ≡ (d, is ++ issue duplicate_broker_order k several_local_orders ∷ [])
unfolding add_local
add_local-repeated o k d is e old = ground arith

pub add_local-new :
    (o : OrderState) (k : String) (d : Dict String OrderState) (is : List Issue)
    → o.broker_order_id ≡ some k
    → has_key k d ≡ false
    → add_local o (d, is) ≡ (d ++ (k, o) ∷ [], is)
unfolding add_local
add_local-new o k d is e new = ground arith

pub add_broker-repeated :
    (b : BrokerOrderSnapshot) (d : Dict String BrokerOrderSnapshot) (is : List Issue)
    → has_key b.broker_order_id d ≡ true
    → add_broker b (d, is)
      ≡ (d, is ++ issue duplicate_broker_order b.broker_order_id broker_repeats_identity ∷ [])
unfolding add_broker
add_broker-repeated b d is old = ground arith

pub add_broker-new :
    (b : BrokerOrderSnapshot) (d : Dict String BrokerOrderSnapshot) (is : List Issue)
    → has_key b.broker_order_id d ≡ false
    → add_broker b (d, is) ≡ (d ++ (b.broker_order_id, b) ∷ [], is)
unfolding add_broker
add_broker-new b d is new = simp new

pub assigned-none :
    (o : OrderState) (os : List OrderState)
    → o.broker_order_id ≡ none
    → assigned (o ∷ os) ≡ assigned os
assigned-none o os e = simp e

pub assigned-some :
    (o : OrderState) (k : String) (os : List OrderState)
    → o.broker_order_id ≡ some k
    → assigned (o ∷ os) ≡ (k, o) ∷ assigned os
assigned-some o k os e = simp e
