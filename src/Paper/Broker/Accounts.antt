-- ===== src/Paper/Broker/Accounts.antt =====
-- The accounts against the orders: cash and positions are what the orders add up to.
use mytradingsystem.Base.{
  Arithmetic, ℕ, ℤ, pos, ◌+ℤ◌, ◌-ℤ◌, int_laws, neg, ◌≡◌, some, none, arith, List, [], ◌∷◌, Option,
  DateTime, instant, lookup, insert, nat_keys, pair_keys, same_pair, pair_test_iff, lookup-insert,
  inl, inr, Option-cases, Result-cases, Bool-cases, ap, sym, ◌∙◌, ◌==◌, subst, if◌then◌else◌, leb_ℤ,
  ◌==ℤ◌,
}
use mytradingsystem.Domain.{OrderIntent}
use mytradingsystem.Risk.Engine.{IssuedDecision}
use mytradingsystem.Paper.Tables.{PaperOrder, Ledger, Position, Tables, Execution}
use mytradingsystem.Paper.Broker.{
  Broker, new_order, write_fill, execute_market, initialize_account, signed, updated_position,
  fill_price,
}
use mytradingsystem.Paper.Broker.Effects.{
  Executed, found, written, execute-Executed, execute_error_unchanged,
}

-- What an order adds to the cash of its account.
abbrev pub cash_flow : Arithmetic → PaperOrder → ℤ
cash_flow a o = neg (signed o.side (a.mul o.average_price o.quantity)) -ℤ o.charges

abbrev pub cash_flows : Arithmetic → ℕ → List PaperOrder → ℤ
cash_flows a account [] = pos 0
cash_flows a account (o ∷ os) =
    let rest = cash_flows a account os in
    if account == o.account_id then rest +ℤ cash_flow a o else rest

-- What the orders of an account and an instrument leave in the position.
abbrev pub net_quantity : ℕ × ℕ → List PaperOrder → ℤ
net_quantity place [] = pos 0
net_quantity place (o ∷ os) =
    let rest = net_quantity place os in
    if same_pair place (o.account_id, o.instrument_id)
    then rest +ℤ signed o.side o.quantity
    else rest

abbrev pub quantity_at : Option Position → ℤ
quantity_at none = pos 0
quantity_at (some p) = p.quantity

-- The cash that a ledger should hold.
abbrev pub CashIs : Arithmetic → Option Ledger → ℤ → Type 0
CashIs a none flows = flows ≡ pos 0
CashIs a (some l) flows = l.cash_balance ≡ l.initial_cash +ℤ flows

pub record Balanced (a : Arithmetic) (db : Tables) : Type 0 where
  pub cash : (account : ℕ) → CashIs a (lookup account db.ledgers) (cash_flows a account db.orders)
  pub positions :
      (place : ℕ × ℕ) → quantity_at (lookup place db.positions) ≡ net_quantity place db.orders

updated-quantity :
    (a : Arithmetic) (p : Option Position) (delta price charges : ℤ)
    → (updated_position a p delta price charges).quantity ≡ quantity_at p +ℤ delta
unfolding updated_position
updated-quantity a none delta price charges = omega int_laws
updated-quantity a (some p) delta price charges = ground arith

add_flow : (c i f g : ℤ) → c ≡ i +ℤ f → c +ℤ g ≡ i +ℤ (f +ℤ g)
add_flow c i f g h = rw h (omega int_laws)

-- The rows of a fill keep the balance.
write_fill-Balanced :
    (b : Broker) (o : PaperOrder) (ledger : Ledger) (db : Tables)
    → lookup o.account_id db.ledgers ≡ some ledger
    → Balanced b.arithmetic db
    → Balanced b.arithmetic (write_fill b o ledger db)
unfolding write_fill
write_fill-Balanced b o ledger db q v = record {
  cash = λ account. elim (Bool-cases (account == o.account_id)) [
    | inl same ↦
        let eq : account ≡ o.account_id = ground arith in
        let was =
          subst (λ x. CashIs b.arithmetic x (cash_flows b.arithmetic account db.orders))
            (ap (λ x. lookup x db.ledgers) eq ∙ q) (v.cash account) in
        rw
          (
            lookup-insert account o.account_id
                (record ledger { cash_balance = ledger.cash_balance +ℤ cash_flow b.arithmetic o })
                db.ledgers,
            same,
          )
          (add_flow ledger.cash_balance ledger.initial_cash
            (cash_flows b.arithmetic account db.orders) (cash_flow b.arithmetic o) was)
    | inr other ↦
        rw
          (
            lookup-insert account o.account_id
                (record ledger { cash_balance = ledger.cash_balance +ℤ cash_flow b.arithmetic o })
                db.ledgers,
            other,
          )
          (v.cash account)
  ];
  positions = λ place.
      let here : ℕ × ℕ = (o.account_id, o.instrument_id) in
      let p =
        updated_position b.arithmetic (lookup here db.positions) (signed o.side o.quantity)
          o.average_price o.charges in
      elim (Bool-cases (same_pair place here)) [
        | inl same ↦
            let eq = (pair_test_iff place here).0 same in
            let was = ap (λ x. quantity_at (lookup x db.positions)) (sym eq) ∙ v.positions place in
            rw (lookup-insert place here p db.positions, same)
              (updated-quantity b.arithmetic (lookup here db.positions) (signed o.side o.quantity)
                  o.average_price o.charges
                ∙ ap (λ n. n +ℤ signed o.side o.quantity) was)
        | inr other ↦ rw (lookup-insert place here p db.positions, other) (v.positions place)
      ];
}

Executed-Balanced :
    (b : Broker) (intent : OrderIntent) (risk : IssuedDecision) (price : ℤ) (t fresh : ℕ)
    (db : Tables) {x : Execution} {db' : Tables}
    → Executed b intent risk price t fresh db x db'
    → Balanced b.arithmetic db
    → Balanced b.arithmetic db'
Executed-Balanced b intent risk price t fresh db (found o q) v = v
Executed-Balanced b intent risk price t fresh db (written ledger charges new q c) v =
    write_fill-Balanced b (new_order intent risk fresh (fill_price b intent.side price) charges t)
      ledger db q v

-- Whatever a call returns, it keeps the balance.
pub execute-Balanced :
    (b : Broker) (intent : OrderIntent) (risk : IssuedDecision) (price : ℤ) (at : DateTime)
    (fresh : ℕ) (db : Tables)
    → Balanced b.arithmetic db
    → Balanced b.arithmetic (execute_market b intent risk price at fresh db).1
execute-Balanced b intent risk price at fresh db v =
    elim (Result-cases (execute_market b intent risk price at fresh db).0) [
      | inl (x, q) ↦
          Executed-Balanced b intent risk price (instant at) fresh db
            (execute-Executed b intent risk price at fresh db
              (ap (λ r. (r, (execute_market b intent risk price at fresh db).1)) q))
            v
      | inr (e, q) ↦
          subst (Balanced b.arithmetic)
            (sym (execute_error_unchanged b intent risk price at fresh db q)) v
    ]

opening : (cash flows : ℤ) → flows ≡ pos 0 → cash ≡ cash +ℤ flows
opening cash flows h = rw h (omega int_laws)

pub initialize-Balanced :
    (a : Arithmetic) (account : ℕ) (cash : ℤ) (db : Tables)
    → Balanced a db
    → Balanced a (initialize_account account cash db).1
unfolding initialize_account
initialize-Balanced a account cash db v = elim (Bool-cases (leb_ℤ cash (pos 0))) [
  | inl low ↦ rw low v
  | inr high ↦ elim (Option-cases (lookup account db.ledgers)) [
    | inr (ledger, q) ↦ elim (Bool-cases (ledger.initial_cash ==ℤ cash)) [
      | inl same ↦ subst (Balanced a) (ground (arith, high, q, same)) v
      | inr other ↦ subst (Balanced a) (ground (arith, high, q, other)) v
    ]
    | inl q ↦
        let opened : Ledger = record {
          initial_cash = cash;
          cash_balance = cash;
          peak_equity = cash;
        } in
        subst (Balanced a) {x = record db { ledgers = insert account opened db.ledgers }}
          (ground (arith, high, q))
          (record {
            cash = λ other. elim (Bool-cases (other == account)) [
              | inl same ↦
                  let eq : other ≡ account = ground arith in
                  let was =
                    subst (λ x. CashIs a x (cash_flows a other db.orders))
                      (ap (λ x. lookup x db.ledgers) eq ∙ q) (v.cash other) in
                  rw (lookup-insert other account opened db.ledgers, same)
                    (opening cash (cash_flows a other db.orders) was)
              | inr apart ↦ rw (lookup-insert other account opened db.ledgers, apart) (v.cash other)
            ];
            positions = v.positions;
          })
  ]
]
