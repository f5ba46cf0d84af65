-- ===== src/Paper/Broker/Effects.antt =====
-- One call of `execute_market`: what it writes, that it can be repeated, and that an error writes
-- nothing.
use mytradingsystem.Base.{
  ℕ, ℤ, ◌≡◌, ok, err, some, none, true, false, arith, DateTime, instant, lookup, nat_keys,
  pair_keys, inl, inr, Option-cases, Result-cases, refl, str_eq_refl, subst,
}
use mytradingsystem.Domain.{OrderIntent}
use mytradingsystem.Risk.Engine.{IssuedDecision}
use mytradingsystem.Paper.Tables.{PaperError, PaperOrder, Ledger, Tables, Execution}
use mytradingsystem.Paper.Broker.{
  Broker, check_request, find_order, execution, new_order, write_fill, fill_order, execute_market,
  fill_price,
}

-- A call that returned either found the order or wrote a new one.
pub data Executed (b : Broker) (intent : OrderIntent) (risk : IssuedDecision) (price : ℤ)
    (t fresh : ℕ) (db : Tables) : Execution → Tables → Type 0 where
  found :
      (o : PaperOrder)
      → find_order intent.account_id intent.idempotency_key db.orders ≡ some o
      → Executed b intent risk price t fresh db (execution o true) db
  written :
      (ledger : Ledger) (charges : ℤ)
      → find_order intent.account_id intent.idempotency_key db.orders ≡ none
      → lookup intent.account_id db.ledgers ≡ some ledger
      → b.cost_model
          (b.arithmetic.mul (fill_price b intent.side price) risk.decision.approved_quantity)
          intent.side
        ≡ ok charges
      → Executed b intent risk price t fresh db
          (execution (new_order intent risk fresh (fill_price b intent.side price) charges t) false)
          (write_fill b
            (new_order intent risk fresh (fill_price b intent.side price) charges t)
            ledger
            db)

fill_order-Executed :
    (b : Broker) (intent : OrderIntent) (risk : IssuedDecision) (price : ℤ) (t fresh : ℕ)
    (db : Tables) {x : Execution} {db' : Tables}
    → find_order intent.account_id intent.idempotency_key db.orders ≡ none
    → fill_order b intent risk price t fresh db ≡ (ok x, db')
    → Executed b intent risk price t fresh db x db'
unfolding fill_order
fill_order-Executed b intent risk price t fresh db {x} {db'} new h =
    elim (Option-cases (lookup intent.account_id db.ledgers)) [
      | inl q ↦ absurd (ground arith)
      | inr (ledger, q) ↦
          elim (Result-cases (
            b.cost_model
              (b.arithmetic.mul (fill_price b intent.side price) risk.decision.approved_quantity)
              intent.side)) [
                | inr (e, c) ↦ absurd (ground arith)
                | inl (charges, c) ↦
                    let o =
                      new_order intent risk fresh (fill_price b intent.side price) charges t in
                    let same : execution o false ≡ x = ground arith in
                    let table : write_fill b o ledger db ≡ db' = ground arith in
                    subst (λ y. Executed b intent risk price t fresh db y db') same
                      (subst (Executed b intent risk price t fresh db (execution o false)) table
                        (written ledger charges new q c))
              ]
    ]

pub execute-Executed :
    (b : Broker) (intent : OrderIntent) (risk : IssuedDecision) (price : ℤ) (at : DateTime)
    (fresh : ℕ) (db : Tables) {x : Execution} {db' : Tables}
    → execute_market b intent risk price at fresh db ≡ (ok x, db')
    → Executed b intent risk price (instant at) fresh db x db'
unfolding execute_market
execute-Executed b intent risk price at fresh db {x} {db'} h =
    elim (Result-cases (check_request intent risk price at)) [
      | inr (e, c) ↦ absurd (ground arith)
      | inl (u, c) ↦
          elim (Option-cases (find_order intent.account_id intent.idempotency_key db.orders)) [
            | inl q ↦ fill_order-Executed b intent risk price (instant at) fresh db q (ground arith)
            | inr (o, q) ↦
                let same : execution o true ≡ x = ground arith in
                let table : db ≡ db' = ground arith in
                subst (λ y. Executed b intent risk price (instant at) fresh db y db') same
                  (subst (Executed b intent risk price (instant at) fresh db (execution o true))
                    table (found o q))
          ]
    ]

found_again :
    (b : Broker) (intent : OrderIntent) (risk : IssuedDecision) (price : ℤ) (t fresh : ℕ)
    (db : Tables) {x : Execution} {db' : Tables}
    → Executed b intent risk price t fresh db x db'
    → (o : PaperOrder) × (find_order intent.account_id intent.idempotency_key db'.orders ≡ some o)
      × (execution o true ≡ record x { duplicate = true })
unfolding find_order write_fill
found_again b intent risk price t fresh db (found o q) = (o, q, refl)
found_again b intent risk price t fresh db (written ledger charges new q c) = (
  new_order intent risk fresh (fill_price b intent.side price) charges t,
  ground (arith, str_eq_refl intent.idempotency_key),
  refl,
)

-- Once an intent was executed, a further call for it with arguments that pass the tests trades
-- nothing: it returns the execution there was, marked as a duplicate, whatever its price and its
-- decision are.
pub execute-execute_idem :
    (b c : Broker) (intent : OrderIntent) (risk other : IssuedDecision) (price later : ℤ)
    (at again : DateTime) (fresh next : ℕ) (db : Tables) {x : Execution} {db' : Tables}
    → execute_market b intent risk price at fresh db ≡ (ok x, db')
    → check_request intent other later again ≡ ok tt
    → execute_market c intent other later again next db' ≡ (ok (record x { duplicate = true }), db')
unfolding execute_market
execute-execute_idem b c intent risk other price later at again fresh next db {x} {db'} h k =
    let (o, q, is) =
      found_again b intent risk price (instant at) fresh db
        (execute-Executed b intent risk price at fresh db h) in
    ground (arith, k, q, is)

-- A call that raises has written nothing.
pub execute_error_unchanged :
    (b : Broker) (intent : OrderIntent) (risk : IssuedDecision) (price : ℤ) (at : DateTime)
    (fresh : ℕ) (db : Tables) {x : PaperError}
    → (execute_market b intent risk price at fresh db).0 ≡ err x
    → (execute_market b intent risk price at fresh db).1 ≡ db
unfolding execute_market fill_order
execute_error_unchanged b intent risk price at fresh db h = ground arith
