-- ===== src/Paper/Runs.antt =====
-- Any sequence of calls of the paper broker on empty tables, by broker b's arithmetic; its costs and
-- slippage may differ from call to call. The rows of a call are what its session holds, with the values
-- that were written; between calls they may be read back from their columns.
use mytradingsystem.Base.{
  Arithmetic, ℕ, ℤ, ◌≡◌, some, arith, [], Dict, DateTime, instant, lookup, nat_keys, lookup-insert,
  inl, inr, Option-cases, Result-cases, Bool-cases, refl, ap, sym, ◌∙◌, subst, is_naive, ◌==◌,
  max_ℤ, List, ◌∷◌, map, All, KeyTest, pair_keys, lookup-map_values,
}
use mytradingsystem.Domain.{OrderIntent}
use mytradingsystem.Risk.Engine.{IssuedDecision}
use mytradingsystem.Paper.Tables.{Ledger, PaperOrder, Tables}
use mytradingsystem.Paper.Broker.{Broker, execute_market, initialize_account}
use mytradingsystem.Paper.Broker.Accounts.{
  Balanced, CashIs, cash_flows, quantity_at, execute-Balanced, initialize-Balanced,
}
use mytradingsystem.Paper.Columns.{
  Columns, reread, read_order, read_ledger, read_position, Fits, OrderFits, LedgerFits,
  PositionFits,
}
use mytradingsystem.Paper.Valuation.{
  Totals, zero_totals, positions_of, mark_all, store_snapshot, mark_to_market, snapshot_of,
}

abbrev pub no_rows : Tables
no_rows = record {
  orders = [];
  fills = [];
  order_events = [];
  positions = [];
  ledgers = [];
  snapshots = [];
}

pub data Runs (a : Arithmetic) (c : Columns) : Tables → Type 0 where
  start : Runs a c no_rows
  opens :
      {db : Tables} (account : ℕ) (cash : ℤ)
      → Runs a c db
      → Runs a c (initialize_account account cash db).1
  executes :
      (db : Tables) (b : Broker) (intent : OrderIntent) (risk : IssuedDecision) (price : ℤ)
      (at : DateTime) (fresh : ℕ)
      → b.arithmetic ≡ a
      → Runs a c db
      → Runs a c (execute_market b intent risk price at fresh db).1
  marks :
      {db : Tables} (account : ℕ) (prices : Dict ℕ ℤ) (at : DateTime)
      → Runs a c db
      → Runs a c (mark_to_market a account prices at db).1
  rereads : {db : Tables} → Fits c db → Runs a c db → Runs a c (reread c db)

-- A new peak leaves the cash of every ledger as it was.
store_snapshot-Balanced :
    (a : Arithmetic) (account time : ℕ) (ledger : Ledger) (t : Totals) (db : Tables)
    → lookup account db.ledgers ≡ some ledger
    → Balanced a db
    → Balanced a (store_snapshot a account time ledger t db).1
unfolding store_snapshot
store_snapshot-Balanced a account time ledger t db q v =
    let new : Ledger = record ledger {
      peak_equity = max_ℤ ledger.peak_equity (snapshot_of a account time ledger t).equity;
    } in
    record {
      cash = λ other. elim (Bool-cases (other == account)) [
        | inl same ↦
            let eq : other ≡ account = ground arith in
            rw (lookup-insert other account new db.ledgers, same)
              (subst (λ x. CashIs a x (cash_flows a other db.orders))
                (ap (λ x. lookup x db.ledgers) eq ∙ q) (v.cash other))
        | inr apart ↦ rw (lookup-insert other account new db.ledgers, apart) (v.cash other)
      ];
      positions = v.positions;
    }

mark-Balanced :
    (a : Arithmetic) (account : ℕ) (prices : Dict ℕ ℤ) (at : DateTime) (db : Tables)
    → Balanced a db
    → Balanced a (mark_to_market a account prices at db).1
unfolding mark_to_market
mark-Balanced a account prices at db v = elim (Bool-cases (is_naive at)) [
  | inl bad ↦ rw bad v
  | inr timed ↦ elim (Option-cases (lookup account db.ledgers)) [
    | inl q ↦ subst (Balanced a) (ground (arith, timed, q)) v
    | inr (ledger, q) ↦
        elim (Result-cases (mark_all a prices (positions_of account db.positions) zero_totals)) [
          | inr (x, m) ↦ subst (Balanced a) (ground (arith, timed, q, m)) v
          | inl (t, m) ↦
              subst (Balanced a) (ground (arith, timed, q, m))
                (store_snapshot-Balanced a account (instant at) ledger t db q v)
        ]
  ]
]

no_rows-Balanced : (a : Arithmetic) → Balanced a no_rows
unfolding lookup
no_rows-Balanced a = record { cash = λ account. refl; positions = λ place. refl }

-- Reads that change no number of an order leave the orders as they were.
orders-read :
    (c : Columns) (os : List PaperOrder) → All (OrderFits c) os → map (read_order c) os ≡ os
orders-read c [] fits = refl
orders-read c (o ∷ os) ((q, f, p, g), fits) = rw (q, f, p, g, orders-read c os fits)

the_value {ℓ} : {A : Type ℓ} {x y : A} → some x ≡ some y → x ≡ y
the_value h = cc

-- What holds of every entry of a dict holds of a value that is found.
found-fits {ℓ κ μ} :
    {K : Type ℓ} {V : Type κ} ⦃e : KeyTest K⦄ (P : V → Type μ) (k : K) (d : Dict K V) {v : V}
    → All (λ x. P x.1) d
    → lookup k d ≡ some v
    → P v
unfolding lookup
found-fits P k [] fits h = absurd (ground arith)
found-fits ⦃e = e⦄ P k ((j, w) ∷ d) {v = v} (p, fits) h = elim (Bool-cases (e.same k j)) [
  | inl same ↦ let is : some w ≡ some v = rw same at h in subst P (the_value is) p
  | inr other ↦ found-fits P k d fits (rw other at h)
]

reread-Balanced :
    (a : Arithmetic) (c : Columns) (db : Tables)
    → Fits c db
    → Balanced a db
    → Balanced a (reread c db)
reread-Balanced a c db fits v = record {
  cash = λ account.
      rw
        (
          orders-read c db.orders fits.orders_fit,
          lookup-map_values (read_ledger c) account db.ledgers,
        )
        (elim (Option-cases (lookup account db.ledgers)) [
          | inl q ↦
              rw q (subst (λ x. CashIs a x (cash_flows a account db.orders)) q (v.cash account))
          | inr (l, q) ↦
              let (i, b) = found-fits (LedgerFits c) account db.ledgers fits.ledgers_fit q in
              let was =
                subst (λ x. CashIs a x (cash_flows a account db.orders)) q (v.cash account) in
              rw (q, i, b) was
        ]);
  positions = λ place.
      rw
        (
          orders-read c db.orders fits.orders_fit,
          lookup-map_values (read_position c) place db.positions,
        )
        (elim (Option-cases (lookup place db.positions)) [
          | inl q ↦ rw q (ap quantity_at (sym q) ∙ v.positions place)
          | inr (p, q) ↦
              let is = found-fits (PositionFits c) place db.positions fits.positions_fit q in
              rw (q, is) (ap quantity_at (sym q) ∙ v.positions place)
        ]);
}

-- However accounts are opened, orders executed and portfolios valued, with errors and repetitions, and
-- the rows read back from their columns at any time when the numbers of every order, the initial cash
-- and the cash of every ledger and the quantity of every position fit their columns, each account's
-- cash is its initial cash and the flows of its orders with their charges, and each position's
-- quantity is the sum of its orders' signed quantities.
pub Runs-Balanced : (a : Arithmetic) (c : Columns) {db : Tables} → Runs a c db → Balanced a db
Runs-Balanced a c start = no_rows-Balanced a
Runs-Balanced a c (opens account cash r) =
    initialize-Balanced a account cash _ (Runs-Balanced a c r)
Runs-Balanced a c (executes db b intent risk price at fresh same r) =
    subst (λ x. Balanced x (execute_market b intent risk price at fresh db).1) same
      (execute-Balanced b intent risk price at fresh db
        (subst (λ x. Balanced x db) (sym same) (Runs-Balanced a c r)))
Runs-Balanced a c (marks account prices at r) =
    mark-Balanced a account prices at _ (Runs-Balanced a c r)
Runs-Balanced a c (rereads {db = db} fits r) = reread-Balanced a c db fits (Runs-Balanced a c r)
