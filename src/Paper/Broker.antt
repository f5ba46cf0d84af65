-- ===== src/Paper/Broker.antt =====
-- packages/paper_trading/broker.py: `PersistentPaperBroker` on its tables. New rows stand first; a
-- fresh order identifier is an argument. The rows hold the values as they are written in the session,
-- which does not expire them; a call on rows read back is a call on `Columns.reread` of the tables.
pub mod Effects
pub mod Accounts
use mytradingsystem.Domain.{
  OrderIntent, OrderStatus, filled, OrderType, market, Side, buy, sell, RiskOutcome, approve,
  resize, reject,
}
use mytradingsystem.Paper.Tables.{
  PaperError, negative_slippage, nonpositive_cash, different_capital, not_a_market_order,
  foreign_decision, no_risk_approval, bad_approved_quantity, nonpositive_price, naive_time,
  no_ledger, cost_error, PaperOrder, PaperFill, PaperOrderEvent, Position, Ledger, Tables,
  Execution,
}
use mytradingsystem.Risk.Engine.{IssuedDecision}
use mytradingsystem.Backtesting.Costs.{CostModel, CostError}
use mytradingsystem.Base.{
  ◌≠b◌, Arithmetic, Bool, ℕ, ℤ, pos, ◌+ℤ◌, ◌-ℤ◌, neg, abs, min_ℤ, max_ℤ, ltb_ℤ, leb_ℤ, ◌==ℤ◌, ◌==◌,
  str_eq, List, [], ◌∷◌, String, Option, none, some, Dict, lookup, insert, nat_keys, pair_keys,
  DateTime, is_naive, instant, Result, ok, err, ◌>>=◌, ◌>>◌, raise_if, true, false, not, ◌&&◌, ◌||◌,
  if◌then◌else◌, is_some,
}

-- The fields of the broker, once its slippage has been checked.
pub record Broker : Type 0 where
  pub arithmetic : Arithmetic
  pub cost_model : CostModel
  pub slippage_bps : ℤ

unfoldable pub broker : Arithmetic → CostModel → ℤ → Result PaperError Broker
broker a costs slippage = do
  raise_if (ltb_ℤ slippage (pos 0)) negative_slippage
  ok (record { arithmetic = a; cost_model = costs; slippage_bps = slippage })

unfoldable pub initialize_account : ℕ → ℤ → Tables → Result PaperError (Unit {0}) × Tables
initialize_account account cash db =
    if leb_ℤ cash (pos 0) then (err nonpositive_cash, db) else elim (lookup account db.ledgers) [
      | none ↦ (
        ok tt,
        record db {
          ledgers =
              insert account
                (record { initial_cash = cash; cash_balance = cash; peak_equity = cash })
                db.ledgers;
        },
      )
      | some ledger ↦
          if ledger.initial_cash ==ℤ cash then (ok tt, db) else (err different_capital, db)
    ]

-- `scalar(select(...).where(account_id == ..., idempotency_key == ...))`
unfoldable pub find_order : ℕ → String → List PaperOrder → Option PaperOrder
find_order account key [] = none
find_order account key (o ∷ os) =
    if o.account_id == account && str_eq o.idempotency_key key
    then some o
    else find_order account key os

-- `_execution`
abbrev pub execution : PaperOrder → Bool → Execution
execution o duplicate = record {
  order_id = o.order_id;
  status = o.status;
  filled_quantity = o.filled_quantity;
  average_price = o.average_price;
  charges = o.charges;
  duplicate = duplicate;
}

-- A quantity with the sign of a side.
abbrev pub signed : Side → ℤ → ℤ
signed buy n = n
signed sell n = neg n

abbrev pub may_trade : RiskOutcome → Bool
may_trade approve = true
may_trade resize = true
may_trade reject = false

abbrev pub is_market : OrderType → Bool
is_market market = true
is_market _ = false

-- The tests at the start of `execute_market`.
unfoldable pub check_request :
    OrderIntent → IssuedDecision → ℤ → DateTime → Result PaperError (Unit {0})
check_request intent risk price at = do
  raise_if (not (is_market intent.order_type)) not_a_market_order
  raise_if (not (risk.decision.order_intent_id == intent.intent_id)) foreign_decision
  raise_if (not (may_trade risk.decision.outcome)) no_risk_approval
  raise_if
      (leb_ℤ risk.decision.approved_quantity (pos 0)
        || ltb_ℤ intent.quantity risk.decision.approved_quantity)
      bad_approved_quantity
  raise_if (leb_ℤ price (pos 0)) nonpositive_price
  raise_if (is_naive at) naive_time

abbrev pub fill_price : Broker → Side → ℤ → ℤ
fill_price b side price =
    let a = b.arithmetic in
    a.mul price (
      a.whole (pos 1)
      +ℤ a.div (a.mul (signed side (a.whole (pos 1))) b.slippage_bps) (a.whole (pos 10000)))

-- The branch of `_update_position` for a fill against the position.
abbrev pub reduced : Arithmetic → Position → ℤ → ℤ → Position
reduced a p delta price =
    let closed = min_ℤ (abs p.quantity) (abs delta) in
    let sign = if ltb_ℤ (pos 0) p.quantity then a.whole (pos 1) else neg (a.whole (pos 1)) in
    let left = p.quantity +ℤ delta in
    record {
      quantity = left;
      average_price =
          if left ==ℤ pos 0
          then pos 0
          else if (ltb_ℤ (pos 0) left) ≠b (ltb_ℤ (pos 0) p.quantity)
          then price
          else p.average_price;
      realized_pnl = p.realized_pnl +ℤ a.mul (a.mul (price -ℤ p.average_price) closed) sign;
    }

abbrev pub extended : Arithmetic → Position → ℤ → ℤ → Position
extended a p delta price = record {
  quantity = p.quantity +ℤ delta;
  average_price =
      a.div (a.mul (abs p.quantity) p.average_price +ℤ a.mul (abs delta) price)
        (abs p.quantity +ℤ abs delta);
  realized_pnl = p.realized_pnl;
}

abbrev pub same_direction : ℤ → ℤ → Bool
same_direction old delta = old ==ℤ pos 0 || not ((ltb_ℤ (pos 0) old) ≠b (ltb_ℤ (pos 0) delta))

-- The row that `_update_position` leaves.
unfoldable pub updated_position : Arithmetic → Option Position → ℤ → ℤ → ℤ → Position
updated_position a none delta price charges = record {
  quantity = delta;
  average_price = price;
  realized_pnl = neg charges;
}
updated_position a (some p) delta price charges =
    let moved =
      if same_direction p.quantity delta
      then extended a p delta price
      else reduced a p delta price in
    record moved { realized_pnl = moved.realized_pnl -ℤ charges }

abbrev pub new_order : OrderIntent → IssuedDecision → ℕ → ℤ → ℤ → ℕ → PaperOrder
new_order intent risk fresh price charges t = record {
  order_id = fresh;
  account_id = intent.account_id;
  instrument_id = intent.instrument_id;
  intent_id = intent.intent_id;
  risk_decision_id = risk.decision_id;
  idempotency_key = intent.idempotency_key;
  side = intent.side;
  order_type = intent.order_type;
  status = filled;
  quantity = risk.decision.approved_quantity;
  filled_quantity = risk.decision.approved_quantity;
  average_price = price;
  charges = charges;
  filled_at = t;
}

-- The rows that a fill writes.
unfoldable pub write_fill : Broker → PaperOrder → Ledger → Tables → Tables
write_fill b o ledger db =
    let a = b.arithmetic in
    let place : ℕ × ℕ = (o.account_id, o.instrument_id) in
    let flow = a.mul o.average_price o.quantity in
    record {
      orders = o ∷ db.orders;
      fills =
          record {
            fill_order_id = o.order_id;
            fill_quantity = o.quantity;
            price = o.average_price;
            fill_charges = o.charges;
            fill_time = o.filled_at;
          }
          ∷ db.fills;
      order_events =
          record {
            event_order_id = o.order_id;
            occurred_at = o.filled_at;
            event_status = filled;
            event_decision_id = o.risk_decision_id;
          }
          ∷ db.order_events;
      positions =
          insert place
            (updated_position a (lookup place db.positions) (signed o.side o.quantity)
              o.average_price o.charges)
            db.positions;
      ledgers =
          insert o.account_id
            (record ledger {
              cash_balance = ledger.cash_balance +ℤ (neg (signed o.side flow) -ℤ o.charges);
            })
            db.ledgers;
      snapshots = db.snapshots;
    }

-- After the tests and the look for a duplicate.
unfoldable pub fill_order :
    Broker
    → OrderIntent
    → IssuedDecision
    → ℤ
    → ℕ
    → ℕ
    → Tables
    → Result PaperError Execution × Tables
fill_order b intent risk price t fresh db = elim (lookup intent.account_id db.ledgers) [
  | none ↦ (err no_ledger, db)
  | some ledger ↦
      let p = fill_price b intent.side price in
      elim (b.cost_model (b.arithmetic.mul p risk.decision.approved_quantity) intent.side) [
        | err x ↦ (err (cost_error x), db)
        | ok charges ↦
            let o = new_order intent risk fresh p charges t in
            (ok (execution o false), write_fill b o ledger db)
      ]
]

unfoldable pub execute_market :
    Broker
    → OrderIntent
    → IssuedDecision
    → ℤ
    → DateTime
    → ℕ
    → Tables
    → Result PaperError Execution × Tables
execute_market b intent risk price at fresh db = elim (check_request intent risk price at) [
  | err x ↦ (err x, db)
  | ok _ ↦ elim (find_order intent.account_id intent.idempotency_key db.orders) [
    | some o ↦ (ok (execution o true), db)
    | none ↦ fill_order b intent risk price (instant at) fresh db
  ]
]
