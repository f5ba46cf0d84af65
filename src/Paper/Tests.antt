-- ===== src/Paper/Tests.antt =====
-- A paper account in hundredths: opened, one order filled and repeated, and valued.
use mytradingsystem.Base.{
  hundredths, ℕ, ℤ, pos, negsuc, neg, ◌+ℤ◌, ◌-ℤ◌, ◌≡◌, ok, none, some, true, false, [], ◌∷◌, aware,
  ◌-◌, ◌%◌, suc, refl, arith, lookup, insert, pair_keys, nat_keys, Dict, ap, is_blank,
}
use mytradingsystem.Domain.{OrderIntent, buy, market, approve, filled}
use mytradingsystem.Risk.Engine.{IssuedDecision, RiskDecision, fully_approved}
use mytradingsystem.Backtesting.Costs.{
  generic_cost, ChargeSchedule, equity_intraday, check_schedule, breakdown, charges_on,
}
use mytradingsystem.Backtesting.Costs.Bounds.{KeepsSign}
use mytradingsystem.Paper.Tables.{Tables}
use mytradingsystem.Paper.Broker.{
  Broker, execute_market, initialize_account, check_request, find_order, fill_order, write_fill,
  updated_position,
}
use mytradingsystem.Paper.Broker.Effects.{execute-execute_idem}
use mytradingsystem.Paper.Broker.Accounts.{Balanced}
use mytradingsystem.Paper.Valuation.{mark_to_market, mark_all, mark_one, store_snapshot, Portfolio}
use mytradingsystem.Paper.Valuation.Equity.{Valued, mark-Valued}
use mytradingsystem.Paper.Columns.{Columns, reread, Fits}
use mytradingsystem.Paper.Runs.{Runs, no_rows, start, opens, executes, rereads, Runs-Balanced}

-- Ten basis points of costs, a hundred of slippage.
abbrev desk : Broker
desk = record {
  arithmetic = hundredths;
  cost_model = generic_cost hundredths (pos 1000) (pos 0);
  slippage_bps = pos 10000;
}

abbrev intent : OrderIntent
intent = record {
  intent_id = 3;
  idempotency_key = "intent-3";
  decision_id = 2;
  account_id = 1;
  instrument_id = 5;
  side = buy;
  order_type = market;
  quantity = pos 1000;
  limit_price = none;
  trigger_price = none;
  created_at = 900000;
  is_exit = false;
}

abbrev decision_of : RiskDecision
decision_of = record {
  order_intent_id = 3;
  timestamp = 900000;
  outcome = approve;
  approved_quantity = pos 1000;
  reason_codes = fully_approved ∷ [];
  risk_policy_version = "v1";
}

abbrev risk : IssuedDecision
risk = record { decision_id = 8; decision = decision_of }

abbrev opened : Tables
opened = (initialize_account 1 (pos 10000000) no_rows).1

abbrev traded : Tables
traded = (execute_market desk intent risk (pos 10000) (aware 1000000) 40 opened).1

trade :
    (execute_market desk intent risk (pos 10000) (aware 1000000) 40 opened).0
    ≡ ok (record {
      order_id = 40;
      status = filled;
      filled_quantity = pos 1000;
      average_price = pos 10100;
      charges = pos 101;
      duplicate = false;
    })
unfolding execute_market check_request initialize_account find_order fill_order generic_cost lookup
    insert write_fill ◌+ℤ◌
trade = refl

traded_position :
    lookup (1, 5) traded.positions
    ≡ some (record { quantity = pos 1000; average_price = pos 10100; realized_pnl = neg (pos 101) })
unfolding execute_market check_request initialize_account find_order fill_order generic_cost lookup
    insert write_fill updated_position ◌+ℤ◌ ◌-ℤ◌
traded_position = refl

trade_done : execute_market desk intent risk (pos 10000) (aware 1000000) 40 opened ≡ (
  ok (record {
    order_id = 40;
    status = filled;
    filled_quantity = pos 1000;
    average_price = pos 10100;
    charges = pos 101;
    duplicate = false;
  }),
  traded,
)
trade_done = ap (λ x. (x, traded)) trade

passes_again : check_request intent risk (pos 12000) (aware 2000000) ≡ ok tt
unfolding check_request
passes_again = refl

execute-execute_idem_example :
    execute_market desk intent risk (pos 12000) (aware 2000000) 41 traded ≡ (
      ok (record {
        order_id = 40;
        status = filled;
        filled_quantity = pos 1000;
        average_price = pos 10100;
        charges = pos 101;
        duplicate = true;
      }),
      traded,
    )
execute-execute_idem_example =
    execute-execute_idem desk desk intent risk risk (pos 10000) (pos 12000) (aware 1000000)
      (aware 2000000) 40 41 opened trade_done passes_again

abbrev to_tenths : ℤ → ℤ
to_tenths (pos n) = pos (n - n % 10)
to_tenths (negsuc n) = neg (pos (suc n - suc n % 10))

-- Ten times the quantity, whose charges are in tenths, and columns that keep tenths.
abbrev tenths : Columns
tenths = record { eight = to_tenths; twelve = to_tenths }

abbrev large_intent : OrderIntent
large_intent = record intent { quantity = pos 10000 }

abbrev large_risk : IssuedDecision
large_risk = record risk { decision = record decision_of { approved_quantity = pos 10000 } }

abbrev large_trade : Tables
large_trade = (execute_market desk large_intent large_risk (pos 10000) (aware 1000000) 40 opened).1

large_trade-Fits : Fits tenths large_trade
unfolding execute_market check_request initialize_account find_order fill_order generic_cost lookup
    insert write_fill updated_position ◌+ℤ◌ ◌-ℤ◌
large_trade-Fits = record {
  orders_fit = ((refl, refl, refl, refl), _);
  ledgers_fit = ((refl, refl), _);
  positions_fit = (refl, _);
}

-- The rows are read back and the order is sent again.
abbrev traded_run :
    Runs hundredths tenths
      (execute_market desk large_intent large_risk
        (pos 10001)
        (aware 2000000)
        41
        (reread tenths large_trade)).1
traded_run =
    executes (reread tenths large_trade) desk large_intent large_risk (pos 10001) (aware 2000000) 41
      refl
      (rereads large_trade-Fits (
        executes opened desk large_intent large_risk (pos 10000) (aware 1000000) 40 refl
          (opens 1 (pos 10000000) start)))

Runs-Balanced_example :
    Balanced hundredths
      (execute_market desk large_intent large_risk
        (pos 10001)
        (aware 2000000)
        41
        (reread tenths large_trade)).1
Runs-Balanced_example = Runs-Balanced hundredths tenths traded_run

abbrev prices : Dict ℕ ℤ
prices = (5, pos 9000) ∷ []

valuation :
    (p : Portfolio) × (db : Tables) × (mark_to_market hundredths 1 prices (aware 3000000) traded
      ≡ (ok p, db))
    × (p.snapshot.equity ≡ pos 9988899)
    × (p.snapshot.unrealized_pnl ≡ negsuc 10999)
unfolding mark_to_market mark_all mark_one store_snapshot execute_market check_request
    initialize_account find_order fill_order generic_cost lookup insert write_fill updated_position
    ◌+ℤ◌ ◌-ℤ◌
valuation = (_, _, refl, refl, refl)

mark-Valued_example : Valued hundredths 1 prices valuation.0 traded valuation.1
mark-Valued_example = mark-Valued hundredths 1 prices (aware 3000000) traded valuation.2

hundredths-KeepsSign : KeepsSign hundredths
hundredths-KeepsSign (pos n) (pos m) h k = ground arith
hundredths-KeepsSign (pos n) (negsuc m) h k = absurd (omega arith)
hundredths-KeepsSign (negsuc n) y h k = absurd (omega arith)

abbrev schedule : ChargeSchedule
schedule = record {
  name = "intraday";
  effective_from = 0;
  product = equity_intraday;
  brokerage_rate = pos 3;
  brokerage_cap_per_order = some (pos 2000);
  exchange_transaction_rate = pos 1;
  sebi_turnover_rate = pos 0;
  gst_rate = pos 18;
  stt_buy_rate = pos 0;
  stt_sell_rate = pos 2;
  stamp_duty_buy_rate = pos 1;
  ipft_rate = pos 0;
}

schedule_passes : check_schedule schedule ≡ ok schedule
unfolding check_schedule is_blank
schedule_passes = refl

schedule_charges :
    breakdown hundredths schedule (pos 1000000) buy
    ≡ ok (charges_on hundredths schedule (pos 1000000) buy)
unfolding breakdown
schedule_charges = refl
