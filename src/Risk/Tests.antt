-- ===== src/Risk/Tests.antt =====
-- The evaluation of concrete requests in hundredths, and the theorems at requests that meet their
-- hypotheses.
use mytradingsystem.Base.{
  Bool, hundredths, is_blank, ℤ, pos, abs, min_ℤ, ◌+ℤ◌, ◌-ℤ◌, ◌≡◌, ◌≢◌, aware, true, false, ok,
  none, some, [], ◌∷◌, arith, refl,
}
use mytradingsystem.Domain.{Side, OrderIntent, market, buy, sell, approve, resize, reject}
use mytradingsystem.Risk.Limits.{RiskLimits, PortfolioRiskContext, check_limits, check_context}
use mytradingsystem.Risk.Engine.{
  Request, evaluate_order_risk, evaluate_exit, evaluate_entry, size_entry, locks, exceeded,
  decision, refuse, exit_resized_to_position, fully_approved, kill_switch,
}
use mytradingsystem.Risk.Engine.Exits.{Priced, after_fill, exit-closes, exit-shrinks}
use mytradingsystem.Risk.Engine.Entries.{Allowed, evaluate-Allowed}

abbrev pub limits : RiskLimits
limits = record {
  policy_version = "v1";
  maximum_risk_per_trade_fraction = pos 1;
  maximum_daily_loss_fraction = pos 3;
  maximum_open_positions = pos 5;
  maximum_instrument_exposure_fraction = pos 50;
  maximum_quote_age_seconds = pos 5;
  maximum_spread_bps = pos 10000;
  maximum_weekly_loss_fraction = pos 100;
  maximum_drawdown_fraction = pos 100;
  maximum_gross_exposure_fraction = pos 100;
  maximum_net_exposure_fraction = pos 100;
  maximum_orders_per_minute = pos 10;
  maximum_consecutive_losses = pos 4;
  maximum_sector_exposure_fraction = pos 100;
  maximum_strategy_allocation_fraction = pos 100;
  maximum_slippage_bps = pos 10000;
  maximum_options_exposure = pos 100000;
  maximum_portfolio_delta = pos 100000;
  maximum_portfolio_gamma = pos 100000;
}

limits_pass : check_limits hundredths limits ≡ ok limits
unfolding check_limits is_blank
limits_pass = refl

abbrev pub context : PortfolioRiskContext
context = record {
  evaluated_at = aware 2000000;
  equity = pos 10000000;
  daily_pnl = pos 0;
  open_positions = pos 1;
  instrument_exposure = pos 0;
  current_position_quantity = pos 700;
  quote_timestamp = aware 1000000;
  bid = pos 9990;
  ask = pos 10010;
  broker_connected = true;
  data_quality_ok = true;
  trading_session_open = true;
  event_risk_lock = false;
  kill_switch_enabled = false;
  weekly_pnl = pos 0;
  drawdown_fraction = pos 0;
  gross_exposure = pos 0;
  net_exposure = pos 0;
  orders_last_minute = pos 0;
  consecutive_losses = pos 0;
  sector_exposure = pos 0;
  strategy_exposure = pos 0;
  expected_slippage_bps = pos 0;
  cooldown_until = none;
  reconciliation_ok = true;
  options_exposure = pos 0;
  proposed_options_exposure = pos 0;
  portfolio_delta = pos 0;
  proposed_delta = pos 0;
  portfolio_gamma = pos 0;
  proposed_gamma = pos 0;
}

context_passes : check_context context ≡ ok context
unfolding check_context
context_passes = refl

abbrev pub intent_of : Side → Bool → OrderIntent
intent_of side is_exit = record {
  intent_id = 3;
  idempotency_key = "intent-3";
  decision_id = 2;
  account_id = 1;
  instrument_id = 5;
  side = side;
  order_type = market;
  quantity = pos 1000;
  limit_price = none;
  trigger_price = none;
  created_at = 900000;
  is_exit = is_exit;
}

abbrev pub entry : Request
entry = record {
  intent = intent_of buy false;
  context = context;
  limits = limits;
  reference_price = pos 10000;
  stop_price = some (pos 9900);
}

-- An entry of ten units passes whole.
entry-decision :
    evaluate_order_risk hundredths entry ≡ decision entry approve (pos 1000) (fully_approved ∷ [])
unfolding evaluate_order_risk evaluate_entry size_entry locks exceeded ◌+ℤ◌ ◌-ℤ◌
entry-decision = refl

-- The same entry under the kill switch.
abbrev pub killed : Request
killed = record entry { context = record context { kill_switch_enabled = true } }

killed_decision : evaluate_order_risk hundredths killed ≡ refuse killed (kill_switch ∷ [])
unfolding evaluate_order_risk evaluate_entry size_entry locks exceeded ◌+ℤ◌ ◌-ℤ◌
killed_decision = refl

-- An exit of ten units from a position of seven, under the kill switch.
abbrev exit : Request
exit = record killed { intent = intent_of sell true }

exit-decision :
    evaluate_order_risk hundredths exit
    ≡ decision exit resize (pos 700) (exit_resized_to_position ∷ [])
unfolding evaluate_order_risk evaluate_exit
exit-decision = refl

entry_passes : (evaluate_order_risk hundredths entry).outcome ≢ reject
unfolding evaluate_order_risk evaluate_entry size_entry locks exceeded ◌+ℤ◌ ◌-ℤ◌
entry_passes h = ground (arith, h)

exit_passes : (evaluate_order_risk hundredths exit).outcome ≢ reject
unfolding evaluate_order_risk evaluate_exit
exit_passes h = ground (arith, h)

exit-Priced : Priced exit
exit-Priced = record {
  equity = omega arith;
  reference = omega arith;
  bid = omega arith;
  ask = omega arith;
}

exit-closes_example :
    ((evaluate_order_risk hundredths exit).outcome ≢ reject)
    × ((evaluate_order_risk hundredths exit).approved_quantity ≡ min_ℤ (pos 1000) (abs (pos 700)))
exit-closes_example = exit-closes hundredths exit exit-Priced refl (omega arith) (omega arith) refl

exit-shrinks_example :
    abs (after_fill sell (evaluate_order_risk hundredths exit).approved_quantity (pos 700))
      +ℤ (evaluate_order_risk hundredths exit).approved_quantity
    ≡ abs (pos 700)
exit-shrinks_example = exit-shrinks hundredths exit refl (omega arith) exit_passes

evaluate-Allowed_example :
    (stop : ℤ) × Allowed hundredths entry stop
      (evaluate_order_risk hundredths entry).approved_quantity
evaluate-Allowed_example = evaluate-Allowed hundredths entry refl entry_passes
