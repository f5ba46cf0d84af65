-- ===== src/Risk/Engine.antt =====
-- packages/risk_engine/engine.py: `evaluate_order_risk`. A reason code is its constructor; the
-- decision's own checks cannot fail, since no approved quantity is negative (`Decisions`).
pub mod Decisions
pub mod Exits
pub mod Entries
use mytradingsystem.Risk.Limits.{RiskLimits, PortfolioRiskContext}
use mytradingsystem.Domain.{
  OrderIntent, Side, buy, sell, same_side, RiskOutcome, approve, resize, reject,
}
use mytradingsystem.Base.{
  Arithmetic, Bool, ℕ, ℤ, pos, ◌+ℤ◌, ◌-ℤ◌, neg, abs, List, [], ◌∷◌, Option, none, some, String,
  DateTime, instant, ltb, ltb_ℤ, leb_ℤ, ◌==ℤ◌, min_ℤ, max_ℤ, not, ◌||◌, ◌&&◌, ◌+◌, ◌*◌, false,
  if◌then◌else◌, second, is_empty, pos_part,
}

pub data ReasonCode : Type 0 where
  invalid_capital_or_price invalid_quote no_position_to_exit exit_increases_position : ReasonCode
  exit_approved exit_resized_to_position kill_switch broker_disconnected : ReasonCode
  reconciliation_uncertain data_quality_lock outside_trading_session event_risk : ReasonCode
  stale_quote abnormal_spread maximum_daily_loss maximum_weekly_loss maximum_drawdown : ReasonCode
  maximum_positions maximum_net maximum_order_rate : ReasonCode
  consecutive_loss_circuit_breaker slippage_threshold maximum_options : ReasonCode
  maximum_delta maximum_gamma risk_cooldown stop_required : ReasonCode
  invalid_stop_distance maximum_gross maximum_sector maximum_allocation : ReasonCode
  no_exposure_capacity position_size_reduced fully_approved : ReasonCode

pub record Request : Type 0 where
  pub intent : OrderIntent
  pub context : PortfolioRiskContext
  pub limits : RiskLimits
  pub reference_price : ℤ
  pub stop_price : Option ℤ

pub record RiskDecision : Type 0 where
  pub order_intent_id : ℕ
  pub timestamp : ℕ
  pub outcome : RiskOutcome
  pub approved_quantity : ℤ
  pub reason_codes : List ReasonCode
  pub risk_policy_version : String

-- A decision with its `id`, a fresh UUID.
pub record IssuedDecision : Type 0 where
  pub decision_id : ℕ
  pub decision : RiskDecision

-- `_decision`
abbrev pub decision : Request → RiskOutcome → ℤ → List ReasonCode → RiskDecision
decision r outcome quantity reasons = record {
  order_intent_id = r.intent.intent_id;
  timestamp = instant r.context.evaluated_at;
  outcome = outcome;
  approved_quantity = quantity;
  reason_codes = reasons;
  risk_policy_version = r.limits.policy_version;
}

abbrev pub refuse : Request → List ReasonCode → RiskDecision
refuse r reasons = decision r reject (pos 0) reasons

-- The names whose test holds, in order.
abbrev pub names_where : List (Bool × ReasonCode) → List ReasonCode
names_where [] = []
names_where ((test, name) ∷ rest) =
    let names = names_where rest in if test then name ∷ names else names

abbrev pub closing_side : ℤ → Side
closing_side position = if ltb_ℤ (pos 0) position then sell else buy

-- The branch `if intent.is_exit`.
unfoldable pub evaluate_exit : Request → RiskDecision
evaluate_exit r =
    let available = abs r.context.current_position_quantity in
    if leb_ℤ available (pos 0)
    then refuse r (no_position_to_exit ∷ [])
    else if not (same_side r.intent.side (closing_side r.context.current_position_quantity))
    then refuse r (exit_increases_position ∷ [])
    else let quantity = min_ℤ r.intent.quantity available in
      if quantity ==ℤ r.intent.quantity
      then decision r approve quantity (exit_approved ∷ [])
      else decision r resize quantity (exit_resized_to_position ∷ [])

-- The age in microseconds against the limit in seconds: `total_seconds` is exact for any age below
-- 285 years.
abbrev pub quote_is_stale : PortfolioRiskContext → RiskLimits → Bool
quote_is_stale c l =
    ltb (instant c.evaluated_at) (instant c.quote_timestamp)
    || ltb (instant c.quote_timestamp + pos_part l.maximum_quote_age_seconds * second)
        (instant c.evaluated_at)

abbrev pub in_cooldown : PortfolioRiskContext → Option DateTime → Bool
in_cooldown c none = false
in_cooldown c (some t) = ltb (instant c.evaluated_at) (instant t)

module _ (a : Arithmetic) where
  abbrev pub spread_bps : PortfolioRiskContext → ℤ
  spread_bps c =
      a.mul (a.div (c.ask -ℤ c.bid) (a.div (c.bid +ℤ c.ask) (a.whole (pos 2))))
        (a.whole (pos 10000))

  -- The entry locks, each with the test that adds it.
  abbrev pub lock_tests : PortfolioRiskContext → RiskLimits → List (Bool × ReasonCode)
  lock_tests c l =
      (c.kill_switch_enabled, kill_switch)
      ∷ (not c.broker_connected, broker_disconnected)
      ∷ (not c.reconciliation_ok, reconciliation_uncertain)
      ∷ (not c.data_quality_ok, data_quality_lock)
      ∷ (not c.trading_session_open, outside_trading_session)
      ∷ (c.event_risk_lock, event_risk)
      ∷ (quote_is_stale c l, stale_quote)
      ∷ (ltb_ℤ l.maximum_spread_bps (spread_bps c), abnormal_spread)
      ∷ (leb_ℤ c.daily_pnl (neg (a.mul c.equity l.maximum_daily_loss_fraction)), maximum_daily_loss)
      ∷ (
        leb_ℤ c.weekly_pnl (neg (a.mul c.equity l.maximum_weekly_loss_fraction)),
        maximum_weekly_loss,
      )
      ∷ (leb_ℤ l.maximum_drawdown_fraction c.drawdown_fraction, maximum_drawdown)
      ∷ (leb_ℤ l.maximum_open_positions c.open_positions, maximum_positions)
      ∷ (leb_ℤ (a.mul c.equity l.maximum_net_exposure_fraction) (abs c.net_exposure), maximum_net)
      ∷ (leb_ℤ l.maximum_orders_per_minute c.orders_last_minute, maximum_order_rate)
      ∷ (leb_ℤ l.maximum_consecutive_losses c.consecutive_losses, consecutive_loss_circuit_breaker)
      ∷ (ltb_ℤ l.maximum_slippage_bps c.expected_slippage_bps, slippage_threshold)
      ∷ (
        ltb_ℤ l.maximum_options_exposure (c.options_exposure +ℤ c.proposed_options_exposure),
        maximum_options,
      )
      ∷ (
        ltb_ℤ l.maximum_portfolio_delta (abs (c.portfolio_delta +ℤ c.proposed_delta)),
        maximum_delta,
      )
      ∷ (
        ltb_ℤ l.maximum_portfolio_gamma (abs (c.portfolio_gamma +ℤ c.proposed_gamma)),
        maximum_gamma,
      )
      ∷ (in_cooldown c c.cooldown_until, risk_cooldown)
      ∷ []

  unfoldable pub locks : PortfolioRiskContext → RiskLimits → List ReasonCode
  locks c l = names_where (lock_tests c l)

  abbrev pub signed_notional : Side → ℤ → ℤ
  signed_notional buy n = n
  signed_notional sell n = neg n

  abbrev pub notional : Request → ℤ
  notional r = a.mul r.intent.quantity r.reference_price

  -- The projected exposures against their ceilings.
  abbrev pub projected_tests : Request → List (Bool × ReasonCode)
  projected_tests r =
      let c = r.context in
      let l = r.limits in
      let n = notional r in
      (
        ltb_ℤ (a.mul c.equity l.maximum_gross_exposure_fraction) (c.gross_exposure +ℤ n),
        maximum_gross,
      )
      ∷ (
        ltb_ℤ (a.mul c.equity l.maximum_sector_exposure_fraction) (c.sector_exposure +ℤ n),
        maximum_sector,
      )
      ∷ (
        ltb_ℤ (a.mul c.equity l.maximum_strategy_allocation_fraction) (c.strategy_exposure +ℤ n),
        maximum_allocation,
      )
      ∷ (
        ltb_ℤ (a.mul c.equity l.maximum_net_exposure_fraction)
            (abs (c.net_exposure +ℤ signed_notional r.intent.side n)),
        maximum_net,
      )
      ∷ []

  unfoldable pub exceeded : Request → List ReasonCode
  exceeded r = names_where (projected_tests r)

  abbrev pub risk_quantity : Request → ℤ → ℤ
  risk_quantity r distance =
      a.div (a.mul r.context.equity r.limits.maximum_risk_per_trade_fraction) distance

  abbrev pub exposure_quantity : Request → ℤ
  exposure_quantity r =
      let ceiling = a.mul r.context.equity r.limits.maximum_instrument_exposure_fraction in
      a.div (max_ℤ (pos 0) (ceiling -ℤ abs r.context.instrument_exposure)) r.reference_price

  abbrev pub sized : Request → ℤ → ℤ
  sized r distance =
      min_ℤ r.intent.quantity (min_ℤ (risk_quantity r distance) (exposure_quantity r))

  -- From the stop distance on.
  unfoldable pub size_entry : Request → ℤ → RiskDecision
  size_entry r distance =
      if leb_ℤ distance (pos 0)
      then refuse r (invalid_stop_distance ∷ [])
      else if not (is_empty (exceeded r))
      then refuse r (exceeded r)
      else let approved = sized r distance in
        if leb_ℤ approved (pos 0)
        then refuse r (no_exposure_capacity ∷ [])
        else if ltb_ℤ approved r.intent.quantity
        then decision r resize approved (position_size_reduced ∷ [])
        else decision r approve approved (fully_approved ∷ [])

  -- The entry branch.
  unfoldable pub evaluate_entry : Request → RiskDecision
  evaluate_entry r =
      if not (is_empty (locks r.context r.limits))
      then refuse r (locks r.context r.limits)
      else elim r.stop_price [
        | none ↦ refuse r (stop_required ∷ [])
        | some stop ↦ size_entry r (abs (r.reference_price -ℤ stop))
      ]

  unfoldable pub evaluate_order_risk : Request → RiskDecision
  evaluate_order_risk r =
      if leb_ℤ r.context.equity (pos 0) || leb_ℤ r.reference_price (pos 0)
      then refuse r (invalid_capital_or_price ∷ [])
      else if leb_ℤ r.context.bid (pos 0) || ltb_ℤ r.context.ask r.context.bid
      then refuse r (invalid_quote ∷ [])
      else if r.intent.is_exit
      then evaluate_exit r
      else evaluate_entry r
