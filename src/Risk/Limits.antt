-- ===== src/Risk/Limits.antt =====
-- packages/risk_engine/engine.py: the limits and the portfolio context, with what their
-- `__post_init__` refuses. A field with a default is given like the others.
use mytradingsystem.Base.{
  Arithmetic, Bool, ℤ, pos, List, [], ◌∷◌, String, Option, none, some, DateTime, is_naive, Result,
  ok, ◌>>◌, raise_if, any, leb_ℤ, ltb_ℤ, min_ℤ, is_blank, ◌||◌, false,
}

pub data RiskError : Type 0 where
  empty_policy_version bad_fraction bad_integer_limit negative_bps bad_options_limit : RiskError
  naive_risk_time negative_counter negative_drawdown negative_slippage : RiskError
  negative_options_exposure naive_cooldown : RiskError

pub record RiskLimits : Type 0 where
  pub policy_version : String
  pub maximum_risk_per_trade_fraction : ℤ
  pub maximum_daily_loss_fraction : ℤ
  pub maximum_open_positions : ℤ
  pub maximum_instrument_exposure_fraction : ℤ
  pub maximum_quote_age_seconds : ℤ
  pub maximum_spread_bps : ℤ
  pub maximum_weekly_loss_fraction : ℤ
  pub maximum_drawdown_fraction : ℤ
  pub maximum_gross_exposure_fraction : ℤ
  pub maximum_net_exposure_fraction : ℤ
  pub maximum_orders_per_minute : ℤ
  pub maximum_consecutive_losses : ℤ
  pub maximum_sector_exposure_fraction : ℤ
  pub maximum_strategy_allocation_fraction : ℤ
  pub maximum_slippage_bps : ℤ
  pub maximum_options_exposure : ℤ
  pub maximum_portfolio_delta : ℤ
  pub maximum_portfolio_gamma : ℤ

abbrev pub fractions : RiskLimits → List ℤ
fractions l =
    l.maximum_risk_per_trade_fraction ∷ l.maximum_daily_loss_fraction
    ∷ l.maximum_instrument_exposure_fraction ∷ l.maximum_weekly_loss_fraction
    ∷ l.maximum_drawdown_fraction ∷ l.maximum_gross_exposure_fraction
    ∷ l.maximum_net_exposure_fraction ∷ l.maximum_sector_exposure_fraction
    ∷ l.maximum_strategy_allocation_fraction ∷ []

abbrev pub integer_limits : RiskLimits → List ℤ
integer_limits l =
    l.maximum_open_positions ∷ l.maximum_quote_age_seconds ∷ l.maximum_orders_per_minute
    ∷ l.maximum_consecutive_losses ∷ []

-- `RiskLimits.__post_init__`
unfoldable pub check_limits : Arithmetic → RiskLimits → Result RiskError RiskLimits
check_limits a l = do
  raise_if (is_blank l.policy_version) empty_policy_version
  raise_if (any (λ x. leb_ℤ x (pos 0) || ltb_ℤ (a.whole (pos 1)) x) (fractions l)) bad_fraction
  raise_if (any (λ x. leb_ℤ x (pos 0)) (integer_limits l)) bad_integer_limit
  raise_if (ltb_ℤ l.maximum_spread_bps (pos 0) || ltb_ℤ l.maximum_slippage_bps (pos 0)) negative_bps
  raise_if
      (leb_ℤ
        (min_ℤ l.maximum_options_exposure
          (min_ℤ l.maximum_portfolio_delta l.maximum_portfolio_gamma))
        (pos 0))
      bad_options_limit
  ok l

pub record PortfolioRiskContext : Type 0 where
  pub evaluated_at : DateTime
  pub equity : ℤ
  pub daily_pnl : ℤ
  pub open_positions : ℤ
  pub instrument_exposure : ℤ
  pub current_position_quantity : ℤ
  pub quote_timestamp : DateTime
  pub bid : ℤ
  pub ask : ℤ
  pub broker_connected : Bool
  pub data_quality_ok : Bool
  pub trading_session_open : Bool
  pub event_risk_lock : Bool
  pub kill_switch_enabled : Bool
  pub weekly_pnl : ℤ
  pub drawdown_fraction : ℤ
  pub gross_exposure : ℤ
  pub net_exposure : ℤ
  pub orders_last_minute : ℤ
  pub consecutive_losses : ℤ
  pub sector_exposure : ℤ
  pub strategy_exposure : ℤ
  pub expected_slippage_bps : ℤ
  pub cooldown_until : Option DateTime
  pub reconciliation_ok : Bool
  pub options_exposure : ℤ
  pub proposed_options_exposure : ℤ
  pub portfolio_delta : ℤ
  pub proposed_delta : ℤ
  pub portfolio_gamma : ℤ
  pub proposed_gamma : ℤ

abbrev pub cooldown_is_naive : Option DateTime → Bool
cooldown_is_naive none = false
cooldown_is_naive (some t) = is_naive t

-- `PortfolioRiskContext.__post_init__`
unfoldable pub check_context : PortfolioRiskContext → Result RiskError PortfolioRiskContext
check_context c = do
  raise_if (is_naive c.evaluated_at || is_naive c.quote_timestamp) naive_risk_time
  raise_if
      (ltb_ℤ (min_ℤ c.open_positions (min_ℤ c.orders_last_minute c.consecutive_losses)) (pos 0))
      negative_counter
  raise_if (ltb_ℤ c.drawdown_fraction (pos 0)) negative_drawdown
  raise_if (ltb_ℤ c.expected_slippage_bps (pos 0)) negative_slippage
  raise_if (ltb_ℤ c.options_exposure (pos 0) || ltb_ℤ c.proposed_options_exposure (pos 0))
      negative_options_exposure
  raise_if (cooldown_is_naive c.cooldown_until) naive_cooldown
  ok c
