-- ===== src/Backtesting/Policy.antt =====
-- packages/backtesting/engine.py: the configuration, and `FixedFractionRiskPolicy`. A quotient by zero,
-- on which `decimal` raises, is what the arithmetic gives.
pub mod Sizing
use mytradingsystem.Base.{
  Arithmetic, Bool, List, false, true, ℤ, Option, Result, [], if◌then◌else◌, leb_ℤ, min_ℤ, pos, ◌∷◌,
  ltb_ℤ, none, not, some, ◌>>=◌, ◌>>◌, abs, raise_if, ◌-ℤ◌, any, ◌||◌, err, ok,
}
use mytradingsystem.Domain.{SignalAction, long, short}
use mytradingsystem.Decision.{DecisionResult}
use mytradingsystem.Backtesting.Costs.{CostError}

pub data BacktestError : Type 0 where
  capital_not_positive negative_cost_input bad_notional_fraction bad_annualization : BacktestError
  open_candle mixed_candles not_chronological : BacktestError
  no_cost : CostError → BacktestError

pub record BacktestConfig : Type 0 where
  pub initial_capital : ℤ
  pub slippage_bps : ℤ
  pub variable_cost_bps : ℤ
  pub flat_cost_per_order : ℤ
  pub maximum_position_notional_fraction : ℤ
  pub annualization_sessions : ℤ

-- `BacktestConfig.__post_init__`
unfoldable pub check_config : Arithmetic → BacktestConfig → Result BacktestError BacktestConfig
check_config a c = do
  raise_if (leb_ℤ c.initial_capital (pos 0)) capital_not_positive
  raise_if
      (any (λ x. ltb_ℤ x (pos 0))
        (c.slippage_bps ∷ c.variable_cost_bps ∷ c.flat_cost_per_order ∷ []))
      negative_cost_input
  raise_if
      (leb_ℤ c.maximum_position_notional_fraction (pos 0)
        || ltb_ℤ (a.whole (pos 1)) c.maximum_position_notional_fraction)
      bad_notional_fraction
  raise_if (leb_ℤ c.annualization_sessions (pos 0)) bad_annualization
  ok c

pub data PolicyReason : Type 0 where
  decision_not_entry invalid_risk_request stop_invalid_at_fill target_invalid_at_fill : PolicyReason
  invalid_stop_distance quantity_below_one approved : PolicyReason

-- `BacktestRiskDecision`
pub record PolicyDecision : Type 0 where
  pub is_approved : Bool
  pub quantity : ℤ
  pub reason : PolicyReason

-- The protocol `BacktestRiskPolicy`: a decision, the equity and the fill price.
abbrev pub RiskPolicy : Type 0
RiskPolicy = DecisionResult → ℤ → ℤ → PolicyDecision

pub record FixedFraction : Type 0 where
  pub maximum_risk_fraction : ℤ
  pub maximum_notional_fraction : ℤ

abbrev pub declined : PolicyReason → PolicyDecision
declined reason = record { is_approved = false; quantity = pos 0; reason = reason }

abbrev pub stop_is_invalid : SignalAction → ℤ → ℤ → Bool
stop_is_invalid long stop fill = leb_ℤ fill stop
stop_is_invalid short stop fill = leb_ℤ stop fill
stop_is_invalid _ stop fill = false

abbrev pub target_is_invalid : SignalAction → List ℤ → ℤ → Bool
target_is_invalid action [] fill = true
target_is_invalid long (target ∷ _) fill = leb_ℤ target fill
target_is_invalid short (target ∷ _) fill = leb_ℤ fill target
target_is_invalid _ (target ∷ _) fill = false

module _ (a : Arithmetic) where
  -- `to_integral_value(rounding="ROUND_FLOOR")`
  abbrev pub floor : ℤ → ℤ
  floor x = let t = a.whole (a.truncate x) in if ltb_ℤ x t then t -ℤ a.whole (pos 1) else t

  abbrev pub risk_quantity : FixedFraction → DecisionResult → ℤ → ℤ → ℤ
  risk_quantity f d equity distance =
      a.div (a.mul equity (min_ℤ d.risk_fraction f.maximum_risk_fraction)) distance

  abbrev pub notional_quantity : FixedFraction → ℤ → ℤ → ℤ
  notional_quantity f equity fill = a.div (a.mul equity f.maximum_notional_fraction) fill

  abbrev pub policy_quantity : FixedFraction → DecisionResult → ℤ → ℤ → ℤ → ℤ
  policy_quantity f d equity fill distance =
      floor (min_ℤ (risk_quantity f d equity distance) (notional_quantity f equity fill))

  -- From the stop distance on.
  unfoldable pub size_position : FixedFraction → DecisionResult → ℤ → ℤ → ℤ → PolicyDecision
  size_position f d equity fill distance =
      if leb_ℤ distance (pos 0)
      then declined invalid_stop_distance
      else let quantity = policy_quantity f d equity fill distance in
        if leb_ℤ quantity (pos 0)
        then declined quantity_below_one
        else record { is_approved = true; quantity = quantity; reason = approved }

  abbrev pub size_with_stop : FixedFraction → DecisionResult → ℤ → ℤ → Option ℤ → PolicyDecision
  size_with_stop f d equity fill none = declined invalid_risk_request
  size_with_stop f d equity fill (some stop) =
      if leb_ℤ d.risk_fraction (pos 0)
      then declined invalid_risk_request
      else if stop_is_invalid d.result_action stop fill
      then declined stop_invalid_at_fill
      else if target_is_invalid d.result_action d.targets fill
      then declined target_invalid_at_fill
      else size_position f d equity fill (abs (fill -ℤ stop))

  -- `FixedFractionRiskPolicy.evaluate`
  unfoldable pub fixed_fraction : FixedFraction → RiskPolicy
  fixed_fraction f d equity fill =
      if not d.requires_risk_approval
      then declined decision_not_entry
      else size_with_stop f d equity fill d.stop
