-- ===== src/Decision.antt =====
-- packages/decision_engine/engine.py: one strategy signal against the decision's rules. The config is
-- always given; a name of a score is its constructor.
mod Gates
mod Tests
use mytradingsystem.Domain.{SignalAction, long, short, exit_position, hold, no_trade}
use mytradingsystem.Base.{
  Arithmetic, Bool, ℕ, ℤ, pos, ◌+ℤ◌, ◌-ℤ◌, leb_ℤ, ltb_ℤ, ◌==ℤ◌, List, [], ◌∷◌, ◌++◌, Option, none,
  some, String, str_eq, is_blank, DateTime, instant, Result, ok, err, ◌>>=◌, ◌>>◌, raise_if, true,
  false, not, ◌&&◌, ◌||◌, if◌then◌else◌, is_empty, any, map, sum_ℤ,
}

pub data Score : Type 0 where
  technical smc_ict regime volume options ml data_quality risk_context : Score

pub data DecisionError : Type 0 where
  negative_weight weights_not_one bad_minimum_confidence bad_minimum_data_quality : DecisionError
  bad_minimum_risk_reward empty_version bad_score bad_probability : DecisionError

-- `StrategySignal` of packages/strategies/engine.py, but for the factors and the expiry, which the
-- decision does not read.
pub record StrategySignal : Type 0 where
  pub timestamp : DateTime
  pub instrument_id : ℕ
  pub strategy : String
  pub strategy_version : String
  pub action : SignalAction
  pub confidence : ℤ
  pub rejection_reasons : List String
  pub proposed_entry : Option ℤ
  pub proposed_stop : Option ℤ
  pub proposed_targets : List ℤ
  pub requested_risk_fraction : ℤ
  pub explanation : String
  pub data_snapshot_id : String

pub record DecisionConfig : Type 0 where
  pub technical_weight : ℤ
  pub smc_weight : ℤ
  pub regime_weight : ℤ
  pub volume_weight : ℤ
  pub options_weight : ℤ
  pub ml_weight : ℤ
  pub data_quality_weight : ℤ
  pub risk_context_weight : ℤ
  pub minimum_confidence : ℤ
  pub minimum_data_quality : ℤ
  pub minimum_risk_reward : ℤ
  pub version : String

-- `weights[name]`
abbrev pub weight : DecisionConfig → Score → ℤ
weight c technical = c.technical_weight
weight c smc_ict = c.smc_weight
weight c regime = c.regime_weight
weight c volume = c.volume_weight
weight c options = c.options_weight
weight c ml = c.ml_weight
weight c data_quality = c.data_quality_weight
weight c risk_context = c.risk_context_weight

abbrev pub score_names : List Score
score_names =
    technical ∷ smc_ict ∷ regime ∷ volume ∷ options ∷ ml ∷ data_quality ∷ risk_context ∷ []

-- `not Decimal(0) <= x <= Decimal(1)`
abbrev pub outside_unit : Arithmetic → ℤ → Bool
outside_unit a x = ltb_ℤ x (pos 0) || ltb_ℤ (a.whole (pos 1)) x

-- `DecisionConfig.__post_init__`
unfoldable pub check_config : Arithmetic → DecisionConfig → Result DecisionError DecisionConfig
check_config a c = do
  raise_if (any (λ w. ltb_ℤ w (pos 0)) (map (weight c) score_names)) negative_weight
  raise_if (not (sum_ℤ (map (weight c) score_names) ==ℤ a.whole (pos 1))) weights_not_one
  raise_if (outside_unit a c.minimum_confidence) bad_minimum_confidence
  raise_if (outside_unit a c.minimum_data_quality) bad_minimum_data_quality
  raise_if (leb_ℤ c.minimum_risk_reward (pos 0)) bad_minimum_risk_reward
  raise_if (is_blank c.version) empty_version
  ok c

pub record DecisionInputs : Type 0 where
  pub strategy_signal : StrategySignal
  pub technical_score : ℤ
  pub smc_ict_score : ℤ
  pub regime_compatibility : ℤ
  pub volume_score : ℤ
  pub options_score : ℤ
  pub data_quality_score : ℤ
  pub risk_context_score : ℤ
  pub ml_probability : Option ℤ

abbrev pub ml_score : Option ℤ → List (Score × ℤ)
ml_score none = []
ml_score (some p) = (ml, p) ∷ []

abbrev pub base_scores : DecisionInputs → List (Score × ℤ)
base_scores i =
    (technical, i.technical_score)
    ∷ (smc_ict, i.smc_ict_score)
    ∷ (regime, i.regime_compatibility)
    ∷ (volume, i.volume_score)
    ∷ (options, i.options_score)
    ∷ (data_quality, i.data_quality_score)
    ∷ (risk_context, i.risk_context_score)
    ∷ []

-- `DecisionInputs.__post_init__`
unfoldable pub check_inputs : Arithmetic → DecisionInputs → Result DecisionError DecisionInputs
check_inputs a i = do
  raise_if (any (λ s. outside_unit a s.1) (base_scores i)) bad_score
  raise_if (any (λ s. outside_unit a s.1) (ml_score i.ml_probability)) bad_probability
  ok i

abbrev pub is_entry : SignalAction → Bool
is_entry long = true
is_entry short = true
is_entry _ = false

-- The risk and the reward of an entry.
abbrev pub distances : SignalAction → ℤ → ℤ → ℤ → ℤ × ℤ
distances long entry stop target = (entry -ℤ stop, target -ℤ entry)
distances _ entry stop target = (stop -ℤ entry, entry -ℤ target)

abbrev pub ratio : Arithmetic → ℤ × ℤ → Option ℤ
ratio a (risk, reward) =
    if leb_ℤ risk (pos 0) || leb_ℤ reward (pos 0) then none else some (a.div reward risk)

abbrev pub price_ratio : Arithmetic → SignalAction → Option ℤ → Option ℤ → List ℤ → Option ℤ
price_ratio a action (some entry) (some stop) (target ∷ _) =
    if is_entry action then ratio a (distances action entry stop target) else none
price_ratio a action _ _ _ = none

-- `_risk_reward`
unfoldable pub risk_reward : Arithmetic → StrategySignal → Option ℤ
risk_reward a s = price_ratio a s.action s.proposed_entry s.proposed_stop s.proposed_targets

abbrev pub scores : DecisionInputs → List (Score × ℤ)
scores i = base_scores i ++ ml_score i.ml_probability

-- `_weighted_confidence`
unfoldable pub weighted_confidence : Arithmetic → DecisionInputs → DecisionConfig → ℤ
weighted_confidence a i c =
    let active = sum_ℤ (map (λ s. weight c s.0) (scores i)) in
    if active ==ℤ pos 0
    then pos 0
    else a.div (sum_ℤ (map (λ s. a.mul s.1 (weight c s.0)) (scores i))) active

-- The explanation's text as its parts: the action with the reasons joined, or with the signal's own
-- explanation.
pub data Explanation : Type 0 where
  passed_gates : Explanation
  because : SignalAction → List String → Explanation
  as_explained : SignalAction → String → Explanation

pub record DecisionResult : Type 0 where
  pub result_id : ℕ
  pub result_timestamp : ℕ
  pub result_instrument_id : ℕ
  pub result_strategy : String
  pub result_strategy_version : String
  pub decision_version : String
  pub result_action : SignalAction
  pub result_confidence : ℤ
  pub factors : List (Score × ℤ)
  pub strategy_action : SignalAction
  pub strategy_confidence : ℤ
  pub result_reasons : List String
  pub entry : Option ℤ
  pub stop : Option ℤ
  pub targets : List ℤ
  pub expected_risk_reward : Option ℤ
  pub risk_fraction : ℤ
  pub result_snapshot_id : String
  pub requires_risk_approval : Bool
  pub result_explanation : Explanation

abbrev pub without : String → List String → List String
without s [] = []
without s (t ∷ ts) = let rest = without s ts in if str_eq s t then rest else t ∷ rest

-- `tuple(dict.fromkeys(reasons))`: each text once, at its first place.
abbrev pub distinct : List String → List String
distinct [] = []
distinct (s ∷ ss) = s ∷ without s (distinct ss)

-- `not ", ".join(reasons)`
abbrev pub joined_is_empty : List String → Bool
joined_is_empty [] = true
joined_is_empty (s ∷ []) = str_eq s ""
joined_is_empty (s ∷ t ∷ ts) = false

abbrev pub ratio_reasons : DecisionConfig → Option ℤ → List String
ratio_reasons c none = "INVALID_PRICE_GEOMETRY" ∷ []
ratio_reasons c (some r) =
    if ltb_ℤ r c.minimum_risk_reward then "RISK_REWARD_BELOW_THRESHOLD" ∷ [] else []

abbrev pub reason_if : Bool → String → List String
reason_if true reason = reason ∷ []
reason_if false reason = []

unfoldable pub entry_reasons : Arithmetic → DecisionInputs → DecisionConfig → List String
entry_reasons a i c =
    reason_if (ltb_ℤ i.data_quality_score c.minimum_data_quality) "DATA_QUALITY_BELOW_THRESHOLD"
    ++ (reason_if (ltb_ℤ (weighted_confidence a i c) c.minimum_confidence)
          "CONFIDENCE_BELOW_THRESHOLD"
        ++ ratio_reasons c (risk_reward a i.strategy_signal))

-- What the gates add to the signal's own reasons.
abbrev pub gate_reasons : Arithmetic → DecisionInputs → DecisionConfig → SignalAction → List String
gate_reasons a i c no_trade = "STRATEGY_NO_TRADE" ∷ []
gate_reasons a i c action = if is_entry action then entry_reasons a i c else []

unfoldable pub all_reasons : Arithmetic → DecisionInputs → DecisionConfig → List String
all_reasons a i c =
    i.strategy_signal.rejection_reasons ++ gate_reasons a i c i.strategy_signal.action

-- The action after the gates: an entry with a reason against it becomes `no_trade`.
abbrev pub gated : SignalAction → List String → SignalAction
gated action reasons = if is_entry action && not (is_empty reasons) then no_trade else action

abbrev pub explain : SignalAction → List String → String → Explanation
explain action reasons text =
    if is_entry action
    then passed_gates
    else if joined_is_empty reasons
    then as_explained action text
    else because action reasons

-- `decide`; the time of a signal is aware.
unfoldable pub decide : Arithmetic → ℕ → DecisionInputs → DecisionConfig → DecisionResult
decide a fresh i c =
    let s = i.strategy_signal in
    let reasons = all_reasons a i c in
    let action = gated s.action reasons in
    record {
      result_id = fresh;
      result_timestamp = instant s.timestamp;
      result_instrument_id = s.instrument_id;
      result_strategy = s.strategy;
      result_strategy_version = s.strategy_version;
      decision_version = c.version;
      result_action = action;
      result_confidence = weighted_confidence a i c;
      factors = scores i;
      strategy_action = s.action;
      strategy_confidence = s.confidence;
      result_reasons = distinct reasons;
      entry = if is_entry action then s.proposed_entry else none;
      stop = if is_entry action then s.proposed_stop else none;
      targets = if is_entry action then s.proposed_targets else [];
      expected_risk_reward = if is_entry action then risk_reward a s else none;
      risk_fraction = if is_entry action then s.requested_risk_fraction else pos 0;
      result_snapshot_id = s.data_snapshot_id;
      requires_risk_approval = is_entry action;
      result_explanation = explain action (distinct reasons) s.explanation;
    }
