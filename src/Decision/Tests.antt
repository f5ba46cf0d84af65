-- ===== src/Decision/Tests.antt =====
-- Decisions on concrete signals in hundredths, and the theorem at one of them.
use mytradingsystem.Base.{
  [], aware, hundredths, is_blank, pos, ℤ, ◌∷◌, none, some, ◌≡◌, false, ok, true, refl, ◌↔◌, ◌+ℤ◌,
  ◌-ℤ◌,
}
use mytradingsystem.Domain.{long, hold}
use mytradingsystem.Decision.{
  StrategySignal, DecisionConfig, DecisionInputs, check_config, check_inputs, decide, all_reasons,
  is_entry, entry_reasons, as_explained, weighted_confidence, risk_reward,
}
use mytradingsystem.Decision.Gates.{decide-Gated, Gated, Proposes, ProposesNothing}

abbrev rules : DecisionConfig
rules = record {
  technical_weight = pos 20;
  smc_weight = pos 20;
  regime_weight = pos 15;
  volume_weight = pos 10;
  options_weight = pos 5;
  ml_weight = pos 5;
  data_quality_weight = pos 15;
  risk_context_weight = pos 10;
  minimum_confidence = pos 65;
  minimum_data_quality = pos 80;
  minimum_risk_reward = pos 150;
  version = "decision-rules-v1";
}

rules_pass : check_config hundredths rules ≡ ok rules
unfolding check_config is_blank ◌+ℤ◌
rules_pass = refl

abbrev signal : StrategySignal
signal = record {
  timestamp = aware 7;
  instrument_id = 5;
  strategy = "fixture";
  strategy_version = "1";
  action = long;
  confidence = pos 75;
  rejection_reasons = [];
  proposed_entry = some (pos 10000);
  proposed_stop = some (pos 9800);
  proposed_targets = pos 10400 ∷ [];
  requested_risk_fraction = pos 1;
  explanation = "fixture";
  data_snapshot_id = "snapshot-1";
}

abbrev inputs_of : StrategySignal → ℤ → DecisionInputs
inputs_of s quality = record {
  strategy_signal = s;
  technical_score = pos 80;
  smc_ict_score = pos 80;
  regime_compatibility = pos 80;
  volume_score = pos 80;
  options_score = pos 80;
  data_quality_score = quality;
  risk_context_score = pos 80;
  ml_probability = none;
}

abbrev inputs : DecisionInputs
inputs = inputs_of signal (pos 90)

inputs_pass : check_inputs hundredths inputs ≡ ok inputs
unfolding check_inputs
inputs_pass = refl

direction : (decide hundredths 9 inputs rules).result_action ≡ long
unfolding decide all_reasons entry_reasons weighted_confidence risk_reward ◌+ℤ◌ ◌-ℤ◌
direction = refl

ratio_is : (decide hundredths 9 inputs rules).expected_risk_reward ≡ some (pos 200)
unfolding decide all_reasons entry_reasons weighted_confidence risk_reward ◌+ℤ◌ ◌-ℤ◌
ratio_is = refl

-- Low quality, and a reason that the strategy gives twice.
abbrev doubtful : DecisionInputs
doubtful = inputs_of (record signal { rejection_reasons = "LATE" ∷ "LATE" ∷ [] }) (pos 50)

doubtful_reasons :
    (decide hundredths 9 doubtful rules).result_reasons
    ≡ "LATE" ∷ "DATA_QUALITY_BELOW_THRESHOLD" ∷ []
unfolding decide all_reasons entry_reasons weighted_confidence risk_reward ◌+ℤ◌ ◌-ℤ◌
doubtful_reasons = refl

holds_explained :
    (decide hundredths 9
      (inputs_of (record signal { action = hold }) (pos 90))
      rules).result_explanation
    ≡ as_explained hold "fixture"
unfolding decide all_reasons
holds_explained = refl

decide-Gated_example :
    ((is_entry (decide hundredths 9 inputs rules).result_action ≡ true)
      ↔ Gated hundredths inputs rules)
    × (is_entry (decide hundredths 9 inputs rules).result_action ≡ true
        → Proposes hundredths inputs (decide hundredths 9 inputs rules))
    × (is_entry (decide hundredths 9 inputs rules).result_action ≡ false
        → ProposesNothing (decide hundredths 9 inputs rules))
decide-Gated_example = decide-Gated hundredths 9 inputs rules
