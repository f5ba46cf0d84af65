-- ===== src/Decision/Gates.antt =====
-- What a decision to enter has passed.
use mytradingsystem.Domain.{SignalAction, long, short, exit_position, hold, no_trade}
use mytradingsystem.Decision.{
  DecisionConfig, DecisionInputs, DecisionResult, is_entry, distances, ratio, price_ratio,
  risk_reward, weighted_confidence, gate_reasons, ratio_reasons, reason_if, all_reasons, gated,
  decide, entry_reasons,
}
use mytradingsystem.Base.{
  Arithmetic, Bool, ℕ, ℤ, pos, List, [], ◌∷◌, ◌++◌, Option, none, some, String, true, false, ◌≡◌,
  ◌↔◌, ◌≤ℤ◌, ◌<ℤ◌, arith, refl, append-eq_nil, sym, ◌∙◌, subst, ap₂, ltb_ℤ,
}

-- An entry that the strategy itself has nothing against, with enough quality and confidence, with
-- its stop on one side of its price and its first target on the other, and with enough reward for
-- its risk.
pub record Gated (a : Arithmetic) (i : DecisionInputs) (c : DecisionConfig) : Type 0 where
  pub is_entry_signal : is_entry i.strategy_signal.action ≡ true
  pub unopposed : i.strategy_signal.rejection_reasons ≡ []
  pub quality : c.minimum_data_quality ≤ℤ i.data_quality_score
  pub confident : c.minimum_confidence ≤ℤ weighted_confidence a i c
  pub entry : ℤ
  pub stop : ℤ
  pub target : ℤ
  pub later_targets : List ℤ
  pub has_entry : i.strategy_signal.proposed_entry ≡ some entry
  pub has_stop : i.strategy_signal.proposed_stop ≡ some stop
  pub has_target : i.strategy_signal.proposed_targets ≡ target ∷ later_targets
  pub risk : pos 0 <ℤ (distances i.strategy_signal.action entry stop target).0
  pub reward : pos 0 <ℤ (distances i.strategy_signal.action entry stop target).1
  pub rewarding :
      c.minimum_risk_reward
      ≤ℤ a.div
          (distances i.strategy_signal.action entry stop target).1
          (distances i.strategy_signal.action entry stop target).0

reason_if-nil : (test : Bool) (reason : String) → reason_if test reason ≡ [] → test ≡ false
reason_if-nil true reason h = absurd (ground arith)
reason_if-nil false reason h = refl

ratio-some :
    (a : Arithmetic) (d : ℤ × ℤ) {q : ℤ}
    → ratio a d ≡ some q
    → (pos 0 <ℤ d.0) × (pos 0 <ℤ d.1) × (q ≡ a.div d.1 d.0)
ratio-some a (risk, reward) h = (ground arith, ground arith, ground arith)

-- The prices behind a ratio.
pub record Priced (a : Arithmetic) (action : SignalAction) (e s : Option ℤ) (ts : List ℤ) (q : ℤ)
    : Type 0 where
  pub entry : ℤ
  pub stop : ℤ
  pub target : ℤ
  pub later_targets : List ℤ
  pub has_entry : e ≡ some entry
  pub has_stop : s ≡ some stop
  pub has_target : ts ≡ target ∷ later_targets
  pub risk : pos 0 <ℤ (distances action entry stop target).0
  pub reward : pos 0 <ℤ (distances action entry stop target).1
  pub is_ratio :
      q ≡ a.div (distances action entry stop target).1 (distances action entry stop target).0

price_ratio-Priced :
    (a : Arithmetic) (action : SignalAction) (e s : Option ℤ) (ts : List ℤ) {q : ℤ}
    → price_ratio a action e s ts ≡ some q
    → Priced a action e s ts q
price_ratio-Priced a action (some e) (some s) (t ∷ ts) h =
    let (risk, reward, is) = ratio-some a (distances action e s t) (ground arith) in
    record {
      entry = e;
      stop = s;
      target = t;
      later_targets = ts;
      has_entry = refl;
      has_stop = refl;
      has_target = refl;
      risk = risk;
      reward = reward;
      is_ratio = is;
    }
price_ratio-Priced a action none s ts h = absurd (ground arith)
price_ratio-Priced a action (some e) none ts h = absurd (ground arith)
price_ratio-Priced a action (some e) (some s) [] h = absurd (ground arith)

ratio_reasons-nil :
    (c : DecisionConfig) (r : Option ℤ)
    → ratio_reasons c r ≡ []
    → (q : ℤ) × (r ≡ some q) × (c.minimum_risk_reward ≤ℤ q)
ratio_reasons-nil c none h = absurd (ground arith)
ratio_reasons-nil c (some q) h = (q, refl, ground arith)

entry_reasons-nil :
    (a : Arithmetic) (i : DecisionInputs) (c : DecisionConfig)
    → entry_reasons a i c ≡ []
    → (c.minimum_data_quality ≤ℤ i.data_quality_score)
      × (c.minimum_confidence ≤ℤ weighted_confidence a i c)
      × (ratio_reasons c (risk_reward a i.strategy_signal) ≡ [])
unfolding entry_reasons
entry_reasons-nil a i c h =
    let low_quality =
      reason_if (ltb_ℤ i.data_quality_score c.minimum_data_quality)
        "DATA_QUALITY_BELOW_THRESHOLD" in
    let low_confidence =
      reason_if (ltb_ℤ (weighted_confidence a i c) c.minimum_confidence)
        "CONFIDENCE_BELOW_THRESHOLD" in
    let low_ratio = ratio_reasons c (risk_reward a i.strategy_signal) in
    let (quality, rest) = append-eq_nil low_quality (low_confidence ++ low_ratio) h in
    let (confidence, ratio) = append-eq_nil low_confidence low_ratio rest in
    let low = reason_if-nil _ "DATA_QUALITY_BELOW_THRESHOLD" quality in
    let unsure = reason_if-nil _ "CONFIDENCE_BELOW_THRESHOLD" confidence in
    (ground (arith, low), ground (arith, unsure), ratio)

gate_reasons-entry :
    (a : Arithmetic) (i : DecisionInputs) (c : DecisionConfig) (action : SignalAction)
    → is_entry action ≡ true
    → gate_reasons a i c action ≡ entry_reasons a i c
gate_reasons-entry a i c long e = refl
gate_reasons-entry a i c short e = refl
gate_reasons-entry a i c exit_position e = absurd (ground arith)
gate_reasons-entry a i c hold e = absurd (ground arith)
gate_reasons-entry a i c no_trade e = absurd (ground arith)

gated-entry :
    (action : SignalAction) (reasons : List String)
    → is_entry (gated action reasons) ≡ true
    → (is_entry action ≡ true) × (reasons ≡ [])
gated-entry action [] h = (ground arith, refl)
gated-entry action (r ∷ rs) h = absurd (ground arith)

passed-Gated :
    (a : Arithmetic) (i : DecisionInputs) (c : DecisionConfig)
    → is_entry i.strategy_signal.action ≡ true
    → all_reasons a i c ≡ []
    → Gated a i c
unfolding all_reasons risk_reward
passed-Gated a i c e h =
    let s = i.strategy_signal in
    let (own, gates) = append-eq_nil s.rejection_reasons _ h in
    let (quality, confident, ratio) =
      entry_reasons-nil a i c (sym (gate_reasons-entry a i c s.action e) ∙ gates) in
    let (q, some_ratio, enough) = ratio_reasons-nil c _ ratio in
    let p =
      price_ratio-Priced a s.action s.proposed_entry s.proposed_stop s.proposed_targets
        some_ratio in
    record {
      is_entry_signal = e;
      unopposed = own;
      quality = quality;
      confident = confident;
      entry = p.entry;
      stop = p.stop;
      target = p.target;
      later_targets = p.later_targets;
      has_entry = p.has_entry;
      has_stop = p.has_stop;
      has_target = p.has_target;
      risk = p.risk;
      reward = p.reward;
      rewarding = subst (λ x. c.minimum_risk_reward ≤ℤ x) p.is_ratio enough;
    }

Gated-risk_reward :
    (a : Arithmetic) (i : DecisionInputs) (c : DecisionConfig) (g : Gated a i c)
    → risk_reward a i.strategy_signal
      ≡ some (
          a.div
            (distances i.strategy_signal.action g.entry g.stop g.target).1
            (distances i.strategy_signal.action g.entry g.stop g.target).0)
unfolding risk_reward
Gated-risk_reward a i c g =
    ground (arith, g.has_entry, g.has_stop, g.has_target, g.risk, g.reward, g.is_entry_signal)

Gated-passed :
    (a : Arithmetic) (i : DecisionInputs) (c : DecisionConfig)
    → Gated a i c
    → all_reasons a i c ≡ []
unfolding all_reasons entry_reasons
Gated-passed a i c g =
    let gates : gate_reasons a i c i.strategy_signal.action ≡ [] =
      gate_reasons-entry a i c i.strategy_signal.action g.is_entry_signal
      ∙ ground (arith, Gated-risk_reward a i c g, g.quality, g.confident, g.rewarding) in
    ap₂ (λ xs ys. xs ++ ys) g.unopposed gates

-- A decision to enter proposes the signal's trade, for the independent approval, with no reason
-- against it; any other proposes none.
pub record Proposes (a : Arithmetic) (i : DecisionInputs) (d : DecisionResult) : Type 0 where
  pub same_action : d.result_action ≡ i.strategy_signal.action
  pub same_entry : d.entry ≡ i.strategy_signal.proposed_entry
  pub same_stop : d.stop ≡ i.strategy_signal.proposed_stop
  pub same_targets : d.targets ≡ i.strategy_signal.proposed_targets
  pub same_risk : d.risk_fraction ≡ i.strategy_signal.requested_risk_fraction
  pub no_reason : d.result_reasons ≡ []
  pub needs_approval : d.requires_risk_approval ≡ true

pub record ProposesNothing (d : DecisionResult) : Type 0 where
  pub no_entry : d.entry ≡ none
  pub no_stop : d.stop ≡ none
  pub no_targets : d.targets ≡ []
  pub no_ratio : d.expected_risk_reward ≡ none
  pub no_risk : d.risk_fraction ≡ pos 0
  pub no_approval : d.requires_risk_approval ≡ false

entry-Gated :
    (a : Arithmetic) (fresh : ℕ) (i : DecisionInputs) (c : DecisionConfig)
    → (is_entry (decide a fresh i c).result_action ≡ true) ↔ Gated a i c
unfolding decide
entry-Gated a fresh i c = (
  λ h.
      let (e, free) = gated-entry i.strategy_signal.action (all_reasons a i c) h in
      passed-Gated a i c e free,
  λ g. rw (Gated-passed a i c g) (ground (arith, g.is_entry_signal)),
)

entry-Proposes :
    (a : Arithmetic) (fresh : ℕ) (i : DecisionInputs) (c : DecisionConfig)
    → Gated a i c
    → Proposes a i (decide a fresh i c)
unfolding decide
entry-Proposes a fresh i c g =
    let free = Gated-passed a i c g in
    let e = g.is_entry_signal in
    record {
      same_action = rw free (ground (arith, e));
      same_entry = rw free (ground (arith, e));
      same_stop = rw free (ground (arith, e));
      same_targets = rw free (ground (arith, e));
      same_risk = rw free (ground (arith, e));
      no_reason = rw free refl;
      needs_approval = rw free (ground (arith, e));
    }

other-ProposesNothing :
    (a : Arithmetic) (fresh : ℕ) (i : DecisionInputs) (c : DecisionConfig)
    → is_entry (decide a fresh i c).result_action ≡ false
    → ProposesNothing (decide a fresh i c)
unfolding decide
other-ProposesNothing a fresh i c h = record {
  no_entry = rw h refl;
  no_stop = rw h refl;
  no_targets = rw h refl;
  no_ratio = rw h refl;
  no_risk = rw h refl;
  no_approval = h;
}

-- A decision is to enter exactly when the signal passes every gate; it then proposes the signal's
-- trade for approval, with no reason against it, and any other decision proposes no trade.
pub decide-Gated :
    (a : Arithmetic) (fresh : ℕ) (i : DecisionInputs) (c : DecisionConfig)
    → ((is_entry (decide a fresh i c).result_action ≡ true) ↔ Gated a i c)
      × (is_entry (decide a fresh i c).result_action ≡ true → Proposes a i (decide a fresh i c))
      × (is_entry (decide a fresh i c).result_action ≡ false → ProposesNothing (decide a fresh i c))
decide-Gated a fresh i c = (
  entry-Gated a fresh i c,
  λ h. entry-Proposes a fresh i c ((entry-Gated a fresh i c).0 h),
  other-ProposesNothing a fresh i c,
)
