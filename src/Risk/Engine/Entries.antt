-- ===== src/Risk/Engine/Entries.antt =====
-- Entries: what holds of every entry that is not refused.
use mytradingsystem.Base.{
  Arithmetic, Bool, subst, sym, ap, ◌∙◌, min_ℤ-le, not, ltb, leb, ◌<◌, ◌||◌, ℕ, ℤ, pos, neg, abs,
  ◌+ℤ◌, ◌-ℤ◌, ◌≡◌, ◌≢◌, ◌≤ℤ◌, ◌<ℤ◌, ◌≤◌, ◌+◌, ◌*◌, true, false, min_ℤ, arith, refl, List, [], ◌∷◌,
  All, some, inl, inr, Option-cases, instant, second, pos_part, is_empty,
}
use mytradingsystem.Domain.{reject}
use mytradingsystem.Risk.Limits.{PortfolioRiskContext, RiskLimits}
use mytradingsystem.Risk.Engine.{
  ReasonCode, Request, evaluate_entry, evaluate_order_risk, size_entry, locks, lock_tests, exceeded,
  projected_tests, names_where, sized, risk_quantity, exposure_quantity, spread_bps, in_cooldown,
  notional, signed_notional,
}

-- No name is listed exactly when no test holds.
names_where-nil :
    (tests : List (Bool × ReasonCode)) → names_where tests ≡ [] → All (λ t. t.0 ≡ false) tests
names_where-nil [] h = tt
names_where-nil ((t, name) ∷ rest) h = ground (arith, names_where-nil rest)

not-false : {b : Bool} → not b ≡ false → b ≡ true
not-false h = ground arith

not_less : {m n : ℕ} → ltb m n ≡ false → n ≤ m
not_less h = ground arith

not_most : {m n : ℕ} → leb m n ≡ false → n < m
not_most h = ground arith

neither : {m n k l : ℕ} → (ltb m n || ltb k l) ≡ false → (n ≤ m) × (l ≤ k)
neither h = (ground arith, ground arith)

module _ (a : Arithmetic) where
  -- No entry lock is on.
  pub record Unlocked (c : PortfolioRiskContext) (l : RiskLimits) : Type 0 where
    pub no_kill_switch : c.kill_switch_enabled ≡ false
    pub connected : c.broker_connected ≡ true
    pub reconciled : c.reconciliation_ok ≡ true
    pub good_data : c.data_quality_ok ≡ true
    pub session_open : c.trading_session_open ≡ true
    pub no_event : c.event_risk_lock ≡ false
    pub quote_not_later : instant c.quote_timestamp ≤ instant c.evaluated_at
    pub quote_fresh :
        instant c.evaluated_at
        ≤ instant c.quote_timestamp + pos_part l.maximum_quote_age_seconds * second
    pub spread : spread_bps a c ≤ℤ l.maximum_spread_bps
    pub daily : neg (a.mul c.equity l.maximum_daily_loss_fraction) <ℤ c.daily_pnl
    pub weekly : neg (a.mul c.equity l.maximum_weekly_loss_fraction) <ℤ c.weekly_pnl
    pub drawdown : c.drawdown_fraction <ℤ l.maximum_drawdown_fraction
    pub positions : c.open_positions <ℤ l.maximum_open_positions
    pub net : abs c.net_exposure <ℤ a.mul c.equity l.maximum_net_exposure_fraction
    pub order_rate : c.orders_last_minute <ℤ l.maximum_orders_per_minute
    pub losses : c.consecutive_losses <ℤ l.maximum_consecutive_losses
    pub slippage : c.expected_slippage_bps ≤ℤ l.maximum_slippage_bps
    pub options : (c.options_exposure +ℤ c.proposed_options_exposure) ≤ℤ l.maximum_options_exposure
    pub delta : abs (c.portfolio_delta +ℤ c.proposed_delta) ≤ℤ l.maximum_portfolio_delta
    pub gamma : abs (c.portfolio_gamma +ℤ c.proposed_gamma) ≤ℤ l.maximum_portfolio_gamma
    pub no_cooldown : in_cooldown c c.cooldown_until ≡ false

  locks-Unlocked : (c : PortfolioRiskContext) (l : RiskLimits) → locks a c l ≡ [] → Unlocked c l
  unfolding locks
  locks-Unlocked c l h =
      let unlocked = names_where-nil (lock_tests a c l) h in
      record {
        no_kill_switch = unlocked.0;
        connected = not-false unlocked.1.0;
        reconciled = not-false unlocked.1.1.0;
        good_data = not-false unlocked.1.1.1.0;
        session_open = not-false unlocked.1.1.1.1.0;
        no_event = unlocked.1.1.1.1.1.0;
        quote_not_later = (neither unlocked.1.1.1.1.1.1.0).0;
        quote_fresh = (neither unlocked.1.1.1.1.1.1.0).1;
        spread = not_less unlocked.1.1.1.1.1.1.1.0;
        daily = not_most unlocked.1.1.1.1.1.1.1.1.0;
        weekly = not_most unlocked.1.1.1.1.1.1.1.1.1.0;
        drawdown = not_most unlocked.1.1.1.1.1.1.1.1.1.1.0;
        positions = not_most unlocked.1.1.1.1.1.1.1.1.1.1.1.0;
        net = not_most unlocked.1.1.1.1.1.1.1.1.1.1.1.1.0;
        order_rate = not_most unlocked.1.1.1.1.1.1.1.1.1.1.1.1.1.0;
        losses = not_most unlocked.1.1.1.1.1.1.1.1.1.1.1.1.1.1.0;
        slippage = not_less unlocked.1.1.1.1.1.1.1.1.1.1.1.1.1.1.1.0;
        options = not_less unlocked.1.1.1.1.1.1.1.1.1.1.1.1.1.1.1.1.0;
        delta = not_less unlocked.1.1.1.1.1.1.1.1.1.1.1.1.1.1.1.1.1.0;
        gamma = not_less unlocked.1.1.1.1.1.1.1.1.1.1.1.1.1.1.1.1.1.1.0;
        no_cooldown = unlocked.1.1.1.1.1.1.1.1.1.1.1.1.1.1.1.1.1.1.1.0;
      }

  -- The projected exposures stay within their ceilings.
  pub record Projected (r : Request) : Type 0 where
    pub gross :
        (r.context.gross_exposure +ℤ notional a r)
        ≤ℤ a.mul r.context.equity r.limits.maximum_gross_exposure_fraction
    pub sector :
        (r.context.sector_exposure +ℤ notional a r)
        ≤ℤ a.mul r.context.equity r.limits.maximum_sector_exposure_fraction
    pub strategy :
        (r.context.strategy_exposure +ℤ notional a r)
        ≤ℤ a.mul r.context.equity r.limits.maximum_strategy_allocation_fraction
    pub net :
        abs (r.context.net_exposure +ℤ signed_notional a r.intent.side (notional a r))
        ≤ℤ a.mul r.context.equity r.limits.maximum_net_exposure_fraction

  exceeded-Projected : (r : Request) → exceeded a r ≡ [] → Projected r
  unfolding exceeded
  exceeded-Projected r h =
      let within = names_where-nil (projected_tests a r) h in
      record {
        gross = not_less within.0;
        sector = not_less within.1.0;
        strategy = not_less within.1.1.0;
        net = not_less within.1.1.1.0;
      }

  -- What an entry that is not refused has passed, and what bounds its quantity.
  pub record Allowed (r : Request) (stop approved : ℤ) : Type 0 where
    pub unlocked : Unlocked r.context r.limits
    pub has_stop : r.stop_price ≡ some stop
    pub stop_apart : pos 0 <ℤ abs (r.reference_price -ℤ stop)
    pub projected : Projected r
    pub positive : pos 0 <ℤ approved
    pub within_intent : approved ≤ℤ r.intent.quantity
    pub within_risk : approved ≤ℤ risk_quantity a r (abs (r.reference_price -ℤ stop))
    pub within_exposure : approved ≤ℤ exposure_quantity a r

  sized-le :
      (r : Request) (d : ℤ)
      → (sized a r d ≤ℤ r.intent.quantity)
        × (sized a r d ≤ℤ risk_quantity a r d)
        × (sized a r d ≤ℤ exposure_quantity a r)
  sized-le r d =
      let (p, q) =
        min_ℤ-le r.intent.quantity (min_ℤ (risk_quantity a r d) (exposure_quantity a r)) in
      let (s, t) = min_ℤ-le (risk_quantity a r d) (exposure_quantity a r) in
      (p, omega (arith, q, s), omega (arith, q, t))

  size-sized :
      (r : Request) (d : ℤ)
      → (size_entry a r d).outcome ≢ reject
      → (pos 0 <ℤ d)
        × (is_empty (exceeded a r) ≡ true)
        × (pos 0 <ℤ sized a r d)
        × ((size_entry a r d).approved_quantity ≡ sized a r d)
  unfolding size_entry
  size-sized r d h = (ground arith, ground arith, ground arith, ground arith)

  entry-open :
      (r : Request)
      → (evaluate_entry a r).outcome ≢ reject
      → (is_empty (locks a r.context r.limits) ≡ true)
        × (stop : ℤ) × (r.stop_price ≡ some stop)
        × (evaluate_entry a r ≡ size_entry a r (abs (r.reference_price -ℤ stop)))
  unfolding evaluate_entry
  entry-open r h = elim (Option-cases r.stop_price) [
    | inl q ↦ absurd (ground (arith, q))
    | inr (stop, q) ↦ (ground arith, stop, q, ground (arith, q))
  ]

  entry-branch :
      (r : Request)
      → r.intent.is_exit ≡ false
      → (evaluate_order_risk a r).outcome ≢ reject
      → evaluate_order_risk a r ≡ evaluate_entry a r
  unfolding evaluate_order_risk
  entry-branch r e h = ground arith

  empty_nil : (names : List ReasonCode) → is_empty names ≡ true → names ≡ []
  empty_nil [] h = refl
  empty_nil (x ∷ xs) h = ground arith

  -- An entry that is not refused found no lock on, has a stop away from its price, keeps every
  -- projected exposure within its ceiling, and is for a positive quantity that is at most the one
  -- asked for, the one the risk of a trade allows and the one the instrument's exposure allows.
  pub evaluate-Allowed :
      (r : Request)
      → r.intent.is_exit ≡ false
      → (evaluate_order_risk a r).outcome ≢ reject
      → (stop : ℤ) × Allowed r stop (evaluate_order_risk a r).approved_quantity
  evaluate-Allowed r e h =
      let branch = entry-branch r e h in
      let (free, stop, has_stop, eq) = entry-open r (subst (λ d. d.outcome ≢ reject) branch h) in
      let all = branch ∙ eq in
      let distance = abs (r.reference_price -ℤ stop) in
      let (apart, within, positive, is) =
        size-sized r distance (subst (λ d. d.outcome ≢ reject) all h) in
      let (p, q, s) = sized-le r distance in
      let quantity = ap (λ d. d.approved_quantity) all ∙ is in
      (
        stop,
        subst (Allowed r stop) (sym quantity) (record {
          unlocked =
              locks-Unlocked r.context r.limits (empty_nil (locks a r.context r.limits) free);
          has_stop = has_stop;
          stop_apart = apart;
          projected = exceeded-Projected r (empty_nil (exceeded a r) within);
          positive = positive;
          within_intent = p;
          within_risk = q;
          within_exposure = s;
        }),
      )
