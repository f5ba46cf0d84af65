-- ===== src/Backtesting/Policy/Sizing.antt =====
-- What the fixed-fraction policy approves.
use mytradingsystem.Base.{
  Arithmetic, List, ℤ, Option, ◌-ℤ◌, ◌<ℤ◌, ◌≡◌, ◌≤ℤ◌, arith, false, pos, true, [], none, some,
  subst, ◌∷◌, abs, ◌∙◌, ap, refl, min_ℤ, min_ℤ-le, sym,
}
use mytradingsystem.Domain.{SignalAction, long, short, exit_position, hold, no_trade}
use mytradingsystem.Decision.{DecisionResult}
use mytradingsystem.Backtesting.Policy.{
  FixedFraction, stop_is_invalid, target_is_invalid, floor, risk_quantity, notional_quantity,
  policy_quantity, size_position, size_with_stop, fixed_fraction,
}

-- `int(x)` is less than one above `x`.
abbrev pub TruncatesNear : Arithmetic → Type 0
TruncatesNear a = (x : ℤ) → a.whole (a.truncate x) -ℤ a.whole (pos 1) ≤ℤ x

-- The stop lies on the losing side of the fill, the target on the winning side.
abbrev pub OnLosingSide : SignalAction → ℤ → ℤ → Type 0
OnLosingSide long stop fill = stop <ℤ fill
OnLosingSide short stop fill = fill <ℤ stop
OnLosingSide _ stop fill = Unit

abbrev pub OnWinningSide : SignalAction → ℤ → ℤ → Type 0
OnWinningSide long target fill = fill <ℤ target
OnWinningSide short target fill = target <ℤ fill
OnWinningSide _ target fill = Unit

stop-OnLosingSide :
    (action : SignalAction) (stop fill : ℤ)
    → stop_is_invalid action stop fill ≡ false
    → OnLosingSide action stop fill
stop-OnLosingSide long stop fill h = ground arith
stop-OnLosingSide short stop fill h = ground arith
stop-OnLosingSide exit_position stop fill h = tt
stop-OnLosingSide hold stop fill h = tt
stop-OnLosingSide no_trade stop fill h = tt

target-OnWinningSide :
    (action : SignalAction) (ts : List ℤ) (fill : ℤ)
    → target_is_invalid action ts fill ≡ false
    → (target : ℤ) × (more : List ℤ) × (ts ≡ target ∷ more) × OnWinningSide action target fill
target-OnWinningSide long (t ∷ ts) fill h = (t, ts, refl, ground arith)
target-OnWinningSide short (t ∷ ts) fill h = (t, ts, refl, ground arith)
target-OnWinningSide exit_position (t ∷ ts) fill h = (t, ts, refl, tt)
target-OnWinningSide hold (t ∷ ts) fill h = (t, ts, refl, tt)
target-OnWinningSide no_trade (t ∷ ts) fill h = (t, ts, refl, tt)
target-OnWinningSide long [] fill h = absurd (ground arith)
target-OnWinningSide short [] fill h = absurd (ground arith)
target-OnWinningSide exit_position [] fill h = absurd (ground arith)
target-OnWinningSide hold [] fill h = absurd (ground arith)
target-OnWinningSide no_trade [] fill h = absurd (ground arith)

module _ (a : Arithmetic) where
  pub record Sized (f : FixedFraction) (d : DecisionResult) (equity fill quantity : ℤ)
      : Type 0 where
    pub asked : d.requires_risk_approval ≡ true
    pub risked : pos 0 <ℤ d.risk_fraction
    pub stop : ℤ
    pub has_stop : d.stop ≡ some stop
    pub stop_side : OnLosingSide d.result_action stop fill
    pub stop_apart : pos 0 <ℤ abs (fill -ℤ stop)
    pub target : ℤ
    pub later_targets : List ℤ
    pub has_target : d.targets ≡ target ∷ later_targets
    pub target_side : OnWinningSide d.result_action target fill
    pub positive : pos 0 <ℤ quantity
    pub within_risk : quantity ≤ℤ risk_quantity a f d equity (abs (fill -ℤ stop))
    pub within_notional : quantity ≤ℤ notional_quantity a f equity fill

  floor-le : TruncatesNear a → (x : ℤ) → floor a x ≤ℤ x
  floor-le near x = ground (arith, near x)

  position-sized :
      (f : FixedFraction) (d : DecisionResult) (equity fill distance : ℤ)
      → (size_position a f d equity fill distance).is_approved ≡ true
      → (pos 0 <ℤ distance)
        × (pos 0 <ℤ policy_quantity a f d equity fill distance)
        × ((size_position a f d equity fill distance).quantity
            ≡ policy_quantity a f d equity fill distance)
  unfolding size_position
  position-sized f d equity fill distance h = (ground arith, ground arith, ground arith)

  stop-sized :
      (f : FixedFraction) (d : DecisionResult) (equity fill : ℤ) (o : Option ℤ)
      → (size_with_stop a f d equity fill o).is_approved ≡ true
      → (stop : ℤ) × (o ≡ some stop)
        × (pos 0 <ℤ d.risk_fraction)
        × (stop_is_invalid d.result_action stop fill ≡ false)
        × (target_is_invalid d.result_action d.targets fill ≡ false)
        × (size_with_stop a f d equity fill o
            ≡ size_position a f d equity fill (abs (fill -ℤ stop)))
  stop-sized f d equity fill none h = absurd (ground arith)
  stop-sized f d equity fill (some stop) h =
      (stop, refl, ground arith, ground arith, ground arith, ground arith)

  approval-open :
      (f : FixedFraction) (d : DecisionResult) (equity fill : ℤ)
      → (fixed_fraction a f d equity fill).is_approved ≡ true
      → (d.requires_risk_approval ≡ true)
        × (fixed_fraction a f d equity fill ≡ size_with_stop a f d equity fill d.stop)
  unfolding fixed_fraction
  approval-open f d equity fill h = (ground arith, ground arith)

  -- What the policy approves is a positive quantity for a decision that asks for approval, with its
  -- stop on the losing side of the fill price and its first target on the winning side; it is at most
  -- the quantity that the risked fraction allows over the stop's distance, and the one that the
  -- notional fraction allows at the fill price.
  pub fixed_fraction-Sized :
      (f : FixedFraction) (d : DecisionResult) (equity fill : ℤ)
      → TruncatesNear a
      → (fixed_fraction a f d equity fill).is_approved ≡ true
      → Sized f d equity fill (fixed_fraction a f d equity fill).quantity
  fixed_fraction-Sized f d equity fill near h =
      let (asked, is_sized) = approval-open f d equity fill h in
      let (stop, has_stop, risked, stop_ok, target_ok, is_position) =
        stop-sized f d equity fill d.stop (subst (λ r. r.is_approved ≡ true) is_sized h) in
      let all = is_sized ∙ is_position in
      let distance = abs (fill -ℤ stop) in
      let (apart, positive, is) =
        position-sized f d equity fill distance (subst (λ r. r.is_approved ≡ true) all h) in
      let quantity = ap (λ r. r.quantity) all ∙ is in
      let (target, more, has_target, target_side) =
        target-OnWinningSide d.result_action d.targets fill target_ok in
      let risk = risk_quantity a f d equity distance in
      let notional = notional_quantity a f equity fill in
      let below = floor-le near (min_ℤ risk notional) in
      let (p, q) = min_ℤ-le risk notional in
      subst (Sized f d equity fill) (sym quantity) (record {
        asked = asked;
        risked = risked;
        stop = stop;
        has_stop = has_stop;
        stop_side = stop-OnLosingSide d.result_action stop fill stop_ok;
        stop_apart = apart;
        target = target;
        later_targets = more;
        has_target = has_target;
        target_side = target_side;
        positive = positive;
        within_risk = omega (arith, below, p);
        within_notional = omega (arith, below, q);
      })
