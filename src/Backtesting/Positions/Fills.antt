-- ===== src/Backtesting/Positions/Fills.antt =====
-- The price of an exit within a candle, before slippage.
use mytradingsystem.Base.{
  Bool, ℤ, ◌≡◌, ◌≤ℤ◌, ◌⊎◌, Bool-cases, false, none, some, true, leb_ℤ, max_ℤ, min_ℤ, ◌↔◌, arith,
  inl, inr, subst,
}
use mytradingsystem.Domain.{Candle, CandleIsValid}
use mytradingsystem.Backtesting.Positions.{
  ExitReason, at_stop, at_target, Position, is_long, exit_within, intrabar_exit,
}

-- The stop and the target that a candle touches, of a long position or of a short one.
abbrev pub TouchesStop : Bool → ℤ → Candle → Type 0
TouchesStop true stop c = c.low ≤ℤ stop
TouchesStop false stop c = stop ≤ℤ c.high

abbrev pub TouchesTarget : Bool → ℤ → Candle → Type 0
TouchesTarget true target c = target ≤ℤ c.high
TouchesTarget false target c = c.low ≤ℤ target

-- The first exit price is not better for the position than the second.
abbrev pub NotBetter : Bool → ℤ → ℤ → Type 0
NotBetter true x y = x ≤ℤ y
NotBetter false x y = y ≤ℤ x

-- The stop is taken, or the target where the stop is not touched.
pub data Taken (up : Bool) (stop target : ℤ) (c : Candle) (price : ℤ) : ExitReason → Type 0 where
  stopped : TouchesStop up stop c → NotBetter up price stop → Taken up stop target c price at_stop
  targeted :
      ¬ TouchesStop up stop c
      → TouchesTarget up target c
      → NotBetter up target price
      → Taken up stop target c price at_target

pub record Filled (up : Bool) (stop target : ℤ) (c : Candle) (price : ℤ) (reason : ExitReason)
    : Type 0 where
  pub above_low : c.low ≤ℤ price
  pub below_high : price ≤ℤ c.high
  pub taken : Taken up stop target c price reason

exit-stopped :
    (up : Bool) (stop target : ℤ) (c : Candle) {price : ℤ} {reason : ExitReason}
    → CandleIsValid c
    → TouchesStop up stop c
    → exit_within up stop target c ≡ some (price, reason)
    → Filled up stop target c price reason
exit-stopped true stop target c {price} {reason} v touched h =
    let is : min_ℤ c.open_price stop ≡ price = ground arith in
    let why : at_stop ≡ reason = ground arith in
    record {
      above_low = ground (arith, is);
      below_high = ground (arith, is);
      taken = subst (Taken true stop target c price) why (stopped touched (ground (arith, is)));
    }
exit-stopped false stop target c {price} {reason} v touched h =
    let is : max_ℤ c.open_price stop ≡ price = ground arith in
    let why : at_stop ≡ reason = ground arith in
    record {
      above_low = ground (arith, is);
      below_high = ground (arith, is);
      taken = subst (Taken false stop target c price) why (stopped touched (ground (arith, is)));
    }

exit-targeted :
    (up : Bool) (stop target : ℤ) (c : Candle) {price : ℤ} {reason : ExitReason}
    → CandleIsValid c
    → ¬ TouchesStop up stop c
    → exit_within up stop target c ≡ some (price, reason)
    → Filled up stop target c price reason
exit-targeted true stop target c {price} {reason} v missed h =
    let is : max_ℤ c.open_price target ≡ price = ground arith in
    let touched : target ≤ℤ c.high = ground arith in
    let why : at_target ≡ reason = ground arith in
    record {
      above_low = ground (arith, is);
      below_high = ground (arith, is);
      taken =
          subst (Taken true stop target c price) why (targeted missed touched (ground (arith, is)));
    }
exit-targeted false stop target c {price} {reason} v missed h =
    let is : min_ℤ c.open_price target ≡ price = ground arith in
    let touched : c.low ≤ℤ target = ground arith in
    let why : at_target ≡ reason = ground arith in
    record {
      above_low = ground (arith, is);
      below_high = ground (arith, is);
      taken =
          subst (Taken false stop target c price) why
            (targeted missed touched (ground (arith, is)));
    }

no_exit_iff :
    (up : Bool) (stop target : ℤ) (c : Candle)
    → (exit_within up stop target c ≡ none)
      ↔ (¬ TouchesStop up stop c × ¬ TouchesTarget up target c)
no_exit_iff true stop target c =
    (λ h. (λ x. ground arith, λ x. ground arith), λ h. let (p, q) = h in ground arith)
no_exit_iff false stop target c =
    (λ h. (λ x. ground arith, λ x. ground arith), λ h. let (p, q) = h in ground arith)

touches_or_not :
    (up : Bool) (stop : ℤ) (c : Candle) → TouchesStop up stop c ⊎ (¬ TouchesStop up stop c)
touches_or_not true stop c = elim (Bool-cases (leb_ℤ c.low stop)) [
  | inl e ↦ inl (ground (arith, e))
  | inr e ↦ inr (λ h. ground (arith, e))
]
touches_or_not false stop c = elim (Bool-cases (leb_ℤ stop c.high)) [
  | inl e ↦ inl (ground (arith, e))
  | inr e ↦ inr (λ h. ground (arith, e))
]

-- The exit that `_intrabar_exit` finds in a valid candle, with its price before slippage: that price
-- is one of the candle. A touched stop is taken, also where the target is touched too, at the stop or
-- a worse price; a target is taken where the stop is not touched, at the target or a better price;
-- and there is no exit exactly where neither is touched.
pub intrabar_exit-Filled :
    (p : Position) (c : Candle)
    → CandleIsValid c
    → ((price : ℤ) (reason : ExitReason)
        → intrabar_exit p c ≡ some (price, reason)
        → Filled (is_long p.held_direction) p.held_stop p.held_target c price reason)
      × ((intrabar_exit p c ≡ none) ↔ (
          ¬ TouchesStop (is_long p.held_direction) p.held_stop c
          × ¬ TouchesTarget (is_long p.held_direction) p.held_target c))
unfolding intrabar_exit
intrabar_exit-Filled p c v = (
  λ price reason h. elim (touches_or_not (is_long p.held_direction) p.held_stop c) [
    | inl touched ↦ exit-stopped (is_long p.held_direction) p.held_stop p.held_target c v touched h
    | inr missed ↦ exit-targeted (is_long p.held_direction) p.held_stop p.held_target c v missed h
  ],
  no_exit_iff (is_long p.held_direction) p.held_stop p.held_target c,
)
