-- ===== src/Backtesting/Costs/Bounds.antt =====
-- The charges of an accepted schedule are never negative, and the brokerage keeps to its cap.
use mytradingsystem.Base.{
  Arithmetic, ℤ, pos, ◌+ℤ◌, +ℤ_parts, ◌≡◌, ◌≤ℤ◌, ok, Option, none, some, arith, any, ltb_ℤ, false,
  subst, refl,
}
use mytradingsystem.Domain.{Side, buy, sell}
use mytradingsystem.Backtesting.Costs.{
  ChargeSchedule, ChargeBreakdown, rates, check_schedule, breakdown, charges_on, capped, stt_rate,
  stamp_duty_on, cap_is_negative,
}

-- A product of numbers that are not negative is not negative.
abbrev pub KeepsSign : Arithmetic → Type 0
KeepsSign a = (x y : ℤ) → pos 0 ≤ℤ x → pos 0 ≤ℤ y → pos 0 ≤ℤ a.mul x y

record ScheduleIsValid (s : ChargeSchedule) : Type 0 where
  brokerage : pos 0 ≤ℤ s.brokerage_rate
  exchange : pos 0 ≤ℤ s.exchange_transaction_rate
  sebi : pos 0 ≤ℤ s.sebi_turnover_rate
  gst : pos 0 ≤ℤ s.gst_rate
  stt_buy : pos 0 ≤ℤ s.stt_buy_rate
  stt_sell : pos 0 ≤ℤ s.stt_sell_rate
  stamp : pos 0 ≤ℤ s.stamp_duty_buy_rate
  ipft : pos 0 ≤ℤ s.ipft_rate
  cap : cap_is_negative s.brokerage_cap_per_order ≡ false

check_schedule-ScheduleIsValid :
    (s : ChargeSchedule) {t : ChargeSchedule} → check_schedule s ≡ ok t → ScheduleIsValid s
unfolding check_schedule
check_schedule-ScheduleIsValid s h =
    let none_negative : any (λ rate. ltb_ℤ rate (pos 0)) (rates s) ≡ false = ground arith in
    let cap : cap_is_negative s.brokerage_cap_per_order ≡ false = ground arith in
    record {
      brokerage = ground (arith, none_negative);
      exchange = ground (arith, none_negative);
      sebi = ground (arith, none_negative);
      gst = ground (arith, none_negative);
      stt_buy = ground (arith, none_negative);
      stt_sell = ground (arith, none_negative);
      stamp = ground (arith, none_negative);
      ipft = ground (arith, none_negative);
      cap = cap;
    }

-- A quantity within an optional cap.
abbrev pub Within : Option ℤ → ℤ → Type 0
Within none n = Unit {0}
Within (some cap) n = n ≤ℤ cap

-- Every part of a breakdown is at least zero, and the total is at least each part.
pub record ChargesAreBounded (s : ChargeSchedule) (b : ChargeBreakdown) : Type 0 where
  pub brokerage : (pos 0 ≤ℤ b.brokerage) × (b.brokerage ≤ℤ b.total)
  pub exchange :
      (pos 0 ≤ℤ b.exchange_transaction_charge) × (b.exchange_transaction_charge ≤ℤ b.total)
  pub sebi : (pos 0 ≤ℤ b.sebi_charge) × (b.sebi_charge ≤ℤ b.total)
  pub ipft : (pos 0 ≤ℤ b.ipft_charge) × (b.ipft_charge ≤ℤ b.total)
  pub gst : (pos 0 ≤ℤ b.gst) × (b.gst ≤ℤ b.total)
  pub stt : (pos 0 ≤ℤ b.stt) × (b.stt ≤ℤ b.total)
  pub stamp : (pos 0 ≤ℤ b.stamp_duty) × (b.stamp_duty ≤ℤ b.total)
  pub capped : Within s.brokerage_cap_per_order b.brokerage

+ℤ-NotNegative : (x y : ℤ) → pos 0 ≤ℤ x → pos 0 ≤ℤ y → pos 0 ≤ℤ (x +ℤ y)
+ℤ-NotNegative x y h k = omega (arith, +ℤ_parts x y)

capped-Within :
    (cap : Option ℤ) (n : ℤ)
    → cap_is_negative cap ≡ false
    → pos 0 ≤ℤ n
    → Within cap (capped cap n) × (pos 0 ≤ℤ capped cap n)
capped-Within none n h k = (tt, k)
capped-Within (some cap) n h k = (ground arith, ground arith)

-- Seven parts that are not negative, and their sum.
sum_parts :
    (b e s i g t d : ℤ)
    → pos 0 ≤ℤ b
    → pos 0 ≤ℤ e
    → pos 0 ≤ℤ s
    → pos 0 ≤ℤ i
    → pos 0 ≤ℤ g
    → pos 0 ≤ℤ t
    → pos 0 ≤ℤ d
    → (n : ℤ) → n ≡ b +ℤ e +ℤ s +ℤ i +ℤ g +ℤ t +ℤ d
    → (b ≤ℤ n) × (e ≤ℤ n) × (s ≤ℤ n) × (i ≤ℤ n) × (g ≤ℤ n) × (t ≤ℤ n) × (d ≤ℤ n)
sum_parts b e s i g t d hb he hs hi hg ht hd n q = rw q (omega (arith, +ℤ_parts))

stt_rate-NotNegative :
    (s : ChargeSchedule) (side : Side) → ScheduleIsValid s → pos 0 ≤ℤ stt_rate s side
stt_rate-NotNegative s buy v = v.stt_buy
stt_rate-NotNegative s sell v = v.stt_sell

module _ (a : Arithmetic) (keeps : KeepsSign a) where
  stamp-NotNegative :
      (s : ChargeSchedule) (n : ℤ) (side : Side)
      → ScheduleIsValid s
      → pos 0 ≤ℤ n
      → pos 0 ≤ℤ stamp_duty_on a s n side
  stamp-NotNegative s n buy v h = keeps n s.stamp_duty_buy_rate h v.stamp
  stamp-NotNegative s n sell v h = omega arith

  bounded :
      (s : ChargeSchedule) (n : ℤ) (side : Side)
      → ScheduleIsValid s
      → pos 0 ≤ℤ n
      → ChargesAreBounded s (charges_on a s n side)
  bounded s n side v h =
      let m = λ (rate : ℤ) (k : pos 0 ≤ℤ rate). keeps n rate h k in
      let (within, hb) =
        capped-Within s.brokerage_cap_per_order (a.mul n s.brokerage_rate) v.cap
          (m s.brokerage_rate v.brokerage) in
      let he = m s.exchange_transaction_rate v.exchange in
      let hs = m s.sebi_turnover_rate v.sebi in
      let hi = m s.ipft_rate v.ipft in
      let b = charges_on a s n side in
      let taxed = b.brokerage +ℤ b.exchange_transaction_charge +ℤ b.sebi_charge +ℤ b.ipft_charge in
      let hg =
        keeps taxed s.gst_rate
          (+ℤ-NotNegative _ b.ipft_charge
            (+ℤ-NotNegative _ b.sebi_charge
              (+ℤ-NotNegative b.brokerage b.exchange_transaction_charge hb he) hs)
            hi)
          v.gst in
      let ht = m (stt_rate s side) (stt_rate-NotNegative s side v) in
      let hd = stamp-NotNegative s n side v h in
      let parts =
        sum_parts b.brokerage b.exchange_transaction_charge b.sebi_charge b.ipft_charge b.gst b.stt
          b.stamp_duty hb he hs hi hg ht hd b.total refl in
      record {
        brokerage = (hb, parts.0);
        exchange = (he, parts.1);
        sebi = (hs, parts.2);
        ipft = (hi, parts.3);
        gst = (hg, parts.4);
        stt = (ht, parts.5);
        stamp = (hd, parts.6);
        capped = within;
      }

  -- Where products keep the sign, an accepted schedule charges no negative amount in any part, no
  -- part above the total, and no brokerage above its cap.
  pub breakdown-ChargesAreBounded :
      (s : ChargeSchedule) (n : ℤ) (side : Side) {b : ChargeBreakdown}
      → check_schedule s ≡ ok s
      → breakdown a s n side ≡ ok b
      → ChargesAreBounded s b
  unfolding breakdown
  breakdown-ChargesAreBounded s n side {b} c h =
      let positive : pos 0 ≤ℤ n = ground arith in
      let is : charges_on a s n side ≡ b = ground arith in
      subst (ChargesAreBounded s) is
        (bounded s n side (check_schedule-ScheduleIsValid s c) positive)
