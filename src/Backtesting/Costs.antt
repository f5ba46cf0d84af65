-- ===== src/Backtesting/Costs.antt =====
-- packages/backtesting/costs.py and the generic model of packages/backtesting/engine.py: what an
-- order costs.
pub mod Bounds
use mytradingsystem.Domain.{Side, buy, sell}
use mytradingsystem.Base.{
  Arithmetic, ℤ, pos, ◌+ℤ◌, abs, min_ℤ, ltb_ℤ, List, [], ◌∷◌, any, is_blank, String, Option, none,
  some, Result, ok, err, ◌>>=◌, ◌>>◌, raise_if, Bool, false, ℕ,
}

pub data CostError : Type 0 where
  empty_schedule_name negative_rate negative_cap negative_notional : CostError

-- A `BacktestCostModel`: the protocol's `calculate`.
abbrev pub CostModel : Type 0
CostModel = ℤ → Side → Result CostError ℤ

-- `GenericCostModel.calculate`
unfoldable pub generic_cost : Arithmetic → ℤ → ℤ → CostModel
generic_cost a variable_bps flat notional side =
    ok (a.div (a.mul (abs notional) variable_bps) (a.whole (pos 10000)) +ℤ flat)

pub data Product : Type 0 where
  equity_delivery equity_intraday futures options : Product

-- A date is the number of its day.
pub record ChargeSchedule : Type 0 where
  pub name : String
  pub effective_from : ℕ
  pub product : Product
  pub brokerage_rate : ℤ
  pub brokerage_cap_per_order : Option ℤ
  pub exchange_transaction_rate : ℤ
  pub sebi_turnover_rate : ℤ
  pub gst_rate : ℤ
  pub stt_buy_rate : ℤ
  pub stt_sell_rate : ℤ
  pub stamp_duty_buy_rate : ℤ
  pub ipft_rate : ℤ

abbrev pub rates : ChargeSchedule → List ℤ
rates s =
    s.brokerage_rate ∷ s.exchange_transaction_rate ∷ s.sebi_turnover_rate ∷ s.gst_rate
    ∷ s.stt_buy_rate ∷ s.stt_sell_rate ∷ s.stamp_duty_buy_rate ∷ s.ipft_rate ∷ []

abbrev pub cap_is_negative : Option ℤ → Bool
cap_is_negative none = false
cap_is_negative (some cap) = ltb_ℤ cap (pos 0)

-- `IndiaChargeSchedule.__post_init__`
unfoldable pub check_schedule : ChargeSchedule → Result CostError ChargeSchedule
check_schedule s = do
  raise_if (is_blank s.name) empty_schedule_name
  raise_if (any (λ rate. ltb_ℤ rate (pos 0)) (rates s)) negative_rate
  raise_if (cap_is_negative s.brokerage_cap_per_order) negative_cap
  ok s

pub record ChargeBreakdown : Type 0 where
  pub turnover : ℤ
  pub brokerage : ℤ
  pub exchange_transaction_charge : ℤ
  pub sebi_charge : ℤ
  pub ipft_charge : ℤ
  pub gst : ℤ
  pub stt : ℤ
  pub stamp_duty : ℤ
  pub total : ℤ

abbrev pub capped : Option ℤ → ℤ → ℤ
capped none brokerage = brokerage
capped (some cap) brokerage = min_ℤ brokerage cap

abbrev pub stt_rate : ChargeSchedule → Side → ℤ
stt_rate s buy = s.stt_buy_rate
stt_rate s sell = s.stt_sell_rate

abbrev pub stamp_duty_on : Arithmetic → ChargeSchedule → ℤ → Side → ℤ
stamp_duty_on a s notional buy = a.mul notional s.stamp_duty_buy_rate
stamp_duty_on a s notional sell = pos 0

abbrev pub charges_on : Arithmetic → ChargeSchedule → ℤ → Side → ChargeBreakdown
charges_on a s notional side =
    let brokerage = capped s.brokerage_cap_per_order (a.mul notional s.brokerage_rate) in
    let exchange = a.mul notional s.exchange_transaction_rate in
    let sebi = a.mul notional s.sebi_turnover_rate in
    let ipft = a.mul notional s.ipft_rate in
    let gst = a.mul (brokerage +ℤ exchange +ℤ sebi +ℤ ipft) s.gst_rate in
    let stt = a.mul notional (stt_rate s side) in
    let stamp = stamp_duty_on a s notional side in
    record {
      turnover = notional;
      brokerage = brokerage;
      exchange_transaction_charge = exchange;
      sebi_charge = sebi;
      ipft_charge = ipft;
      gst = gst;
      stt = stt;
      stamp_duty = stamp;
      total = brokerage +ℤ exchange +ℤ sebi +ℤ ipft +ℤ gst +ℤ stt +ℤ stamp;
    }

-- `IndiaCostModel.breakdown`
unfoldable pub breakdown : Arithmetic → ChargeSchedule → ℤ → Side → Result CostError ChargeBreakdown
breakdown a s notional side = do
  raise_if (ltb_ℤ notional (pos 0)) negative_notional
  ok (charges_on a s notional side)

-- `IndiaCostModel.calculate`
unfoldable pub india_cost : Arithmetic → ChargeSchedule → CostModel
india_cost a s notional side = do b ← breakdown a s notional side; ok b.total
