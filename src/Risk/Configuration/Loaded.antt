-- ===== src/Risk/Configuration/Loaded.antt =====
-- The limits that a load gives, against the stored records.
use mytradingsystem.Risk.Configuration.Latest.{Newest, complete_record}
use mytradingsystem.Base.{
  ℕ, ℤ, Arithmetic, Bool, List, Result, false, true, ◌≡◌, Option, String, err, ok, pos, DateTime,
  ap, arith, none, some, ◌<ℤ◌, >>=-ok, ok_injective, ◌>>=◌, instant, subst, raise_if-ok, refl,
  is_naive, is_blank, any, leb_ℤ, ◌||◌, ltb_ℤ, min_ℤ,
}
use mytradingsystem.Risk.Limits.{
  RiskLimits, check_limits, RiskError, empty_policy_version, fractions, bad_fraction,
  integer_limits, bad_integer_limit, negative_bps, bad_options_limit,
}
use mytradingsystem.Risk.Configuration.{
  LimitType, limits_from, load_configuration, risk_per_trade, AuthorityError, LimitRecord,
  daily_loss, latest, lift_limits, open_positions, whole_number, Safety, instrument_exposure,
  quote_age, value_of, Configuration, ControlTables, orders_per_minute, spread, consecutive_losses,
  weekly_loss, configuration, drawdown, gross_exposure, net_exposure, naive_as_of, sector_exposure,
  effective_records, strategy_allocation, slippage, options_exposure, portfolio_delta,
  portfolio_gamma, from_records,
}

-- The limit of a type in a configuration.
abbrev pub limit_of : LimitType → RiskLimits → ℤ
limit_of risk_per_trade l = l.maximum_risk_per_trade_fraction
limit_of daily_loss l = l.maximum_daily_loss_fraction
limit_of open_positions l = l.maximum_open_positions
limit_of instrument_exposure l = l.maximum_instrument_exposure_fraction
limit_of quote_age l = l.maximum_quote_age_seconds
limit_of spread l = l.maximum_spread_bps
limit_of weekly_loss l = l.maximum_weekly_loss_fraction
limit_of drawdown l = l.maximum_drawdown_fraction
limit_of gross_exposure l = l.maximum_gross_exposure_fraction
limit_of net_exposure l = l.maximum_net_exposure_fraction
limit_of orders_per_minute l = l.maximum_orders_per_minute
limit_of consecutive_losses l = l.maximum_consecutive_losses
limit_of sector_exposure l = l.maximum_sector_exposure_fraction
limit_of strategy_allocation l = l.maximum_strategy_allocation_fraction
limit_of slippage l = l.maximum_slippage_bps
limit_of options_exposure l = l.maximum_options_exposure
limit_of portfolio_delta l = l.maximum_portfolio_delta
limit_of portfolio_gamma l = l.maximum_portfolio_gamma

-- The types whose limit is an `int`.
abbrev pub is_count : LimitType → Bool
is_count open_positions = true
is_count quote_age = true
is_count orders_per_minute = true
is_count consecutive_losses = true
is_count _ = false

-- A limit against a stored value: the value itself, or the positive whole number that it is.
abbrev pub Gives : Arithmetic → Bool → ℤ → ℤ → Type 0
Gives a true limit value = (a.whole limit ≡ value) × (pos 0 <ℤ limit)
Gives a false limit value = limit ≡ value

whole_number-Gives :
    (a : Arithmetic) (t : LimitType) (rs : List LimitRecord) {n : ℤ}
    → whole_number a t rs ≡ ok n
    → Gives a true n (value_of t rs)
whole_number-Gives a t rs h = (ground arith, ground arith)

lifted_limits : (r : Result RiskError RiskLimits) {l : RiskLimits} → lift_limits r ≡ ok l → r ≡ ok l
lifted_limits (ok l) h = ap ok (ok_injective h)
lifted_limits (err e) h = absurd (ground arith)

checked_same : (a : Arithmetic) (l : RiskLimits) {k : RiskLimits} → check_limits a l ≡ ok k → l ≡ k
unfolding check_limits
checked_same a l h =
    let (_, h1) = raise_if-ok (is_blank l.policy_version) empty_policy_version _ h in
    let (_, h2) =
      raise_if-ok (any (λ x. leb_ℤ x (pos 0) || ltb_ℤ (a.whole (pos 1)) x) (fractions l))
        bad_fraction _ h1 in
    let (_, h3) =
      raise_if-ok (any (λ x. leb_ℤ x (pos 0)) (integer_limits l)) bad_integer_limit _ h2 in
    let (_, h4) =
      raise_if-ok (ltb_ℤ l.maximum_spread_bps (pos 0) || ltb_ℤ l.maximum_slippage_bps (pos 0))
        negative_bps _ h3 in
    let (_, h5) =
      raise_if-ok
        (leb_ℤ
          (min_ℤ l.maximum_options_exposure
            (min_ℤ l.maximum_portfolio_delta l.maximum_portfolio_gamma))
          (pos 0))
        bad_options_limit _ h4 in
    ok_injective h5

-- Each limit is the value of the record taken for its type.
limits-Gives :
    (a : Arithmetic) (version : List LimitRecord → String) (rs : List LimitRecord) {l : RiskLimits}
    → limits_from a version rs ≡ ok l
    → (t : LimitType) → Gives a (is_count t) (limit_of t l) (value_of t rs)
unfolding limits_from
limits-Gives a version rs h =
    let (positions, p, h1) = >>=-ok (whole_number a open_positions rs) _ h in
    let (age, q, h2) = >>=-ok (whole_number a quote_age rs) _ h1 in
    let (orders, o, h3) = >>=-ok (whole_number a orders_per_minute rs) _ h2 in
    let (losses, c, h4) = >>=-ok (whole_number a consecutive_losses rs) _ h3 in
    let same =
      checked_same a (from_records version rs positions age orders losses) (lifted_limits _ h4) in
    λ t.
      subst (λ l. Gives a (is_count t) (limit_of t l) (value_of t rs)) same
        (elim t
          as (λ u.
            Gives a (is_count u) (limit_of u (from_records version rs positions age orders losses))
              (value_of u rs)) [
                | open_positions ↦ whole_number-Gives a open_positions rs p
                | quote_age ↦ whole_number-Gives a quote_age rs q
                | orders_per_minute ↦ whole_number-Gives a orders_per_minute rs o
                | consecutive_losses ↦ whole_number-Gives a consecutive_losses rs c
                | _ ↦ refl
              ])

value-latest :
    (t : LimitType) (rs : List LimitRecord) (r : LimitRecord)
    → latest t rs ≡ some r
    → value_of t rs ≡ r.value
value-latest t rs r h =
    let value : Option LimitRecord → ℤ = λ o. elim o [ some x ↦ x.value | none ↦ pos 0 ] in
    ap value h

limits_loaded :
    (m : Result AuthorityError RiskLimits) (s : Option Safety) {k : Configuration}
    → (m >>= λ l. ok (configuration l s)) ≡ ok k
    → m ≡ ok k.limits
limits_loaded (ok l) s h = ap (λ k. ok k.limits) (ok_injective h)
limits_loaded (err e) s h = absurd (ground arith)

-- The limit that a load which returned gives for a type is the value of a stored record of that
-- type: one of the account that is enabled and in force at the time of the load, and not older than
-- any other such record; a count is the positive whole number that the value is.
pub load-Newest :
    (a : Arithmetic) (version : List LimitRecord → String) (account : ℕ) (at : DateTime)
    (db : ControlTables) {k : Configuration}
    → load_configuration a version account at db ≡ ok k
    → (t : LimitType)
    → (r : LimitRecord) × Newest account (instant at) t db.limit_records r
      × Gives a (is_count t) (limit_of t k.limits) r.value
unfolding load_configuration
load-Newest a version account at db {k} h t =
    let (_, timed) = raise_if-ok (is_naive at) naive_as_of _ h in
    let (nothing, limits) = raise_if-ok _ _ _ timed in
    let rs = effective_records account (instant at) db.limit_records in
    let (r, taken, newest) = complete_record account (instant at) t db.limit_records nothing in
    let given = limits-Gives a version rs (limits_loaded _ db.safety limits) t in
    (
      r,
      newest,
      subst (Gives a (is_count t) (limit_of t k.limits)) (value-latest t rs r taken) given,
    )
