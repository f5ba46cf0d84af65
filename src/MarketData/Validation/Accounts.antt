-- ===== src/MarketData/Validation/Accounts.antt =====
-- Every raw candle is accounted for: it is accepted, or reported by one error.
use mytradingsystem.MarketData.Validation.Step.{
  Step, Step, validate_one-Step, reports, reports_marked, places,
}
use mytradingsystem.Base.{
  ℕ, ◌+◌, ◌≡◌, ok, err, arith, length, List, [], ◌∷◌, ◌++◌, false, inl, inr, ap, sym, Bool-cases,
  Result-cases, Result, refl, if◌then◌else◌, suc, ◌∙◌, ok_injective, any, instant,
}
use mytradingsystem.Domain.{Candle, CandleError}
use mytradingsystem.MarketData.Validation.{
  RawCandle, QualityEvent, EventCode, is_error, State, Clock, validate_one, validate_from, validate,
  place, report, accept_or_report, event, raw_candle, noted, is_drifted, timestamp_drift,
  nothing_yet, marked,
}

abbrev pub error_count : List QualityEvent → ℕ
error_count [] = 0
error_count (e ∷ es) = let rest = error_count es in if is_error e.code then suc rest else rest

length-snoc : (ks : List Candle) (k : Candle) → length (ks ++ k ∷ []) ≡ length ks + 1
length-snoc [] k = refl
length-snoc (j ∷ ks) k = ground (arith, length-snoc ks k)

error_count-snoc :
    (es : List QualityEvent) (e : QualityEvent)
    → error_count (es ++ e ∷ []) ≡ error_count es + (if is_error e.code then 1 else 0)
error_count-snoc [] e = ground arith
error_count-snoc (d ∷ es) e = ground (arith, error_count-snoc es e)

-- What a state accounts for.
abbrev pub accounted : State → ℕ
accounted s = length s.accepted + error_count s.events

accounted-report :
    (c : Clock) (raw : RawCandle) (code : EventCode) (s : State)
    → accounted (report c raw code s) ≡ accounted s + (if is_error code then 1 else 0)
accounted-report c raw code s = omega (arith, error_count-snoc s.events (event c raw code))

accounted-accept :
    (c : Clock) (raw : RawCandle) (r : Result CandleError Candle) (s : State)
    → accounted (accept_or_report c raw r s) ≡ accounted s + 1
accounted-accept c raw (ok k) s = omega (arith, length-snoc s.accepted k)
accounted-accept c raw (err x) s = accounted-report c raw _ s

accounted-place :
    (c : Clock) (raw : RawCandle) (t : ℕ) (s : State)
    → accounted (place c raw t s) ≡ accounted s + 1
unfolding place
accounted-place c raw t s = elim (Bool-cases (is_drifted c t)) [
  | inl h ↦ rw h (accounted-report c raw timestamp_drift (noted raw t s))
  | inr h ↦ rw h (accounted-accept c raw (raw_candle c raw t) (noted raw t s))
]

error_count-warnings :
    (es ws : List QualityEvent)
    → any (λ e. is_error e.code) ws ≡ false
    → error_count (es ++ ws) ≡ error_count es
error_count-warnings [] [] h = refl
error_count-warnings [] (w ∷ ws) h = ground (arith, error_count-warnings [] ws)
error_count-warnings (e ∷ es) ws h = ground (arith, error_count-warnings es ws h)

Step-accounted :
    (c : Clock) (raw : RawCandle) (s : State) {s' : State}
    → Step c raw s s'
    → accounted s' ≡ accounted s + 1
Step-accounted c raw s (reports code e) = rw e at (accounted-report c raw code s)
Step-accounted c raw s (reports_marked code e) =
    rw e at (accounted-report c raw code (marked raw s))
Step-accounted c raw s (places s₁ new fits w) =
    let events = ap error_count w.events ∙ error_count-warnings s.events w.warnings w.warn_only in
    omega
      (arith, accounted-place c raw (instant raw.timestamp) s₁, events, ap length w.same_accepted)

validate_from-accounted :
    (c : Clock) (raws : List RawCandle) (s : State) {s' : State}
    → validate_from c raws s ≡ ok s'
    → accounted s' ≡ accounted s + length raws
unfolding validate_from
validate_from-accounted c [] s h = omega (arith, ap accounted (sym (ok_injective h)))
validate_from-accounted c (raw ∷ raws) s h = elim (Result-cases (validate_one c raw s)) [
  | inr (x, q) ↦ absurd (ground arith)
  | inl (t, q) ↦ omega (
    arith,
    Step-accounted c raw s (validate_one-Step c raw s q),
    validate_from-accounted c raws t (rw q at h),
  )
]

-- A validation that returns accounts for every record exactly once: the accepted candles and the
-- errors are together as many as the records.
pub validate-accounted :
    (c : Clock) (raws : List RawCandle) {s : State}
    → validate c raws ≡ ok s
    → length s.accepted + error_count s.events ≡ length raws
unfolding validate
validate-accounted c raws h = omega (arith, validate_from-accounted c raws nothing_yet h)
