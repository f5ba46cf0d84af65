-- ===== src/MarketData/Validation/Step.antt =====
-- One round of the validator, taken apart: a report of an error, or a candle that is placed.
use mytradingsystem.Base.{
  ℕ, ℤ, ◌≡◌, ◌≤◌, ok, arith, List, [], ◌∷◌, ◌++◌, true, false, some, none, Option, inl, inr,
  Bool-cases, Result, refl, ltb, ltb_ℤ, sym, subst, ok_injective, lookup, any, instant, is_naive,
  pos, ◌+ℤ◌, append-nil, ◌>>=◌,
}
use mytradingsystem.MarketData.Validation.{
  RawCandle, QualityEvent, EventCode, is_error, State, Clock, validate_one, place, after_previous,
  report, report_gap, stream_of, stream_keys, feed_gap, out_of_order, duplicate, invalid_timestamp,
  seconds, same_identity, identity_of, marked, ValidateError,
}

-- A time that is not before the stream's previous one.
abbrev pub Fits : Option ℕ → ℕ → Type 0
Fits none t = Unit {0}
Fits (some p) t = p ≤ t

-- The candle is placed on a state that is the marked one but for a warning.
pub record Warned (c : Clock) (raw : RawCandle) (s s₁ : State) : Type 0 where
  pub same_accepted : s₁.accepted ≡ s.accepted
  pub same_seen : s₁.seen ≡ s.seen
  pub same_previous : s₁.previous_by_stream ≡ s.previous_by_stream
  pub warnings : List QualityEvent
  pub events : s₁.events ≡ s.events ++ warnings
  pub warn_only : any (λ e. is_error e.code) warnings ≡ false

-- The results of a round.
pub data Step (c : Clock) (raw : RawCandle) (s : State) : State → Type 0 where
  reports : (code : EventCode) → is_error code ≡ true → Step c raw s (report c raw code s)
  reports_marked :
      (code : EventCode) → is_error code ≡ true → Step c raw s (report c raw code (marked raw s))
  places :
      (s₁ : State)
      → any (same_identity (identity_of raw)) s.seen ≡ false
      → Fits (lookup (stream_of raw) s.previous_by_stream) (instant raw.timestamp)
      → Warned c raw (marked raw s) s₁
      → Step c raw s (place c raw (instant raw.timestamp) s₁)

unwarned : (c : Clock) (raw : RawCandle) (s : State) → Warned c raw s s
unwarned c raw s = record {
  same_accepted = refl;
  same_seen = refl;
  same_previous = refl;
  warnings = [];
  events = sym (append-nil s.events);
  warn_only = refl;
}

abbrev after_gap : Clock → RawCandle → Option ℤ → State → Result ValidateError State
after_gap c raw m s = report_gap c raw m s >>= λ s'. ok (place c raw (instant raw.timestamp) s')

after_gap-Step :
    (c : Clock) (raw : RawCandle) (m : Option ℤ) (s : State) {s' : State}
    → any (same_identity (identity_of raw)) s.seen ≡ false
    → Fits (lookup (stream_of raw) s.previous_by_stream) (instant raw.timestamp)
    → after_gap c raw m (marked raw s) ≡ ok s'
    → Step c raw s s'
after_gap-Step c raw none s new fits h = absurd (ground arith)
after_gap-Step c raw (some m) s new fits h = subst (Step c raw s) (ok_injective h) (
    places (report c raw (feed_gap m) (marked raw s)) new fits (record {
      same_accepted = refl;
      same_seen = refl;
      same_previous = refl;
      warnings = _ ∷ [];
      events = refl;
      warn_only = refl;
    }))

after_previous-Step :
    (c : Clock) (raw : RawCandle) (p : Option ℕ) (s : State) {s' : State}
    → any (same_identity (identity_of raw)) s.seen ≡ false
    → lookup (stream_of raw) s.previous_by_stream ≡ p
    → after_previous c raw (instant raw.timestamp) p (marked raw s) ≡ ok s'
    → Step c raw s s'
unfolding after_previous
after_previous-Step c raw none s new found h = subst (Step c raw s) (ok_injective h) (
    places (marked raw s) new (subst (λ p. Fits p (instant raw.timestamp)) (sym found) tt)
      (unwarned c raw (marked raw s)))
after_previous-Step c raw (some p) s new found h =
    elim (Bool-cases (ltb (instant raw.timestamp) p)) [
      | inl early ↦
          subst (Step c raw s) (ok_injective (rw early at h)) (reports_marked (out_of_order p) refl)
      | inr late ↦
          let fits : Fits (lookup (stream_of raw) s.previous_by_stream) (instant raw.timestamp) =
            subst (λ q. Fits q (instant raw.timestamp)) (sym found) (ground arith) in
          let after = rw late at h in
          elim (Bool-cases
            (ltb_ℤ (pos p +ℤ seconds raw.timeframe_seconds) (pos (instant raw.timestamp)))) [
              | inl gap ↦ after_gap-Step c raw _ s new fits (rw gap at after)
              | inr on_time ↦
                  subst (Step c raw s) (ok_injective (rw on_time at after))
                    (places (marked raw s) new fits (unwarned c raw (marked raw s)))
            ]
    ]

pub validate_one-Step :
    (c : Clock) (raw : RawCandle) (s : State) {s' : State}
    → validate_one c raw s ≡ ok s'
    → Step c raw s s'
unfolding validate_one
validate_one-Step c raw s h = elim (Bool-cases (is_naive raw.timestamp)) [
  | inl bad ↦ subst (Step c raw s) (ok_injective (rw bad at h)) (reports invalid_timestamp refl)
  | inr good ↦
      let after = rw good at h in
      elim (Bool-cases (any (same_identity (identity_of raw)) s.seen)) [
        | inl old ↦ subst (Step c raw s) (ok_injective (rw old at after)) (reports duplicate refl)
        | inr new ↦ after_previous-Step c raw _ s new refl (rw new at after)
      ]
]
