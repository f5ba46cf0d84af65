-- ===== src/MarketData/Validation/Streams.antt =====
-- The accepted candles of a stream: their times ascend strictly.
use mytradingsystem.Base.{
  eq_of_parts, subst₂, ap₂, ℕ, ◌≡◌, ◌≢◌, ◌≤◌, ◌<◌, ok, arith, List, [], ◌∷◌, ◌++◌, All, true, false,
  some, Option, inl, inr, Bool-cases, Result-cases, ap, sym, subst, ◌∙◌, ok_injective, lookup,
  insert, any, instant, pos, lookup-insert_self, lookup-insert_ne, Dict,
}
use mytradingsystem.Domain.{Candle, candle}
use mytradingsystem.MarketData.Validation.{
  RawCandle, State, Clock, Stream, Identity, same_stream, same_identity, stream_test_iff,
  stream_keys, stream_of, identity_of, noted, is_drifted, accept_or_report, raw_candle, place,
  validate_one, validate_from, validate, nothing_yet,
}
use mytradingsystem.MarketData.Validation.Step.{
  Step, reports, reports_marked, places, Fits, validate_one-Step,
}

some_injective : {a b : ℕ} → ◌≡◌ {A = Option ℕ} (some a) (some b) → a ≡ b
some_injective h = cc

true_not_false : true ≢ false
true_not_false h = ground (arith, h)

abbrev pub candle_stream : Candle → Stream
candle_stream k = (k.instrument_id, pos k.timeframe_seconds)

-- Of two accepted candles of one stream the later in the list has the later time.
abbrev pub Ascends : List Candle → Type 0
Ascends [] = Unit {0}
Ascends (k ∷ ks) =
    All (λ j. candle_stream k ≡ candle_stream j → k.timestamp < j.timestamp) ks × Ascends ks

abbrev Before : Candle → Candle → Type 0
Before j k = candle_stream k ≡ candle_stream j → k.timestamp < j.timestamp

All-snoc :
    (k j : Candle) (ks : List Candle)
    → All (λ i. Before i k) ks
    → Before j k
    → All (λ i. Before i k) (ks ++ j ∷ [])
All-snoc k j [] a h = (h, tt)
All-snoc k j (i ∷ ks) a h = (a.0, All-snoc k j ks a.1 h)

Ascends-snoc :
    (ks : List Candle) (j : Candle) → Ascends ks → All (Before j) ks → Ascends (ks ++ j ∷ [])
Ascends-snoc [] j a b = (tt, tt)
Ascends-snoc (k ∷ ks) j a b = (All-snoc k j ks a.0 b.0, Ascends-snoc ks j a.1 b.1)

-- The time that a stream has reached.
abbrev Reached : Dict Stream ℕ → Candle → Type 0
Reached previous k = (p : ℕ) × (lookup (candle_stream k) previous ≡ some p) × (k.timestamp ≤ p)

Reached-snoc :
    (d : Dict Stream ℕ) (ks : List Candle) (j : Candle)
    → All (Reached d) ks
    → Reached d j
    → All (Reached d) (ks ++ j ∷ [])
Reached-snoc d [] j a h = (h, tt)
Reached-snoc d (k ∷ ks) j a h = (a.0, Reached-snoc d ks j a.1 h)

-- What every round keeps.
record Kept (accepted : List Candle) (seen : List Identity) (previous : Dict Stream ℕ)
    : Type 0 where
  seen_previous :
      (st : Stream) (p : ℕ)
      → lookup st previous ≡ some p
      → any (same_identity (record { stream = st; time = p })) seen ≡ true
  reached : All (Reached previous) accepted
  ascends : Ascends accepted

Kept-marked :
    (i : Identity) (accepted : List Candle) (seen : List Identity) (previous : Dict Stream ℕ)
    → Kept accepted seen previous
    → Kept accepted (i ∷ seen) previous
Kept-marked i accepted seen previous k = record {
  seen_previous = λ st p h. ground (arith, k.seen_previous st p h);
  reached = k.reached;
  ascends = k.ascends;
}

Reached-insert :
    (st : Stream) (t : ℕ) (d : Dict Stream ℕ) (k : Candle)
    → Fits (lookup st d) t
    → Reached d k
    → Reached (insert st t d) k
Reached-insert st t d k fits (p, q, le) = elim (Bool-cases (same_stream (candle_stream k) st)) [
  | inl same ↦
      let eq = (stream_test_iff (candle_stream k) st).0 same in
      let found : lookup st d ≡ some p = ap (λ x. lookup x d) (sym eq) ∙ q in
      let later : p ≤ t = subst (λ o. Fits o t) found fits in
      (t, ap (λ x. lookup x (insert st t d)) eq ∙ lookup-insert_self st t d, omega arith)
  | inr other ↦ (
    p,
    lookup-insert_ne (candle_stream k) st t d
          (λ eq. ground (arith, (stream_test_iff (candle_stream k) st).1 eq))
        ∙ q,
    le,
  )
]

All-Reached-insert :
    (st : Stream) (t : ℕ) (d : Dict Stream ℕ) (ks : List Candle)
    → Fits (lookup st d) t
    → All (Reached d) ks
    → All (Reached (insert st t d)) ks
All-Reached-insert st t d [] fits a = tt
All-Reached-insert st t d (k ∷ ks) fits a =
    (Reached-insert st t d k fits a.0, All-Reached-insert st t d ks fits a.1)

Kept-insert :
    (st : Stream) (t : ℕ) (accepted : List Candle) (seen : List Identity) (d : Dict Stream ℕ)
    → Kept accepted seen d
    → Fits (lookup st d) t
    → Kept accepted (record { stream = st; time = t } ∷ seen) (insert st t d)
Kept-insert st t accepted seen d k fits = record {
  seen_previous = λ o p h. elim (Bool-cases (same_stream o st)) [
    | inl same ↦
        let eq = (stream_test_iff o st).0 same in
        let time : p ≡ t =
          some_injective
            (sym h ∙ ap (λ x. lookup x (insert st t d)) eq ∙ lookup-insert_self st t d) in
        ground (arith, same, time)
    | inr other ↦
        let old =
          sym (lookup-insert_ne o st t d (λ eq. ground (arith, (stream_test_iff o st).1 eq))) ∙ h in
        ground (arith, k.seen_previous o p old)
  ];
  reached = All-Reached-insert st t d accepted fits k.reached;
  ascends = k.ascends;
}

-- A candle that reached the stream no later than its previous time comes before a new identity.
Before-new :
    (st : Stream) (t : ℕ) (seen : List Identity) (d : Dict Stream ℕ) (j k : Candle)
    → ((p : ℕ)
        → lookup st d ≡ some p
        → any (same_identity (record { stream = st; time = p })) seen ≡ true)
    → any (same_identity (record { stream = st; time = t })) seen ≡ false
    → Fits (lookup st d) t
    → candle_stream j ≡ st
    → j.timestamp ≡ t
    → Reached d k
    → Before j k
Before-new st t seen d j k was new fits js jt (p, q, le) = λ same.
    let found : lookup st d ≡ some p = ap (λ x. lookup x d) (sym (same ∙ js)) ∙ q in
    let later : p ≤ t = subst (λ o. Fits o t) found fits in
    let apart : p ≢ t = λ e. true_not_false (
      sym (was p found)
      ∙ ap (λ x. any (same_identity (record { stream = st; time = x })) seen) e
      ∙ new) in
    ground (arith, le, later, apart, jt)

All-Before :
    (st : Stream) (t : ℕ) (seen : List Identity) (d : Dict Stream ℕ) (j : Candle) (ks : List Candle)
    → ((p : ℕ)
        → lookup st d ≡ some p
        → any (same_identity (record { stream = st; time = p })) seen ≡ true)
    → any (same_identity (record { stream = st; time = t })) seen ≡ false
    → Fits (lookup st d) t
    → candle_stream j ≡ st
    → j.timestamp ≡ t
    → All (Reached d) ks
    → All (Before j) ks
All-Before st t seen d j [] was new fits js jt a = tt
All-Before st t seen d j (k ∷ ks) was new fits js jt a = (
  Before-new st t seen d j k was new fits js jt a.0,
  All-Before st t seen d j ks was new fits js jt a.1,
)

Kept-accept :
    (st : Stream) (t : ℕ) (accepted : List Candle) (seen : List Identity) (d : Dict Stream ℕ)
    (j : Candle)
    → Kept accepted seen d
    → any (same_identity (record { stream = st; time = t })) seen ≡ false
    → Fits (lookup st d) t
    → candle_stream j ≡ st
    → j.timestamp ≡ t
    → Kept (accepted ++ j ∷ []) (record { stream = st; time = t } ∷ seen) (insert st t d)
Kept-accept st t accepted seen d j k new fits js jt =
    let next = Kept-insert st t accepted seen d k fits in
    record {
      seen_previous = next.seen_previous;
      reached =
          Reached-snoc (insert st t d) accepted j next.reached (
            t,
            ap (λ x. lookup x (insert st t d)) js ∙ lookup-insert_self st t d,
            omega (arith, jt),
          );
      ascends =
          Ascends-snoc accepted j k.ascends
            (All-Before st t seen d j accepted (k.seen_previous st) new fits js jt k.reached);
    }

-- The candle that a round accepts is of the record's stream and time.
raw_candle-stream :
    (c : Clock) (raw : RawCandle) (t : ℕ) {k : Candle}
    → raw_candle c raw t ≡ ok k
    → (candle_stream k ≡ stream_of raw) × (k.timestamp ≡ t)
unfolding candle
raw_candle-stream c raw t {k} h =
    let frame : pos k.timeframe_seconds ≡ raw.timeframe_seconds = eq_of_parts _ _ (ground arith) in
    let instrument : k.instrument_id ≡ raw.instrument_id = ground arith in
    (ap₂ (λ a b. (a, b)) instrument frame, ground arith)

abbrev KeptState : State → Type 0
KeptState s = Kept s.accepted s.seen s.previous_by_stream

-- The end of a round, on the state that has been marked and perhaps warned.
accepts-Kept :
    (c : Clock) (raw : RawCandle) (seen : List Identity) (s : State)
    → Kept s.accepted seen s.previous_by_stream
    → s.seen ≡ identity_of raw ∷ seen
    → any (same_identity (identity_of raw)) seen ≡ false
    → Fits (lookup (stream_of raw) s.previous_by_stream) (instant raw.timestamp)
    → KeptState (
        accept_or_report c raw
          (raw_candle c raw (instant raw.timestamp))
          (noted raw (instant raw.timestamp) s))
accepts-Kept c raw seen s k is new fits =
    elim (Result-cases (raw_candle c raw (instant raw.timestamp))) [
      | inl (j, q) ↦
          let (stream, time) = raw_candle-stream c raw (instant raw.timestamp) q in
          rw (q, is)
            (Kept-accept (stream_of raw) (instant raw.timestamp) s.accepted seen
              s.previous_by_stream j k new fits stream time)
      | inr (x, q) ↦
          rw (q, is)
            (Kept-insert (stream_of raw) (instant raw.timestamp) s.accepted seen
              s.previous_by_stream k fits)
    ]

place-Kept :
    (c : Clock) (raw : RawCandle) (seen : List Identity) (s : State)
    → Kept s.accepted seen s.previous_by_stream
    → s.seen ≡ identity_of raw ∷ seen
    → any (same_identity (identity_of raw)) seen ≡ false
    → Fits (lookup (stream_of raw) s.previous_by_stream) (instant raw.timestamp)
    → KeptState (place c raw (instant raw.timestamp) s)
unfolding place
place-Kept c raw seen s k is new fits = elim (Bool-cases (is_drifted c (instant raw.timestamp))) [
  | inl h ↦
      rw (h, is)
        (Kept-insert (stream_of raw) (instant raw.timestamp) s.accepted seen s.previous_by_stream k
          fits)
  | inr h ↦ rw h (accepts-Kept c raw seen s k is new fits)
]

Step-Kept :
    (c : Clock) (raw : RawCandle) (s : State) {s' : State}
    → Step c raw s s'
    → KeptState s
    → KeptState s'
Step-Kept c raw s (reports code e) k = k
Step-Kept c raw s (reports_marked code e) k =
    Kept-marked (identity_of raw) s.accepted s.seen s.previous_by_stream k
Step-Kept c raw s (places s₁ new fits w) k =
    place-Kept c raw s.seen s₁
      (subst₂ (λ a d. Kept a s.seen d) (sym w.same_accepted) (sym w.same_previous) k) w.same_seen
      new
      (subst (λ d. Fits (lookup (stream_of raw) d) (instant raw.timestamp)) (sym w.same_previous)
        fits)

validate_from-Kept :
    (c : Clock) (raws : List RawCandle) (s : State) {s' : State}
    → validate_from c raws s ≡ ok s'
    → KeptState s
    → KeptState s'
unfolding validate_from
validate_from-Kept c [] s h k = subst KeptState (ok_injective h) k
validate_from-Kept c (raw ∷ raws) s h k = elim (Result-cases (validate_one c raw s)) [
  | inr (x, q) ↦ absurd (ground arith)
  | inl (t, q) ↦
      validate_from-Kept c raws t (rw q at h) (Step-Kept c raw s (validate_one-Step c raw s q) k)
]

nothing_kept : KeptState nothing_yet
unfolding lookup
nothing_kept = record {
  seen_previous = λ st p h. absurd (ground (arith, h));
  reached = tt;
  ascends = tt;
}

-- In each stream the times of the accepted candles ascend strictly, whatever the order and the
-- repetitions of the records are.
pub validate-Ascends :
    (c : Clock) (raws : List RawCandle) {s : State} → validate c raws ≡ ok s → Ascends s.accepted
unfolding validate
validate-Ascends c raws h = (validate_from-Kept c raws nothing_yet h nothing_kept).ascends
