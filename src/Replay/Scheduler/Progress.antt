-- ===== src/Replay/Scheduler/Progress.antt =====
-- What a run of the scheduler does when nothing interferes with it: no stop is requested and the
-- waits leave the table alone.
use mytradingsystem.Base.{
  ℕ, List, String, Result, ◌+◌, ◌≡◌, ◌≤◌, ◌<◌, ok, some, aware, true, false, length, arith, leb, ap,
  ap₂, subst, sym, ◌∙◌, ◌==◌, refl, zero, suc, if◌then◌else◌,
}
use mytradingsystem.Domain.{Candle}
use mytradingsystem.Replay.Engine.{Engine, Frame, Digest}
use mytradingsystem.Replay.Store.{StoredSession, Sessions, StoreError}
use mytradingsystem.Replay.Coordinator.{Mutation, restored, coordinator_snapshot}
use mytradingsystem.Replay.Coordinator.Restored.{restored-Restored}
use mytradingsystem.Replay.Coordinator.Moves.{
  Restored-IsValid, Restored-place, step-going, coordinator_step-step, coordinator_step_complete,
}
use mytradingsystem.Replay.Scheduler.{
  World, Outcome, ScheduleResult, complete, step_limit, result, stops, after_wait, after_step,
  run_loop, run, Rate, validate_schedule,
}

-- A world in which a run is left alone; its clock gives times with a time zone.
pub record IsQuiet (w : World) : Type 0 where
  pub goes_on : (n : ℕ) → (w.stop_before n ≡ false) × (w.stop_after n ≡ false)
  pub alone : (n : ℕ) (db : Sessions) → w.others n db ≡ db
  pub clock : (n : ℕ) → (t : ℕ) × (w.now n ≡ aware t)

-- The engine that has emitted `n` more frames.
abbrev pub advanced : ℕ → Engine → Engine
advanced n e = record e { next_index = e.next_index + n }

abbrev pub outcome_of : ℕ → ℕ → Outcome
outcome_of remaining left = if leb remaining left then complete else step_limit

result_of :
    (s : StoredSession) (db : Sessions) {a b : ℕ} {o p : Outcome}
    → a ≡ b
    → o ≡ p
    → ◌≡◌ {A = Result StoreError ScheduleResult × Sessions} (result s a o, db) (result s b p, db)
result_of s db h k = ap₂ (λ a o. (result s a o, db)) h k

advanced_at :
    (e : Engine) (a b : ℕ)
    → a ≡ b
    → ◌≡◌ {A = Engine} (record e { next_index = a }) (record e { next_index = b })
advanced_at e a b h = ap {A = ℕ} {B = Engine} (λ n. record e { next_index = n }) h

module _ (digest : Digest) (load_dataset : String → Result StoreError (List Candle)) (w : World)
    (quiet : IsQuiet w) where
  -- What is left after a run in which `remaining` frames were left and `left` rounds allowed.
  pub record Ran (i : ℕ) (db : Sessions) (e : Engine) (remaining left n : ℕ)
      (r : Result StoreError ScheduleResult × Sessions) : Type 0 where
    pub session : StoredSession
    pub table : Sessions
    pub emitted : ℕ
    pub is : r ≡ (result session (n + emitted) (outcome_of remaining left), table)
    pub counts : emitted ≡ (if leb remaining left then remaining else left)
    pub left_over : restored digest load_dataset i table ≡ ok (session, advanced emitted e)

  stops-quiet : (n : ℕ) → stops digest load_dataset w n ≡ false
  stops-quiet zero = (quiet.goes_on 0).0
  stops-quiet (suc n) = rw ((quiet.goes_on (suc n)).0, (quiet.goes_on (suc n)).1)

  after_wait-quiet : (n : ℕ) (db : Sessions) → after_wait digest load_dataset w n db ≡ db
  after_wait-quiet zero db = refl
  after_wait-quiet (suc n) db = quiet.alone (suc n) db

  after_step-frame :
      (n : ℕ) (s : StoredSession) (m : Mutation) (db : Sessions)
      (loop : StoredSession → Sessions → Result StoreError ScheduleResult × Sessions) {f : Frame}
      {k l : ℕ}
      → m.frame ≡ some f
      → m.session.checkpoint.next_index ≡ k
      → m.session.total_events ≡ l
      → after_step digest load_dataset w n s (ok m, db) loop
        ≡ (if k == l then (result m.session (n + 1) complete, db) else loop m.session db)
  after_step-frame n s m db loop framed index total = ground (arith, framed, index, total)

  -- One round before the end.
  round :
      (left i n : ℕ) (db : Sessions) (s : StoredSession) (e : Engine)
      → restored digest load_dataset i db ≡ ok (s, e)
      → e.next_index < length e.candles
      → (s' : StoredSession) × (db' : Sessions) × (restored digest load_dataset i db'
          ≡ ok (s', advanced 1 e))
        × (run_loop digest load_dataset w (suc left) i n s db ≡ (
            if e.next_index + 1 == length e.candles
            then (result s' (n + 1) complete, db')
            else run_loop digest load_dataset w left i (n + 1) s' db'))
  unfolding run_loop
  round left i n db s e h lt =
      let (t, clock) = quiet.clock n in
      let (m, db', stepped, frame, version, again) =
        coordinator_step-step digest load_dataset i t db s e h lt in
      let r = restored-Restored digest load_dataset i db h in
      let (f, q) =
        step-going digest load_dataset e (Restored-IsValid digest load_dataset i db r) lt in
      let framed : m.frame ≡ some f = frame ∙ ap (λ x. x.0) q in
      let again' : restored digest load_dataset i db' ≡ ok (m.session, advanced 1 e) =
        again ∙ ap (λ x. ok (m.session, x.1)) q in
      let place =
        Restored-place digest load_dataset i db'
          (restored-Restored digest load_dataset i db' again') in
      (
        m.session,
        db',
        again',
        rw (stops-quiet n, after_wait-quiet n db, clock, stepped)
            (after_step-frame n s m db' (λ x y. run_loop digest load_dataset w left i (n + 1) x y)
              framed place.0 place.1),
      )

  run_loop-limit :
      (i n : ℕ) (db : Sessions) (s : StoredSession)
      → run_loop digest load_dataset w zero i n s db ≡ (result s n step_limit, db)
  unfolding run_loop
  run_loop-limit i n db s = refl

  -- The loop, with frames left to emit.
  run_loop-quiet :
      (left k i n : ℕ) (db : Sessions) (s : StoredSession) (e : Engine)
      → restored digest load_dataset i db ≡ ok (s, e)
      → length e.candles ≡ e.next_index + suc k
      → Ran i db e (suc k) left n (run_loop digest load_dataset w left i n s db)
  run_loop-quiet zero k i n db s e h more = record {
    session = s;
    table = db;
    emitted = 0;
    is = run_loop-limit i n db s ∙ result_of s db (omega arith) (ground arith);
    counts = ground arith;
    left_over = h ∙ ap (λ x. ok (s, x)) (advanced_at e _ _ (omega arith));
  }
  run_loop-quiet (suc left) zero i n db s e h more =
      let (s', db', again, eq) = round left i n db s e h (omega arith) in
      let end : (e.next_index + 1 == length e.candles) ≡ true = ground arith in
      record {
        session = s';
        table = db';
        emitted = 1;
        is = eq ∙ rw end (result_of s' db' refl (ground arith));
        counts = ground arith;
        left_over = again;
      }
  run_loop-quiet (suc left) (suc k) i n db s e h more =
      let (s', db', again, eq) = round left i n db s e h (omega arith) in
      let going : (e.next_index + 1 == length e.candles) ≡ false = ground arith in
      let rest = run_loop-quiet left k i (n + 1) db' s' (advanced 1 e) again (omega arith) in
      record {
        session = rest.session;
        table = rest.table;
        emitted = suc rest.emitted;
        is =
            eq
            ∙ rw going (rest.is ∙ result_of rest.session rest.table (omega arith) (ground arith));
        counts = ground (arith, rest.counts);
        left_over =
            rest.left_over ∙ ap (λ x. ok (rest.session, x)) (advanced_at e _ _ (omega arith));
      }

  run_loop-nothing :
      (left i n : ℕ) (db : Sessions) (s : StoredSession) (e : Engine)
      → restored digest load_dataset i db ≡ ok (s, e)
      → e.next_index ≡ length e.candles
      → run_loop digest load_dataset w (suc left) i n s db ≡ (result s n complete, db)
  unfolding run_loop
  run_loop-nothing left i n db s e h end =
      let (t, clock) = quiet.clock n in
      let stays = coordinator_step_complete digest load_dataset i (w.now n) db s e h end in
      rw (stops-quiet n, after_wait-quiet n db, stays)

  run_loop-Ran :
      (left k i : ℕ) (db : Sessions) (s : StoredSession) (e : Engine)
      → 1 ≤ left
      → restored digest load_dataset i db ≡ ok (s, e)
      → length e.candles ≡ e.next_index + k
      → Ran i db e k left 0 (run_loop digest load_dataset w left i 0 s db)
  run_loop-Ran zero k i db s e one h more = absurd (omega arith)
  run_loop-Ran (suc left) zero i db s e one h more = record {
    session = s;
    table = db;
    emitted = 0;
    is = run_loop-nothing left i 0 db s e h (omega arith) ∙ result_of s db refl (ground arith);
    counts = ground arith;
    left_over = h ∙ ap (λ x. ok (s, x)) (advanced_at e _ _ (omega arith));
  }
  run_loop-Ran (suc left) (suc k) i db s e one h more =
      run_loop-quiet (suc left) k i 0 db s e h more

  steps_allowed : (rate : Rate) (m : ℕ) → validate_schedule rate m ≡ ok tt → 1 ≤ m
  unfolding validate_schedule
  steps_allowed rate m h = ground arith

  run-loop :
      (i m : ℕ) (rate : Rate) (db : Sessions) (s : StoredSession) (e : Engine)
      → validate_schedule rate m ≡ ok tt
      → restored digest load_dataset i db ≡ ok (s, e)
      → run digest load_dataset w i s.version rate m db ≡ run_loop digest load_dataset w m i 0 s db
  unfolding run coordinator_snapshot
  run-loop i m rate db s e valid h =
      let current : (s.version == s.version) ≡ true = ground arith in
      ground (arith, valid, h, current)

  -- A run that nothing interferes with, of a session with `k` frames left, emits the smaller of `k`
  -- and the allowed steps, is complete exactly when all frames fit, and leaves a table from which the
  -- engine is restored that many frames further.
  pub run-Ran :
      (i m k : ℕ) (rate : Rate) (db : Sessions) (s : StoredSession) (e : Engine)
      → validate_schedule rate m ≡ ok tt
      → restored digest load_dataset i db ≡ ok (s, e)
      → length e.candles ≡ e.next_index + k
      → Ran i db e k m 0 (run digest load_dataset w i s.version rate m db)
  run-Ran i m k rate db s e valid h more =
      subst (Ran i db e k m 0) (sym (run-loop i m rate db s e valid h))
        (run_loop-Ran m k i db s e (steps_allowed rate m valid) h more)
