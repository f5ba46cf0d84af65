-- ===== src/Replay/Scheduler.antt =====
-- packages/replay/scheduler.py: the loop that steps a session. Stop requests and the clock are given
-- by the number of the call; a wait lets other sessions change the table.
pub mod Progress
use mytradingsystem.Replay.Coordinator.{Mutation, coordinator_snapshot, coordinator_step}
use mytradingsystem.Domain.{Candle}
use mytradingsystem.Replay.Store.{
  StoredSession, Sessions, StoreError, bad_rate, evidence_mismatch, bad_steps, stale_version,
}
use mytradingsystem.Replay.Engine.{Digest}
use mytradingsystem.Base.{
  none, some, Bool, ℕ, ℤ, DateTime, Result, String, false, pos, true, leb_ℤ, ◌*◌, List, err, ok,
  ◌&&◌, ◌>>=◌, ◌>>◌, ◌^◌, raise_if, not, suc, zero, if◌then◌else◌, ◌||◌, ltb, ◌==◌, ◌+◌,
}

pub data Outcome : Type 0 where
  complete stopped step_limit : Outcome

pub record ScheduleResult : Type 0 where
  pub session : StoredSession
  pub frames_emitted : ℕ
  pub outcome : Outcome

-- A `float`: every finite one is a whole number of 2 ^ -1074.
pub data Rate : Type 0 where
  finite : ℤ → Rate
  not_finite : Rate

-- The `float` nearest to 0.1, and 100.
unfoldable pub slowest : ℤ
slowest = pos (3602879701896397 * 2 ^ 1019)

unfoldable pub fastest : ℤ
fastest = pos (100 * 2 ^ 1074)

unfoldable pub rate_ok : Rate → Bool
rate_ok not_finite = false
rate_ok (finite x) = leb_ℤ slowest x && leb_ℤ x fastest

unfoldable pub validate_schedule : Rate → ℕ → Result StoreError (Unit {0})
validate_schedule rate maximum_steps = do
  raise_if (not (rate_ok rate)) bad_rate
  raise_if (ltb maximum_steps 1 || ltb 10000 maximum_steps) bad_steps

-- What surrounds the loop: the answers of `should_stop` before and after the wait of a round, the
-- time of the round's step, and what other sessions commit during its wait.
pub record World : Type 0 where
  pub stop_before : ℕ → Bool
  pub stop_after : ℕ → Bool
  pub now : ℕ → DateTime
  pub others : ℕ → Sessions → Sessions

abbrev pub result : StoredSession → ℕ → Outcome → Result StoreError ScheduleResult
result s n o = ok (record { session = s; frames_emitted = n; outcome = o })

module _ (digest : Digest) (load_dataset : String → Result StoreError (List Candle))
    (w : World) where
  -- The table that the round's step finds: the first round does not wait.
  abbrev pub after_wait : ℕ → Sessions → Sessions
  after_wait zero db = db
  after_wait (suc n) db = w.others (suc n) db

  abbrev pub stops : ℕ → Bool
  stops zero = w.stop_before 0
  stops (suc n) = w.stop_before (suc n) || w.stop_after (suc n)

  -- The rest of a round once its step has been made; `loop` is the next round.
  abbrev pub after_step :
      ℕ
      → StoredSession
      → Result StoreError Mutation × Sessions
      → (StoredSession → Sessions → Result StoreError ScheduleResult × Sessions)
      → Result StoreError ScheduleResult × Sessions
  after_step emitted stored (err x, db) loop = (err x, db)
  after_step emitted stored (ok m, db) loop = elim m.frame [
    | none ↦ (result stored emitted complete, db)
    | some f ↦
        if m.session.checkpoint.next_index == m.session.total_events
        then (result m.session (emitted + 1) complete, db)
        else loop m.session db
  ]

  -- `while emitted < maximum_steps`, by the rounds that are left.
  unfoldable pub run_loop :
      ℕ → ℕ → ℕ → StoredSession → Sessions → Result StoreError ScheduleResult × Sessions
  run_loop zero i emitted stored db = (result stored emitted step_limit, db)
  run_loop (suc left) i emitted stored db =
      if stops emitted
      then (
        result stored emitted stopped,
        (if w.stop_before emitted then db else after_wait emitted db),
      )
      else after_step emitted stored
          (coordinator_step digest load_dataset i stored.version (w.now emitted)
            (after_wait emitted db))
          (λ s db'. run_loop left i (emitted + 1) s db')

  unfoldable pub run : ℕ → ℕ → Rate → ℕ → Sessions → Result StoreError ScheduleResult × Sessions
  run i expected rate maximum_steps db =
      elim (validate_schedule rate maximum_steps >> coordinator_snapshot digest load_dataset i db) [
        | err x ↦ (err x, db)
        | ok (stored, shown) ↦
            if not (stored.version == expected)
            then (err stale_version, db)
            else run_loop maximum_steps i 0 stored db
      ]
