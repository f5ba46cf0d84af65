-- ===== src/Replay/Runs/Final.antt =====
-- A run that has ended stays as it ended.
use mytradingsystem.Base.{
  nat_keys, DateTime, List, ℕ, ◌≡◌, [], false, lookup, true, ◌∷◌, ok, some, Bool-cases,
  Option-cases, inl, inr, arith, lookup-insert, lookup-insert_self,
}
use mytradingsystem.Replay.Runs.{
  TaskStatus, RunRecord, Runs, is_running, is_open_run, finished_run, start_run, finish_run,
  record_status, new_run,
}

-- The table after a sequence of calls, whether they return or raise.
abbrev pub after_records : List TaskStatus → Runs → Runs
after_records [] db = db
after_records (s ∷ ss) db = after_records ss (record_status s db).1

start_keeps :
    (s : TaskStatus) (i : ℕ) (db : Runs) {r : RunRecord}
    → lookup i db ≡ some r
    → lookup i (start_run s db).1 ≡ some r
unfolding start_run
start_keeps s i db h = elim (Option-cases (lookup s.request.task_id db)) [
  | inr (old, q) ↦ ground (arith, q, h)
  | inl q ↦ ground (arith, q, h, lookup-insert i s.request.task_id (new_run s) db)
]

finish_keeps :
    (s : TaskStatus) (at : DateTime) (i : ℕ) (db : Runs) {r : RunRecord}
    → lookup i db ≡ some r
    → is_running r.run_outcome ≡ false
    → lookup i (finish_run s at (lookup s.request.task_id db) db).1 ≡ some r
finish_keeps s at i db h ended = elim (Option-cases (lookup s.request.task_id db)) [
  | inl q ↦ ground (arith, q, h)
  | inr (old, q) ↦
      ground (arith, q, h, ended, lookup-insert i s.request.task_id (finished_run s at old) db)
]

record_keeps :
    (s : TaskStatus) (i : ℕ) (db : Runs) {r : RunRecord}
    → lookup i db ≡ some r
    → is_running r.run_outcome ≡ false
    → lookup i (record_status s db).1 ≡ some r
unfolding record_status
record_keeps s i db h ended = elim (Bool-cases (is_running s.outcome)) [
  | inl open_call ↦ rw open_call (start_keeps s i db h)
  | inr closing ↦ elim (Option-cases s.finished_at) [
    | inl q ↦ rw (closing, q) h
    | inr (at, q) ↦ rw (closing, q) (finish_keeps s at i db h ended)
  ]
]

after_keeps :
    (ss : List TaskStatus) (i : ℕ) (db : Runs) {r : RunRecord}
    → lookup i db ≡ some r
    → is_running r.run_outcome ≡ false
    → lookup i (after_records ss db) ≡ some r
after_keeps [] i db h ended = h
after_keeps (s ∷ ss) i db h ended =
    after_keeps ss i (record_status s db).1 (record_keeps s i db h ended) ended

-- What a call that ended a run has found and left.
record_ended :
    (s : TaskStatus) (db : Runs) {s' : TaskStatus} {db' : Runs}
    → is_running s.outcome ≡ false
    → record_status s db ≡ (ok s', db')
    → (at : DateTime) × (old : RunRecord) × (s.finished_at ≡ some at)
      × (lookup s.request.task_id db ≡ some old)
      × (is_open_run s old ≡ true)
      × (lookup s.request.task_id db' ≡ some (finished_run s at old))
unfolding record_status
record_ended s db closing h = elim (Option-cases s.finished_at) [
  | inl q ↦ absurd (ground (arith, q, closing))
  | inr (at, q) ↦ elim (Option-cases (lookup s.request.task_id db)) [
    | inl p ↦ absurd (ground (arith, q, p, closing))
    | inr (old, p) ↦ (
      at,
      old,
      q,
      p,
      ground (arith, q, p, closing),
      ground
          (arith, q, p, closing, lookup-insert_self s.request.task_id (finished_run s at old) db),
    )
  ]
]

-- A call that ended a run found it running in the same session, and after whatever further calls the
-- run has the outcome, the count of frames, the version and the time with which it ended, and the
-- request and the start that it had before.
pub record_final :
    (s : TaskStatus) (ss : List TaskStatus) (db : Runs) {s' : TaskStatus} {db' : Runs}
    → is_running s.outcome ≡ false
    → record_status s db ≡ (ok s', db')
    → (at : DateTime) × (old : RunRecord) × (s.finished_at ≡ some at)
      × (lookup s.request.task_id db ≡ some old)
      × (is_open_run s old ≡ true)
      × (lookup s.request.task_id (after_records ss db') ≡ some (finished_run s at old))
record_final s ss db {s'} {db'} closing h =
    let (at, old, q, p, was_open, found) = record_ended s db closing h in
    (at, old, q, p, was_open, after_keeps ss s.request.task_id db' found closing)
