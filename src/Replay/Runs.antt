-- ===== src/Replay/Runs.antt =====
-- packages/replay/task_persistence.py and the records of packages/replay/tasks.py: the stored runs of
-- the scheduler. The table's foreign key and its check constraints are not modelled; a naive time is
-- taken as UTC, as `_utc` does.
pub mod Final
mod Tests
use mytradingsystem.Base.{
  nat_keys, Bool, DateTime, Dict, List, Option, Result, none, some, ℕ, [], aware, err, false,
  if◌then◌else◌, instant, lookup, ltb, ok, or_raise, true, ◌==◌, ◌>>=◌, ◌∷◌, insert, ◌&&◌, ◌||◌,
  leb, take, drop,
}
use mytradingsystem.Replay.Scheduler.{Rate, validate_schedule}
use mytradingsystem.Replay.Store.{StoreError}

pub data TaskOutcome : Type 0 where
  running complete stopped step_limit failed : TaskOutcome

pub record TaskRequest : Type 0 where
  pub session_id : ℕ
  pub expected_version : ℕ
  pub candles_per_second : Rate
  pub maximum_steps : ℕ
  pub task_id : ℕ

pub record TaskStatus : Type 0 where
  pub request : TaskRequest
  pub outcome : TaskOutcome
  pub frames_emitted : ℕ
  pub resulting_version : Option ℕ
  pub started_at : DateTime
  pub finished_at : Option DateTime

-- `ReplayPlaybackRunRecord`, under its primary key.
pub record RunRecord : Type 0 where
  pub run_id : ℕ
  pub run_session_id : ℕ
  pub run_expected_version : ℕ
  pub run_rate : Rate
  pub run_maximum_steps : ℕ
  pub run_outcome : TaskOutcome
  pub run_frames : ℕ
  pub run_version : Option ℕ
  pub run_started_at : ℕ
  pub run_finished_at : Option ℕ

abbrev pub Runs : Type 0
Runs = Dict ℕ RunRecord

pub data RunError : Type 0 where
  task_exists missing_or_terminal no_finish_time bad_run_page no_such_task : RunError
  bad_request : StoreError → RunError

-- `ReplayTaskRequest.__post_init__`; a version is a natural number.
abbrev pub task_request : TaskRequest → Result RunError TaskRequest
task_request r = elim (validate_schedule r.candles_per_second r.maximum_steps) [
  | ok _ ↦ ok r
  | err e ↦ err (bad_request e)
]

abbrev pub is_running : TaskOutcome → Bool
is_running running = true
is_running _ = false

abbrev pub new_run : TaskStatus → RunRecord
new_run s = record {
  run_id = s.request.task_id;
  run_session_id = s.request.session_id;
  run_expected_version = s.request.expected_version;
  run_rate = s.request.candles_per_second;
  run_maximum_steps = s.request.maximum_steps;
  run_outcome = s.outcome;
  run_frames = 0;
  run_version = none;
  run_started_at = instant s.started_at;
  run_finished_at = none;
}

-- The row that the `where` clause hits.
abbrev pub is_open_run : TaskStatus → RunRecord → Bool
is_open_run s r = r.run_session_id == s.request.session_id && is_running r.run_outcome

abbrev pub finished_run : TaskStatus → DateTime → RunRecord → RunRecord
finished_run s at r = record r {
  run_outcome = s.outcome;
  run_frames = s.frames_emitted;
  run_version = s.resulting_version;
  run_finished_at = some (instant at);
}

unfoldable pub start_run : TaskStatus → Runs → Result RunError TaskStatus × Runs
start_run s db = elim (lookup s.request.task_id db) [
  | some r ↦ (err task_exists, db)
  | none ↦ (ok s, insert s.request.task_id (new_run s) db)
]

abbrev pub finish_run :
    TaskStatus → DateTime → Option RunRecord → Runs → Result RunError TaskStatus × Runs
finish_run s at none db = (err missing_or_terminal, db)
finish_run s at (some r) db =
    if is_open_run s r
    then (ok s, insert s.request.task_id (finished_run s at r) db)
    else (err missing_or_terminal, db)

-- `record`
unfoldable pub record_status : TaskStatus → Runs → Result RunError TaskStatus × Runs
record_status s db = if is_running s.outcome then start_run s db else elim s.finished_at [
  | none ↦ (err no_finish_time, db)
  | some at ↦ finish_run s at (lookup s.request.task_id db) db
]

abbrev pub aware_of : Option ℕ → Option DateTime
aware_of none = none
aware_of (some t) = some (aware t)

-- `_status`
abbrev pub status_of : RunRecord → Result RunError TaskStatus
status_of r =
    task_request (record {
      session_id = r.run_session_id;
      expected_version = r.run_expected_version;
      candles_per_second = r.run_rate;
      maximum_steps = r.run_maximum_steps;
      task_id = r.run_id;
    })
    >>= λ request. ok (record {
      request = request;
      outcome = r.run_outcome;
      frames_emitted = r.run_frames;
      resulting_version = r.run_version;
      started_at = aware r.run_started_at;
      finished_at = aware_of r.run_finished_at;
    })

unfoldable pub load_run : ℕ → Runs → Result RunError TaskStatus
load_run i db = or_raise (lookup i db) no_such_task >>= status_of

-- `order_by(started_at.desc(), id.asc())`
abbrev pub run_precedes : RunRecord → RunRecord → Bool
run_precedes a b =
    ltb b.run_started_at a.run_started_at
    || (a.run_started_at == b.run_started_at && leb a.run_id b.run_id)

abbrev pub insert_run : RunRecord → List RunRecord → List RunRecord
insert_run a [] = a ∷ []
insert_run a (b ∷ bs) = if run_precedes a b then a ∷ b ∷ bs else b ∷ insert_run a bs

unfoldable pub runs_of : ℕ → Runs → List RunRecord
runs_of session [] = []
runs_of session ((i, r) ∷ db) =
    let rest = runs_of session db in if r.run_session_id == session then insert_run r rest else rest

abbrev pub statuses : List RunRecord → Result RunError (List TaskStatus)
statuses [] = ok []
statuses (r ∷ rs) = do s ← status_of r; rest ← statuses rs; ok (s ∷ rest)

unfoldable pub list_for_session : ℕ → ℕ → ℕ → Runs → Result RunError (List TaskStatus)
list_for_session session limit offset db =
    if ltb limit 1 || ltb 100 limit
    then err bad_run_page
    else statuses (take limit (drop offset (runs_of session db)))

abbrev pub first_status : List RunRecord → Result RunError TaskStatus
first_status [] = err no_such_task
first_status (r ∷ rs) = status_of r

unfoldable pub latest_for_session : ℕ → Runs → Result RunError TaskStatus
latest_for_session session db = first_status (runs_of session db)
