-- ===== src/Replay/Runs/Tests.antt =====
-- Two runs of a session, and the theorem at the end of one.
use mytradingsystem.Base.{
  nat_keys, DateTime, [], lookup, none, some, ℕ, ◌∷◌, aware, insert, pos, ◌^◌, ◌≡◌, err, ok, refl,
  true,
}
use mytradingsystem.Replay.Scheduler.{finite}
use mytradingsystem.Replay.Runs.{
  TaskRequest, TaskStatus, TaskOutcome, running, step_limit, failed, RunRecord, Runs, is_open_run,
  new_run, finished_run, start_run, record_status, runs_of, missing_or_terminal,
}
use mytradingsystem.Replay.Runs.Final.{after_records, record_final}

abbrev request_of : ℕ → TaskRequest
request_of i = record {
  session_id = 4;
  expected_version = 1;
  candles_per_second = finite (pos (2 ^ 1074));
  maximum_steps = 10;
  task_id = i;
}

abbrev started : ℕ → ℕ → TaskStatus
started i t = record {
  request = request_of i;
  outcome = running;
  frames_emitted = 0;
  resulting_version = none;
  started_at = aware t;
  finished_at = none;
}

abbrev ended : TaskOutcome → TaskStatus
ended outcome = record {
  request = request_of 1;
  outcome = outcome;
  frames_emitted = 10;
  resulting_version = some 11;
  started_at = aware 5;
  finished_at = some (aware 9);
}

abbrev one_run : Runs
one_run = after_records (started 1 5 ∷ []) []

abbrev open_run : RunRecord
open_run = new_run (started 1 5)

one_started : lookup 1 one_run ≡ some open_run
unfolding record_status start_run lookup insert
one_started = refl

abbrev one_ended : Runs
one_ended = (record_status (ended step_limit) one_run).1

run_ends : record_status (ended step_limit) one_run ≡ (ok (ended step_limit), one_ended)
unfolding record_status start_run lookup insert
run_ends = refl

ends_once : record_status (ended failed) one_ended ≡ (err missing_or_terminal, one_ended)
unfolding record_status start_run lookup insert
ends_once = refl

-- The later start comes first.
latest_first :
    runs_of 4 (after_records (started 2 6 ∷ []) one_run) ≡ new_run (started 2 6) ∷ open_run ∷ []
unfolding record_status start_run lookup insert runs_of
latest_first = refl

record_final_example :
    (at : DateTime) × (old : RunRecord) × (some (aware 9) ≡ some at)
    × (lookup 1 one_run ≡ some old)
    × (is_open_run (ended step_limit) old ≡ true)
    × (lookup 1 (after_records (ended failed ∷ started 1 20 ∷ []) one_ended)
        ≡ some (finished_run (ended step_limit) at old))
record_final_example =
    record_final (ended step_limit) (ended failed ∷ started 1 20 ∷ []) one_run refl run_ends
