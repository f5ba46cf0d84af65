-- ===== src/Replay/Tests.antt =====
-- Runs of the replay components on two one-minute candles, and the theorems at inputs that meet
-- their hypotheses.

use mytradingsystem.Replay.Engine.Dataset.{dataset_bytes_injective}
use mytradingsystem.Replay.Coordinator.Moves.{coordinator_seek-seek}
use mytradingsystem.Replay.Engine.Visible.{known_at, seek_shows_known}
use mytradingsystem.Replay.Engine.Bisect.{bisect_right, count_le, bisect_right-eq}
use mytradingsystem.Replay.Engine.Prefix.{IsValid, replay_engine-IsValid}
use mytradingsystem.Replay.Scheduler.Progress.{IsQuiet, Ran, run-Ran}
use mytradingsystem.Base.{
  ℕ, List, String, Result, aware, pos, ok, err, none, true, false, ◌≡◌, ◌∷◌, [], refl,
  if◌then◌else◌, str_eq, arith, ◌%◌, ◌+◌, lookup, insert, map, ◌^◌,
}
use mytradingsystem.Domain.{Candle}
use mytradingsystem.Replay.Engine.{
  Engine, Digest, Checkpoint, replay_engine, seek, checkpoint, restore, snapshot, dataset_digest,
}
use mytradingsystem.Replay.Store.{
  StoredSession, Sessions, StoreError, no_such_dataset, create, load, save, bad_steps,
}
use mytradingsystem.Replay.Coordinator.{restored, coordinator_seek}
use mytradingsystem.Replay.Scheduler.{
  World, Rate, finite, run, validate_schedule, rate_ok, slowest, fastest,
}

abbrev minute : ℕ → ℕ → Candle
minute start price = record {
  instrument_id = 1;
  timestamp = start;
  timeframe_seconds = 60;
  open_price = pos price;
  high = pos price;
  low = pos price;
  close = pos price;
  volume = pos 5;
  open_interest = none;
  is_closed = true;
}

abbrev first : Candle
first = minute 0 100

abbrev second_candle : Candle
second_candle = minute 60000000 101

abbrev two : List Candle
two = first ∷ second_candle ∷ []

abbrev toy_digest : Digest
toy_digest = record { dump = λ c. c.timestamp % 251 ∷ []; sha256 = λ bytes. "digest" }

abbrev toy_load : String → Result StoreError (List Candle)
toy_load name = if str_eq name "digest" then ok two else err no_such_dataset

abbrev fresh : Engine
fresh = record {
  candles = two;
  available_at = 60000000 ∷ 120000000 ∷ [];
  dataset_sha256 = "digest";
  next_index = 0;
}

fresh_built : replay_engine toy_digest two ≡ ok fresh
unfolding replay_engine dataset_digest
fresh_built = refl

abbrev stored : StoredSession
stored = record {
  session_id = 4;
  checkpoint = record { dataset_sha256 = "digest"; next_index = 0 };
  instrument_id = 1;
  timeframe_seconds = 60;
  total_events = 2;
  version = 0;
  checkpointed_at = 9;
}

abbrev table : Sessions
table = (4, stored) ∷ []

created_session : create 4 fresh (aware 9) [] ≡ (ok stored, table)
unfolding create checkpoint lookup insert
created_session = refl

stored_restored : restored toy_digest toy_load 4 table ≡ ok (stored, fresh)
unfolding restored load lookup replay_engine dataset_digest restore
stored_restored = refl

fresh-IsValid : IsValid fresh
fresh-IsValid = (replay_engine-IsValid toy_digest two fresh_built).0

replay_engine-IsValid_example : IsValid fresh × (fresh.candles ≡ two) × (fresh.next_index ≡ 0)
replay_engine-IsValid_example = replay_engine-IsValid toy_digest two fresh_built

seek_shows_known_example :
    ((seek (aware 60000000) fresh).0 ≡ ok (known_at 60000000 two))
    × (snapshot (seek (aware 60000000) fresh).1 ≡ known_at 60000000 two)
    × IsValid (seek (aware 60000000) fresh).1
seek_shows_known_example = seek_shows_known fresh 60000000 fresh-IsValid

known_first : known_at 60000000 two ≡ first ∷ []
known_first = refl

bisect_right-eq_example : bisect_right (10 ∷ 20 ∷ 20 ∷ []) 20 ≡ count_le 20 (10 ∷ 20 ∷ 20 ∷ [])
bisect_right-eq_example =
    bisect_right-eq (10 ∷ 20 ∷ 20 ∷ []) 20
      ((omega arith, (omega arith, tt)), ((omega arith, tt), (tt, tt)))

dataset_bytes_injective_example : map toy_digest.dump two ≡ map toy_digest.dump two
dataset_bytes_injective_example =
    dataset_bytes_injective toy_digest two two (omega arith, (omega arith, tt))
      (omega arith, (omega arith, tt)) refl

abbrev moved_session : StoredSession
moved_session = record {
  session_id = 4;
  checkpoint = record { dataset_sha256 = "digest"; next_index = 1 };
  instrument_id = 1;
  timeframe_seconds = 60;
  total_events = 2;
  version = 1;
  checkpointed_at = 12;
}

abbrev one_in : Checkpoint
one_in = record { dataset_sha256 = "digest"; next_index = 1 }

saved_session : save 4 one_in 0 (aware 12) table ≡ (ok moved_session, (4, moved_session) ∷ [])
unfolding save lookup insert
saved_session = refl

coordinator_seek-seek_example :
    (s' : StoredSession) × (db' : Sessions) × (coordinator_seek toy_digest toy_load 4
        (aware 60000000)
        0
        (aware 12)
        table
      ≡ (ok s', db'))
    × (restored toy_digest toy_load 4 db' ≡ ok (s', (seek (aware 60000000) fresh).1))
coordinator_seek-seek_example =
    coordinator_seek-seek toy_digest toy_load 4 60000000 12 table stored fresh stored_restored

abbrev calm : World
calm = record {
  stop_before = λ n. false;
  stop_after = λ n. false;
  now = λ n. aware (20 + n);
  others = λ n db. db;
}

calm-IsQuiet : IsQuiet calm
calm-IsQuiet = record {
  goes_on = λ n. (refl, refl);
  alone = λ n db. refl;
  clock = λ n. (20 + n, refl);
}

-- One frame a second.
abbrev each_second : Rate
each_second = finite (pos (2 ^ 1074))

five_steps : validate_schedule each_second 5 ≡ ok tt
unfolding validate_schedule rate_ok slowest fastest
five_steps = refl

run-Ran_example :
    Ran toy_digest toy_load calm calm-IsQuiet 4 table fresh 2 5 0
      (run toy_digest toy_load calm 4 0 each_second 5 table)
run-Ran_example =
    run-Ran toy_digest toy_load calm calm-IsQuiet 4 5 2 each_second table stored fresh five_steps
      stored_restored refl

-- A run of no steps is refused.
no_steps : validate_schedule each_second 0 ≡ err bad_steps
unfolding validate_schedule rate_ok slowest fastest
no_steps = refl
