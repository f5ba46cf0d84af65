-- ===== src/Replay/Store.antt =====
-- packages/replay/persistence.py: replay sessions in one table, with optimistic concurrency. A time
-- comes back from its column as it was written.
pub mod Saving
use mytradingsystem.Replay.Engine.{
  Checkpoint, Engine, ReplayError, checkpoint, instrument_of, timeframe_of, total,
}
use mytradingsystem.Base.{
  Bool, nat_keys, Dict, List, ℕ, DateTime, Result, [], ltb, str_eq, ◌+◌, ◌==◌, ◌∷◌, if◌then◌else◌,
  or_raise, ◌&&◌, ◌||◌, err, is_naive, leb, lookup, ok, none, some, take, drop, instant, insert,
}

-- `ReplaySessionRecord`, under its primary key, and `StoredReplaySession` at once.
pub record StoredSession : Type 0 where
  pub session_id : ℕ
  pub checkpoint : Checkpoint
  pub instrument_id : ℕ
  pub timeframe_seconds : ℕ
  pub total_events : ℕ
  pub version : ℕ
  pub checkpointed_at : ℕ

abbrev pub Sessions : Type 0
Sessions = Dict ℕ StoredSession

pub data StoreError : Type 0 where
  naive_checkpoint_time conflicting_dataset no_such_session bad_page stale_checkpoint : StoreError
  engine_error : ReplayError → StoreError
  stale_version evidence_mismatch no_such_dataset bad_rate bad_steps : StoreError

-- The stored session's evidence is the engine's.
abbrev pub same_evidence : StoredSession → Engine → Bool
same_evidence s e =
    str_eq s.checkpoint.dataset_sha256 e.dataset_sha256
    && s.instrument_id == instrument_of e.candles
    && s.timeframe_seconds == timeframe_of e.candles
    && s.total_events == total e

abbrev pub new_session : ℕ → Engine → ℕ → StoredSession
new_session i e t = record {
  session_id = i;
  checkpoint = checkpoint e;
  instrument_id = instrument_of e.candles;
  timeframe_seconds = timeframe_of e.candles;
  total_events = total e;
  version = 0;
  checkpointed_at = t;
}

unfoldable pub create :
    ℕ → Engine → DateTime → Sessions → Result StoreError StoredSession × Sessions
create i e at db = if is_naive at then (err naive_checkpoint_time, db) else elim (lookup i db) [
  | some stored ↦ if same_evidence stored e then (ok stored, db) else (err conflicting_dataset, db)
  | none ↦ (ok (new_session i e (instant at)), insert i (new_session i e (instant at)) db)
]

unfoldable pub load : ℕ → Sessions → Result StoreError StoredSession
load i db = or_raise (lookup i db) no_such_session

-- `order_by(checkpointed_at.desc(), id.asc())`
abbrev pub precedes : StoredSession → StoredSession → Bool
precedes a b =
    ltb b.checkpointed_at a.checkpointed_at
    || (a.checkpointed_at == b.checkpointed_at && leb a.session_id b.session_id)

abbrev pub insert_session : StoredSession → List StoredSession → List StoredSession
insert_session a [] = a ∷ []
insert_session a (b ∷ bs) = if precedes a b then a ∷ b ∷ bs else b ∷ insert_session a bs

abbrev pub ordered : Sessions → List StoredSession
ordered [] = []
ordered ((i, s) ∷ db) = insert_session s (ordered db)

unfoldable pub list_recent : ℕ → ℕ → Sessions → Result StoreError (List StoredSession)
list_recent limit offset db =
    if ltb limit 1 || ltb 100 limit
    then err bad_page
    else ok (take limit (drop offset (ordered db)))

-- The row that the `where` clause of `save` hits.
abbrev pub hits : StoredSession → Checkpoint → ℕ → Bool
hits s c expected =
    s.version == expected
    && str_eq s.checkpoint.dataset_sha256 c.dataset_sha256
    && leb c.next_index s.total_events

abbrev pub saved : StoredSession → Checkpoint → ℕ → ℕ → StoredSession
saved s c expected t = record s {
  checkpoint = record { dataset_sha256 = s.checkpoint.dataset_sha256; next_index = c.next_index };
  version = expected + 1;
  checkpointed_at = t;
}

-- `save`; versions and indices are natural numbers, so the test for negative ones is void.
unfoldable pub save :
    ℕ → Checkpoint → ℕ → DateTime → Sessions → Result StoreError StoredSession × Sessions
save i c expected at db =
    if is_naive at then (err naive_checkpoint_time, db) else elim (lookup i db) [
      | none ↦ (err stale_checkpoint, db)
      | some s ↦
          if hits s c expected
          then (let s' = saved s c expected (instant at) in (ok s', insert i s' db))
          else (err stale_checkpoint, db)
    ]
