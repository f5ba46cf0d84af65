-- ===== src/Replay/Coordinator.antt =====
-- packages/replay/service.py: a session is rebuilt from its dataset and checkpoint, moved, and saved.
-- The dataset loader is the protocol `ReplayDatasetLoader`: a parameter.
pub mod Restored
pub mod Moves
use mytradingsystem.Domain.{Candle}
use mytradingsystem.Replay.Store.{
  StoredSession, StoreError, engine_error, Sessions, load, save, stale_version, same_evidence,
  evidence_mismatch,
}
use mytradingsystem.Base.{
  Result, Option, String, List, err, ok, ℕ, Bool, DateTime, if◌then◌else◌, str_eq, ◌>>=◌, ◌>>◌,
  none, not, some, ◌&&◌, ◌==◌, raise_if,
}
use mytradingsystem.Replay.Engine.{
  Digest, restore, ReplayError, Frame, Checkpoint, Engine, checkpoint, snapshot, replay_engine,
  seek, step,
}

pub record Mutation : Type 0 where
  pub session : StoredSession
  pub frame : Option Frame

abbrev pub lift_engine {ℓ} : {A : Type ℓ} → Result ReplayError A → Result StoreError A
lift_engine (ok a) = ok a
lift_engine (err e) = err (engine_error e)

abbrev pub same_checkpoint : Checkpoint → Checkpoint → Bool
same_checkpoint a b = str_eq a.dataset_sha256 b.dataset_sha256 && a.next_index == b.next_index

module _ (digest : Digest) (load_dataset : String → Result StoreError (List Candle)) where
  -- `_restore`
  unfoldable pub restored : ℕ → Sessions → Result StoreError (StoredSession × Engine)
  restored i db = do
    stored ← load i db
    candles ← load_dataset stored.checkpoint.dataset_sha256
    engine ← lift_engine (replay_engine digest candles)
    raise_if (not (same_evidence stored engine)) evidence_mismatch
    engine' ← lift_engine (restore stored.checkpoint engine)
    ok (stored, engine')

  -- What follows a step of the engine.
  abbrev pub save_frame :
      ℕ
      → ℕ
      → DateTime
      → Sessions
      → StoredSession
      → Option Frame × Engine
      → Result StoreError Mutation × Sessions
  save_frame i expected at db stored (none, e) =
      (ok (record { session = stored; frame = none }), db)
  save_frame i expected at db stored (some f, e) =
      let (r, db') = save i (checkpoint e) expected at db in
      (r >>= λ s. ok (record { session = s; frame = some f }), db')

  unfoldable pub coordinator_step :
      ℕ → ℕ → DateTime → Sessions → Result StoreError Mutation × Sessions
  coordinator_step i expected at db = elim (restored i db) [
    | err x ↦ (err x, db)
    | ok (stored, e) ↦
        if not (stored.version == expected)
        then (err stale_version, db)
        else save_frame i expected at db stored (step e)
  ]

  abbrev pub save_seek :
      ℕ
      → ℕ
      → DateTime
      → Sessions
      → StoredSession
      → Result ReplayError (List Candle) × Engine
      → Result StoreError StoredSession × Sessions
  save_seek i expected at db stored (err x, e) = (err (engine_error x), db)
  save_seek i expected at db stored (ok shown, e) =
      if same_checkpoint (checkpoint e) stored.checkpoint
      then (ok stored, db)
      else save i (checkpoint e) expected at db

  unfoldable pub coordinator_seek :
      ℕ → DateTime → ℕ → DateTime → Sessions → Result StoreError StoredSession × Sessions
  coordinator_seek i as_of expected at db = elim (restored i db) [
    | err x ↦ (err x, db)
    | ok (stored, e) ↦
        if not (stored.version == expected)
        then (err stale_version, db)
        else save_seek i expected at db stored (seek as_of e)
  ]

  unfoldable pub coordinator_snapshot :
      ℕ → Sessions → Result StoreError (StoredSession × List Candle)
  coordinator_snapshot i db = do (stored, e) ← restored i db; ok (stored, snapshot e)
