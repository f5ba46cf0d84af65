-- ===== src/Replay/Coordinator/Moves.antt =====
-- The coordinator against the engine: a call moves the stored session as the operation moves the
-- engine in memory.
use mytradingsystem.Base.{
  ℕ, List, String, Result, DateTime, ◌+◌, ◌≡◌, ◌≤◌, ◌<◌, ok, some, none, aware, true, false, length,
  arith, lookup, insert, inl, inr, Bool-cases, nat_keys, ap, sym, ap₂, subst, ◌==◌, refl,
  lookup-insert_self,
}
use mytradingsystem.Domain.{Candle}
use mytradingsystem.Replay.Engine.{Checkpoint, Engine, Digest, Frame, step, seek, checkpoint}
use mytradingsystem.Replay.Engine.Prefix.{IsValid, replay_engine-IsValid}
use mytradingsystem.Replay.Engine.Visible.{move-IsValid, step_emits, seek_shows_known}
use mytradingsystem.Replay.Store.{StoredSession, Sessions, StoreError, save, saved, hits}
use mytradingsystem.Replay.Coordinator.{
  Mutation, restored, coordinator_step, coordinator_seek, same_checkpoint,
}
use mytradingsystem.Replay.Coordinator.Restored.{Restored, restored-Restored, Restored-restored}

save-hit :
    (i : ℕ) (c : Checkpoint) (v t : ℕ) (db : Sessions) (s : StoredSession)
    → lookup i db ≡ some s
    → hits s c v ≡ true
    → save i c v (aware t) db ≡ (ok (saved s c v t), insert i (saved s c v t) db)
unfolding save
save-hit i c v t db s q h = rw (q, h)

same_index :
    (e : Engine) (s : StoredSession) (n : ℕ)
    → s.checkpoint.next_index ≡ e.next_index
    → same_checkpoint (checkpoint (record e { next_index = n })) s.checkpoint ≡ true
    → n ≡ e.next_index
unfolding checkpoint
same_index e s n place h = ground arith

module _ (digest : Digest) (load_dataset : String → Result StoreError (List Candle)) where
  pub Restored-IsValid :
      (i : ℕ) (db : Sessions) {s : StoredSession} {e : Engine}
      → Restored digest load_dataset i db s e
      → IsValid e
  Restored-IsValid i db r =
      let (v, same, start) = replay_engine-IsValid digest r.candles r.built in
      subst IsValid (sym r.is) (move-IsValid r.fresh _ v r.fits)

  moved :
      (i : ℕ) (db : Sessions) (s : StoredSession) (e : Engine) (n v t : ℕ)
      → Restored digest load_dataset i db s e
      → n ≤ length e.candles
      → Restored digest load_dataset i
          (insert i (saved s (checkpoint (record e { next_index = n })) v t) db)
          (saved s (checkpoint (record e { next_index = n })) v t)
          (record e { next_index = n })
  unfolding checkpoint
  moved i db s e n v t r h = record {
    candles = r.candles;
    fresh = r.fresh;
    found = lookup-insert_self i (saved s (checkpoint (record e { next_index = n })) v t) db;
    loaded = r.loaded;
    built = r.built;
    same = r.same;
    fits = subst (λ x. n ≤ length x.candles) r.is h;
    is = ap {A = Engine} (λ x. record x { next_index = n }) r.is;
  }

  moved_hits :
      (i : ℕ) (db : Sessions) (s : StoredSession) (e : Engine) (n : ℕ)
      → Restored digest load_dataset i db s e
      → n ≤ length e.candles
      → hits s (checkpoint (record e { next_index = n })) s.version ≡ true
  unfolding checkpoint
  moved_hits i db s e n r h =
      let n_fits : n ≤ length r.fresh.candles = subst (λ x. n ≤ length x.candles) r.is h in
      let digests : e.dataset_sha256 ≡ r.fresh.dataset_sha256 = ap (λ x. x.dataset_sha256) r.is in
      ground (arith, r.same, digests)

  pub step-going :
      (e : Engine)
      → IsValid e
      → e.next_index < length e.candles
      → (f : Frame) × (step e ≡ (some f, record e { next_index = e.next_index + 1 }))
  unfolding step
  step-going e v lt =
      let (c, q, emitted, grown, after) = step_emits e v lt in
      let going : (e.next_index == length e.candles) ≡ false = ground arith in
      let moves : (step e).1 ≡ record e { next_index = e.next_index + 1 } = rw going in
      (_, ap₂ (λ a b. (a, b)) emitted moves)

  -- A step of a stored session before its end stores the engine's step: the frame is the engine's,
  -- the version grows by one, and the engine that the new table restores is the stepped one.
  pub coordinator_step-step :
      (i t : ℕ) (db : Sessions) (s : StoredSession) (e : Engine)
      → restored digest load_dataset i db ≡ ok (s, e)
      → e.next_index < length e.candles
      → (m : Mutation) × (db' : Sessions) × (coordinator_step digest load_dataset i s.version
            (aware t)
            db
          ≡ (ok m, db'))
        × (m.frame ≡ (step e).0)
        × (m.session.version ≡ s.version + 1)
        × (restored digest load_dataset i db' ≡ ok (m.session, (step e).1))
  unfolding coordinator_step
  coordinator_step-step i t db s e h lt =
      let r = restored-Restored digest load_dataset i db h in
      let (f, q) = step-going e (Restored-IsValid i db r) lt in
      let s' : StoredSession =
        saved s (checkpoint (record e { next_index = e.next_index + 1 })) s.version t in
      let stored =
        save-hit i (checkpoint (record e { next_index = e.next_index + 1 })) s.version t db s
          r.found (moved_hits i db s e (e.next_index + 1) r (omega arith)) in
      let again =
        Restored-restored digest load_dataset i _
          (moved i db s e (e.next_index + 1) s.version t r (omega arith)) in
      let current : (s.version == s.version) ≡ true = ground arith in
      (
        record { session = s'; frame = some f },
        insert i s' db,
        ground (arith, h, current, q, stored),
        rw q,
        refl,
        rw q again,
      )

  -- At the end of its dataset a step changes nothing and has no frame.
  pub coordinator_step_complete :
      (i : ℕ) (at : DateTime) (db : Sessions) (s : StoredSession) (e : Engine)
      → restored digest load_dataset i db ≡ ok (s, e)
      → e.next_index ≡ length e.candles
      → coordinator_step digest load_dataset i s.version at db
        ≡ (ok (record { session = s; frame = none }), db)
  unfolding coordinator_step step
  coordinator_step_complete i at db s e h end =
      let current : (s.version == s.version) ≡ true = ground arith in
      let at_end : (e.next_index == length e.candles) ≡ true = ground arith in
      ground (arith, h, current, at_end)

  pub Restored-place :
      (i : ℕ) (db : Sessions) {s : StoredSession} {e : Engine}
      → Restored digest load_dataset i db s e
      → (s.checkpoint.next_index ≡ e.next_index) × (s.total_events ≡ length e.candles)
  Restored-place i db r =
      let counted : length r.fresh.candles ≡ length _ = ap (λ x. length x.candles) (sym r.is) in
      (ap (λ x. x.next_index) (sym r.is), ground (arith, r.same, counted))

  seek-bisects :
      (e : Engine) (a : ℕ)
      → IsValid e
      → (n : ℕ) × (shown : List Candle) × (seek (aware a) e
          ≡ (ok shown, record e { next_index = n }))
        × (n ≤ length e.candles)
  unfolding seek
  seek-bisects e a v =
      let (result, shown, after) = seek_shows_known e a v in (_, _, refl, after.in_range)

  -- A seek of a stored session stores the engine's seek: the engine that the new table restores is
  -- the one that has sought.
  pub coordinator_seek-seek :
      (i a t : ℕ) (db : Sessions) (s : StoredSession) (e : Engine)
      → restored digest load_dataset i db ≡ ok (s, e)
      → (s' : StoredSession) × (db' : Sessions) × (coordinator_seek digest load_dataset i
            (aware a)
            s.version
            (aware t)
            db
          ≡ (ok s', db'))
        × (restored digest load_dataset i db' ≡ ok (s', (seek (aware a) e).1))
  unfolding coordinator_seek
  coordinator_seek-seek i a t db s e h =
      let r = restored-Restored digest load_dataset i db h in
      let (n, shown, q, fits) = seek-bisects e a (Restored-IsValid i db r) in
      let e' : Engine = record e { next_index = n } in
      let current : (s.version == s.version) ≡ true = ground arith in
      elim (Bool-cases (same_checkpoint (checkpoint e') s.checkpoint)) [
        | inl stays ↦
            let index : n ≡ e.next_index = same_index e s n (Restored-place i db r).0 stays in
            (s, db, ground (arith, h, current, q, stays), rw (q, index) h)
        | inr differs ↦
            let stored =
              save-hit i (checkpoint e') s.version t db s r.found (moved_hits i db s e n r fits) in
            let s' : StoredSession = saved s (checkpoint e') s.version t in
            (
              s',
              insert i s' db,
              ground (arith, h, current, q, differs, stored),
              rw q
                  (Restored-restored digest load_dataset i _ (moved i db s e n s.version t r fits)),
            )
      ]
