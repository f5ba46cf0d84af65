-- ===== src/Replay/Store/Saving.antt =====
-- `save`: what it stores, the refusal of a stale version, and the sessions it leaves alone.
use mytradingsystem.Base.{
  ℕ, ◌+◌, ◌≡◌, ◌≢◌, ◌≤◌, ok, err, some, aware, true, arith, insert, lookup, inl, inr,
  lookup-insert_self, lookup-insert_ne, Option-cases, Bool-cases, nat_keys, DateTime, eq_iff, ap,
  ◌∙◌, instant,
}
use mytradingsystem.Replay.Engine.{Checkpoint}
use mytradingsystem.Replay.Store.{
  StoredSession, Sessions, StoreError, stale_checkpoint, save, saved, hits, load,
}

-- A successful save, taken apart.
pub save-ok :
    (i : ℕ) (c : Checkpoint) (v : ℕ) (at : DateTime) (db : Sessions) {s : StoredSession}
    {db' : Sessions}
    → save i c v at db ≡ (ok s, db')
    → (old : StoredSession) × (lookup i db ≡ some old)
      × (hits old c v ≡ true)
      × (s ≡ saved old c v (instant at))
      × (db' ≡ insert i s db)
unfolding save
save-ok i c v at db {s} {db'} h = elim (Option-cases (lookup i db)) [
  | inl q ↦ absurd (ground arith)
  | inr (old, q) ↦ elim (Bool-cases (hits old c v)) [
    | inr differs ↦ absurd (ground arith)
    | inl agrees ↦ (old, q, agrees, ground arith, ground arith)
  ]
]

-- What a save that returned leaves in the table: a load gives the session that it returned, whose
-- index is the checkpoint's, within the dataset, and whose version is one more.
pub load-save :
    (i : ℕ) (c : Checkpoint) (v : ℕ) (at : DateTime) (db : Sessions) {s : StoredSession}
    {db' : Sessions}
    → save i c v at db ≡ (ok s, db')
    → (load i db' ≡ ok s)
      × (s.checkpoint ≡ c)
      × (s.version ≡ v + 1)
      × (s.checkpoint.next_index ≤ s.total_events)
unfolding load
load-save i c v at db {s} {db'} h =
    let (old, q, hit, is, table) = save-ok i c v at db h in
    let found : lookup i db' ≡ some s = ap (lookup i) table ∙ lookup-insert_self i s db in
    (
      ground arith,
      ground (arith, eq_iff old.checkpoint.dataset_sha256 c.dataset_sha256),
      ground arith,
      ground arith,
    )

-- Of two saves from the same version the second is refused and writes nothing.
save-lost_update :
    (i : ℕ) (c k : Checkpoint) (v : ℕ) (at : DateTime) (t : ℕ) (db : Sessions) {s : StoredSession}
    {db' : Sessions}
    → save i c v at db ≡ (ok s, db')
    → save i k v (aware t) db' ≡ (err stale_checkpoint, db')
unfolding save
save-lost_update i c k v at t db {s} {db'} h =
    let (old, q, hit, is, table) = save-ok i c v at db h in
    let found : lookup i db' ≡ some s = ap (lookup i) table ∙ lookup-insert_self i s db in
    let version : s.version ≡ v + 1 = ground arith in ground arith

-- What a save that returned leaves in the table: a load gives the session that it returned, whose
-- index is the checkpoint's, within the dataset, and whose version is one more; and a further save
-- from the same version is refused and writes nothing.
pub load-save_once :
    (i : ℕ) (c : Checkpoint) (v : ℕ) (at : DateTime) (db : Sessions) {s : StoredSession}
    {db' : Sessions}
    → save i c v at db ≡ (ok s, db')
    → ((load i db' ≡ ok s)
        × (s.checkpoint ≡ c)
        × (s.version ≡ v + 1)
        × (s.checkpoint.next_index ≤ s.total_events))
      × ((k : Checkpoint) (t : ℕ) → save i k v (aware t) db' ≡ (err stale_checkpoint, db'))
load-save_once i c v at db h = (load-save i c v at db h, λ k t. save-lost_update i c k v at t db h)

-- A save leaves the other sessions as they were.
pub lookup-save_ne :
    (i j : ℕ) (c : Checkpoint) (v : ℕ) (at : DateTime) (db : Sessions)
    → j ≢ i
    → lookup j (save i c v at db).1 ≡ lookup j db
unfolding save
lookup-save_ne i j c v at db ne = elim (Option-cases (lookup i db)) [
  | inl q ↦ ground arith
  | inr (old, q) ↦ ground (arith, lookup-insert_ne j i (saved old c v (instant at)) db)
]

-- A save that fails has written nothing.
pub save_error_unchanged :
    (i : ℕ) (c : Checkpoint) (v : ℕ) (at : DateTime) (db : Sessions) {x : StoreError}
    → (save i c v at db).0 ≡ err x
    → (save i c v at db).1 ≡ db
unfolding save
save_error_unchanged i c v at db h = ground arith
