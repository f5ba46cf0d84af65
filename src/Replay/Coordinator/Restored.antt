-- ===== src/Replay/Coordinator/Restored.antt =====
-- The engine that the coordinator rebuilds from a stored session.
use mytradingsystem.Base.{
  ℕ, List, String, Result, ◌≡◌, ◌≤◌, ok, some, true, length, arith, lookup, inl, inr, Result-cases,
  Option-cases, Bool-cases, nat_keys, str_eq, ap, sym, ◌∙◌, subst,
}
use mytradingsystem.Domain.{Candle}
use mytradingsystem.Replay.Engine.{Checkpoint, Engine, Digest, replay_engine, restore}
use mytradingsystem.Replay.Store.{StoredSession, Sessions, StoreError, load, same_evidence}
use mytradingsystem.Replay.Coordinator.{restored}

restore-eq :
    (k : Checkpoint) (e : Engine) {f : Engine}
    → restore k e ≡ ok f
    → f ≡ record e { next_index = k.next_index }
unfolding restore
restore-eq k e h = ground arith

restore-fits :
    (k : Checkpoint) (e : Engine) {f : Engine}
    → restore k e ≡ ok f
    → (str_eq k.dataset_sha256 e.dataset_sha256 ≡ true) × (k.next_index ≤ length e.candles)
unfolding restore
restore-fits k e h = (ground arith, ground arith)

restore-intro :
    (k : Checkpoint) (e : Engine)
    → str_eq k.dataset_sha256 e.dataset_sha256 ≡ true
    → k.next_index ≤ length e.candles
    → restore k e ≡ ok (record e { next_index = k.next_index })
unfolding restore
restore-intro k e h l = ground arith

module _ (digest : Digest) (load_dataset : String → Result StoreError (List Candle)) where
  -- What the coordinator has checked.
  pub record Restored (i : ℕ) (db : Sessions) (s : StoredSession) (e : Engine) : Type 0 where
    pub candles : List Candle
    pub fresh : Engine
    pub found : lookup i db ≡ some s
    pub loaded : load_dataset s.checkpoint.dataset_sha256 ≡ ok candles
    pub built : replay_engine digest candles ≡ ok fresh
    pub same : same_evidence s fresh ≡ true
    pub fits : s.checkpoint.next_index ≤ length fresh.candles
    pub is : e ≡ record fresh { next_index = s.checkpoint.next_index }

  pub restored-Restored :
      (i : ℕ) (db : Sessions) {s : StoredSession} {e : Engine}
      → restored digest load_dataset i db ≡ ok (s, e)
      → Restored i db s e
  unfolding restored load
  restored-Restored i db {s} {e} h = elim (Option-cases (lookup i db)) [
    | inl q ↦ absurd (ground arith)
    | inr (old, q) ↦ elim (Result-cases (load_dataset old.checkpoint.dataset_sha256)) [
      | inr (x, l) ↦ absurd (ground arith)
      | inl (cs, l) ↦ elim (Result-cases (replay_engine digest cs)) [
        | inr (x, b) ↦ absurd (ground arith)
        | inl (f, b) ↦ elim (Bool-cases (same_evidence old f)) [
          | inr differs ↦ absurd (ground arith)
          | inl agrees ↦ elim (Result-cases (restore old.checkpoint f)) [
            | inr (x, r) ↦ absurd (ground arith)
            | inl (g, r) ↦
                let one : old ≡ s = ground arith in
                let two : g ≡ e = ground arith in
                let eq : s ≡ old = sym one in
                record {
                  candles = cs;
                  fresh = f;
                  found = q ∙ ap some one;
                  loaded = ap (λ x. load_dataset x.checkpoint.dataset_sha256) eq ∙ l;
                  built = b;
                  same = ap (λ x. same_evidence x f) eq ∙ agrees;
                  fits =
                      subst (λ x. x.checkpoint.next_index ≤ length f.candles) one
                        (restore-fits old.checkpoint f r).1;
                  is =
                      sym two
                      ∙ restore-eq old.checkpoint f r
                      ∙ ap (λ x. record f { next_index = x.checkpoint.next_index }) one;
                }
          ]
        ]
      ]
    ]
  ]

  pub Restored-restored :
      (i : ℕ) (db : Sessions) {s : StoredSession} {e : Engine}
      → Restored i db s e
      → restored digest load_dataset i db ≡ ok (s, e)
  unfolding restored load
  Restored-restored i db {s} {e} r =
      let back : restore s.checkpoint r.fresh
          ≡ ok (record r.fresh { next_index = s.checkpoint.next_index }) =
        restore-intro s.checkpoint r.fresh (ground (arith, r.same)) r.fits in
      rw (r.found, r.loaded, r.built, r.same, back) (ap (λ x. ok (s, x)) (sym r.is))
