-- ===== src/Replay/Datasets/Storing.antt =====
-- What is stored is loaded again.
use mytradingsystem.Base.{
  text_keys, Bool, List, Option, String, ℕ, All, DateTime, insert, ℤ, ◌≡◌, Result-cases, arith,
  false, none, some, true, [], inl, inr, lookup, lookup-insert, map, ok, refl, ◌∷◌, Option-cases,
  ap, eq_iff, instant, ◌∙◌, str_eq_refl, subst, sym, lookup-insert_self,
}
use mytradingsystem.Domain.{Candle}
use mytradingsystem.Replay.Engine.{Digest, Engine, replay_engine, dataset_digest}
use mytradingsystem.Replay.Datasets.{
  StoredDataset, DatasetRecord, CandleJson, validated_candles, Datasets, new_dataset, store,
  load_dataset, parsed, same_candles, same_interest, same_flag,
}
use mytradingsystem.Replay.Datasets.Integrity.{Keyed, engine-ok}
use mytradingsystem.Auth.Tokens.{is_bad_digest}

same_interest_refl : (x : Option ℤ) → same_interest x x ≡ true
same_interest_refl none = refl
same_interest_refl (some x) = ground arith

same_flag_refl : (b : Bool) → same_flag b b ≡ true
same_flag_refl true = refl
same_flag_refl false = refl

same_candles_refl : (cs : List Candle) → same_candles cs cs ≡ true
same_candles_refl [] = refl
same_candles_refl (c ∷ cs) =
    ground
      (arith, same_candles_refl cs, same_interest_refl c.open_interest, same_flag_refl c.is_closed)

module _ {J : Type 0} (d : Digest) (j : CandleJson J) where
  insert-Keyed :
      (e : Engine) (t : ℕ) (db : Datasets J)
      → Keyed db
      → Keyed (insert e.dataset_sha256 (new_dataset j e t) db)
  insert-Keyed e t db keyed = record {
    own_key = λ k r h. ground (
      arith,
      h,
      keyed.own_key k r,
      lookup-insert k e.dataset_sha256 (new_dataset j e t) db,
      eq_iff k e.dataset_sha256,
    );
  }

  parsed-dump :
      (cs : List Candle)
      → All (λ c. j.validate (j.dump c) ≡ some c) cs
      → parsed j (map j.dump cs) ≡ some cs
  parsed-dump [] h = refl
  parsed-dump (c ∷ cs) (p, ps) = ground (arith, p, parsed-dump cs ps)

  new-validated :
      (cs : List Candle) (e : Engine) (t : ℕ)
      → All (λ c. j.validate (j.dump c) ≡ some c) cs
      → replay_engine d cs ≡ ok e
      → validated_candles d j (new_dataset j e t) ≡ ok cs
  unfolding validated_candles
  new-validated cs e t json q =
      let (same, _) = engine-ok d cs q in
      let parses : parsed j (map j.dump e.candles) ≡ some cs =
        ap (λ xs. parsed j (map j.dump xs)) same ∙ parsed-dump cs json in
      ground (arith, parses, q, same, str_eq_refl e.dataset_sha256)

  loaded_row :
      (sha : String) (r : DatasetRecord J) (db : Datasets J) {cs : List Candle}
      → is_bad_digest sha ≡ false
      → lookup sha db ≡ some r
      → validated_candles d j r ≡ ok cs
      → load_dataset d j sha db ≡ ok cs
  unfolding load_dataset
  loaded_row sha r db good found valid = ground (arith, good, found, valid)

  -- The digest was there, with the same candles.
  stored_before :
      (cs : List Candle) (e : Engine) (at : DateTime) (db : Datasets J) (old : DatasetRecord J)
      {s : StoredDataset} {db' : Datasets J}
      → replay_engine d cs ≡ ok e
      → lookup e.dataset_sha256 db ≡ some old
      → store d j cs at db ≡ (ok s, db')
      → (out : List Candle) × (validated_candles d j old ≡ ok out)
        × (same_candles out cs ≡ true)
        × (old.stored ≡ s)
        × (db ≡ db')
  unfolding store
  stored_before cs e at db old q p h = elim (Result-cases (validated_candles d j old)) [
    | inr (x, v) ↦ absurd (ground (arith, q, p, v))
    | inl (out, v) ↦
        (out, v, ground (arith, q, p, v), ground (arith, q, p, v), ground (arith, q, p, v))
  ]

  stored_now :
      (cs : List Candle) (e : Engine) (at : DateTime) (db : Datasets J) {s : StoredDataset}
      {db' : Datasets J}
      → replay_engine d cs ≡ ok e
      → lookup e.dataset_sha256 db ≡ none
      → store d j cs at db ≡ (ok s, db')
      → ((new_dataset j e (instant at)).stored ≡ s)
        × (insert e.dataset_sha256 (new_dataset j e (instant at)) db ≡ db')
  unfolding store
  stored_now cs e at db q p h = (ground (arith, q, p), ground (arith, q, p))

  engine-stored :
      (cs : List Candle) (at : DateTime) (db : Datasets J) {s : StoredDataset} {db' : Datasets J}
      → store d j cs at db ≡ (ok s, db')
      → (e : Engine) × (replay_engine d cs ≡ ok e)
  unfolding store
  engine-stored cs at db h = elim (Result-cases (replay_engine d cs)) [
    | inl (e, q) ↦ (e, q)
    | inr (x, q) ↦ absurd (ground (arith, q))
  ]

  -- What the table has under the engine's digest after the call.
  row_stored :
      (cs : List Candle) (e : Engine) (at : DateTime) (db : Datasets J) {s : StoredDataset}
      {db' : Datasets J}
      → All (λ c. j.validate (j.dump c) ≡ some c) cs
      → Keyed db
      → replay_engine d cs ≡ ok e
      → store d j cs at db ≡ (ok s, db')
      → (out : List Candle) × (r : DatasetRecord J) × (lookup e.dataset_sha256 db' ≡ some r)
        × (validated_candles d j r ≡ ok out)
        × (same_candles out cs ≡ true)
        × (s.dataset_sha256 ≡ e.dataset_sha256)
        × Keyed db'
  row_stored cs e at db {s} {db'} json keyed q h =
      elim (Option-cases (lookup e.dataset_sha256 db)) [
        | inr (old, p) ↦
            let (out, valid, same, is, unchanged) = stored_before cs e at db old q p h in
            (
              out,
              old,
              ap (λ t. lookup e.dataset_sha256 t) (sym unchanged) ∙ p,
              valid,
              same,
              ap (λ x. x.dataset_sha256) (sym is) ∙ keyed.own_key e.dataset_sha256 old p,
              subst (λ t. Keyed t) unchanged keyed,
            )
        | inl p ↦
            let (is, added) = stored_now cs e at db q p h in
            let new = new_dataset j e (instant at) in
            (
              cs,
              new,
              ap (λ t. lookup e.dataset_sha256 t) (sym added)
                  ∙ lookup-insert_self e.dataset_sha256 new db,
              new-validated cs e (instant at) json q,
              same_candles_refl cs,
              ap (λ x. x.dataset_sha256) (sym is),
              subst (λ t. Keyed t) added (insert-Keyed e (instant at) db keyed),
            )
      ]

  -- Where the parser gives back what was dumped and the digest is a well-formed one, a load of the
  -- digest after a call of `store` that returned gives the candles that were given to it; the row that
  -- it returned has that digest, in a table whose rows have theirs.
  pub load-store :
      (cs : List Candle) (at : DateTime) (db : Datasets J) {s : StoredDataset} {db' : Datasets J}
      → All (λ c. j.validate (j.dump c) ≡ some c) cs
      → is_bad_digest (dataset_digest d cs) ≡ false
      → Keyed db
      → store d j cs at db ≡ (ok s, db')
      → (out : List Candle) × (load_dataset d j (dataset_digest d cs) db' ≡ ok out)
        × (same_candles out cs ≡ true)
        × (s.dataset_sha256 ≡ dataset_digest d cs)
        × Keyed db'
  load-store cs at db {s} {db'} json good keyed h =
      let (e, q) = engine-stored cs at db h in
      let (_, sha) = engine-ok d cs q in
      let (out, r, found, valid, same, own, keyed') = row_stored cs e at db json keyed q h in
      let found' = subst (λ x. lookup x db' ≡ some r) sha found in
      (out, loaded_row (dataset_digest d cs) r db' good found' valid, same, own ∙ sha, keyed')
