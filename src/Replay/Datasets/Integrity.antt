-- ===== src/Replay/Datasets/Integrity.antt =====
-- What a loaded dataset is known to be.
use mytradingsystem.Base.{
  text_keys, List, String, ◌≡◌, ok, true, Result-cases, arith, length, eq_iff, inl, inr, subst, sym,
  ◌∙◌, Option-cases, lookup, some, raise_if-ok,
}
use mytradingsystem.Domain.{Candle}
use mytradingsystem.Replay.Engine.{
  Digest, Engine, replay_engine, dataset_digest, instrument_of, timeframe_of,
}
use mytradingsystem.Replay.Datasets.{
  StoredDataset, DatasetRecord, CandleJson, is_intact, verified, validated_candles, Datasets,
  load_dataset, first_time, last_time, parsed, bad_dataset_digest,
}
use mytradingsystem.Auth.Tokens.{is_bad_digest}

pub engine-ok :
    (d : Digest) (cs : List Candle) {e : Engine}
    → replay_engine d cs ≡ ok e
    → (e.candles ≡ cs) × (e.dataset_sha256 ≡ dataset_digest d cs)
unfolding replay_engine
engine-ok d cs h = (ground arith, ground arith)

-- Candles that form an engine, and that the row describes.
pub record Intact (d : Digest) (s : StoredDataset) (cs : List Candle) : Type 0 where
  pub engine : Engine
  pub replays : replay_engine d cs ≡ ok engine
  pub same_digest : dataset_digest d cs ≡ s.dataset_sha256
  pub same_instrument : instrument_of cs ≡ s.instrument_id
  pub same_timeframe : timeframe_of cs ≡ s.timeframe_seconds
  pub same_total : length cs ≡ s.total_events
  pub same_first : first_time cs ≡ s.first_timestamp
  pub same_last : last_time cs ≡ s.last_timestamp

intact-fields :
    (s : StoredDataset) (sha : String) (cs : List Candle)
    → is_intact s sha cs ≡ true
    → (sha ≡ s.dataset_sha256)
      × (instrument_of cs ≡ s.instrument_id)
      × (timeframe_of cs ≡ s.timeframe_seconds)
      × (length cs ≡ s.total_events)
      × (first_time cs ≡ s.first_timestamp)
      × (last_time cs ≡ s.last_timestamp)
intact-fields s sha cs h = (
  ground (arith, eq_iff sha s.dataset_sha256),
  ground arith,
  ground arith,
  ground arith,
  ground arith,
  ground arith,
)

verified-Intact :
    (d : Digest) (s : StoredDataset) (cs : List Candle) {out : List Candle}
    → verified d s cs ≡ ok out
    → Intact d s out
verified-Intact d s cs h = elim (Result-cases (replay_engine d cs)) [
  | inr (x, q) ↦ absurd (ground (arith, q))
  | inl (e, q) ↦
      let same : cs ≡ _ = ground (arith, q) in
      let intact : is_intact s e.dataset_sha256 cs ≡ true = ground (arith, q) in
      let (digest, instrument, timeframe, total, first, last) =
        intact-fields s e.dataset_sha256 cs intact in
      subst (Intact d s) same (record {
        engine = e;
        replays = q;
        same_digest = sym (engine-ok d cs q).1 ∙ digest;
        same_instrument = instrument;
        same_timeframe = timeframe;
        same_total = total;
        same_first = first;
        same_last = last;
      })
]

-- The digest of each row is its key, as in a table under that primary key.
pub record Keyed {J : Type 0} (db : Datasets J) : Type 0 where
  pub own_key :
      (k : String) (r : DatasetRecord J) → lookup k db ≡ some r → r.stored.dataset_sha256 ≡ k

module _ {J : Type 0} (d : Digest) (j : CandleJson J) where
  validated-Intact :
      (r : DatasetRecord J) {cs : List Candle}
      → validated_candles d j r ≡ ok cs
      → Intact d r.stored cs
  unfolding validated_candles
  validated-Intact r h = elim (Option-cases (parsed j r.payload)) [
    | inl q ↦ absurd (ground (arith, q))
    | inr (cs, q) ↦ verified-Intact d r.stored cs (ground (arith, q))
  ]

  load-validated :
      (sha : String) (db : Datasets J) {cs : List Candle}
      → load_dataset d j sha db ≡ ok cs
      → (r : DatasetRecord J) × (lookup sha db ≡ some r) × (validated_candles d j r ≡ ok cs)
  unfolding load_dataset
  load-validated sha db h =
      let (_, found) = raise_if-ok (is_bad_digest sha) bad_dataset_digest _ h in
      elim (Option-cases (lookup sha db)) [
        | inl q ↦ absurd (ground (arith, q))
        | inr (r, q) ↦ (r, q, ground (arith, q))
      ]

  -- Whatever the rows hold, a load that returned gives candles that form an engine, whose digest is
  -- the one asked for, and that the row describes.
  pub load_dataset-Intact :
      (sha : String) (db : Datasets J) {cs : List Candle}
      → Keyed db
      → load_dataset d j sha db ≡ ok cs
      → (dataset_digest d cs ≡ sha)
        × (r : DatasetRecord J) × (lookup sha db ≡ some r)
        × Intact d r.stored cs
  load_dataset-Intact sha db keyed h =
      let (r, found, valid) = load-validated sha db h in
      let intact = validated-Intact r valid in
      (intact.same_digest ∙ keyed.own_key sha r found, r, found, intact)
