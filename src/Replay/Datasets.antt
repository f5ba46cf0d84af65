-- ===== src/Replay/Datasets.antt =====
-- packages/replay/datasets.py: candle streams in one table, under the digest of their content. The JSON
-- of a candle and its parser are a parameter; a naive time is taken as UTC, as `_utc` does.
pub mod Integrity
pub mod Storing
mod Tests
use mytradingsystem.Base.{
  text_keys, Bool, Dict, List, Option, Result, String, ℕ, DateTime, [], err, length, none, not, ok,
  some, str_eq, ℤ, ◌==◌, ◌>>=◌, ◌>>◌, ◌∷◌, false, if◌then◌else◌, lookup, map, raise_if, true, ◌&&◌,
  instant, or_raise, ◌==ℤ◌, insert, ltb, ◌||◌, codes, take, drop,
}
use mytradingsystem.Domain.{Candle}
use mytradingsystem.Replay.Engine.{
  Digest, Engine, ReplayError, replay_engine, dataset_digest, instrument_of, timeframe_of,
}
use mytradingsystem.Auth.Tokens.{is_bad_digest}

pub record StoredDataset : Type 0 where
  pub dataset_sha256 : String
  pub instrument_id : ℕ
  pub timeframe_seconds : ℕ
  pub total_events : ℕ
  pub first_timestamp : ℕ
  pub last_timestamp : ℕ
  pub created_at : ℕ

-- `ReplayDatasetRecord`: what a dataset is listed as, and the JSON of its candles.
pub record DatasetRecord (J : Type 0) : Type 0 where
  pub stored : StoredDataset
  pub payload : List J

-- `model_dump(mode="json")` and `model_validate`.
pub record CandleJson (J : Type 0) : Type 0 where
  pub dump : Candle → J
  pub validate : J → Option Candle

pub data DatasetError : Type 0 where
  invalid_candles : ReplayError → DatasetError
  conflicting_content bad_dataset_digest no_dataset invalid_payload not_intact : DatasetError
  bad_dataset_page : DatasetError

abbrev pub first_time : List Candle → ℕ
first_time [] = 0
first_time (c ∷ cs) = c.timestamp

abbrev pub last_time : List Candle → ℕ
last_time [] = 0
last_time (c ∷ []) = c.timestamp
last_time (c ∷ d ∷ cs) = last_time (d ∷ cs)

abbrev pub same_interest : Option ℤ → Option ℤ → Bool
same_interest none none = true
same_interest (some x) (some y) = x ==ℤ y
same_interest _ _ = false

abbrev pub same_flag : Bool → Bool → Bool
same_flag true b = b
same_flag false b = not b

abbrev pub same_candle : Candle → Candle → Bool
same_candle a b =
    a.instrument_id == b.instrument_id
    && a.timestamp == b.timestamp
    && a.timeframe_seconds == b.timeframe_seconds
    && a.open_price ==ℤ b.open_price
    && a.high ==ℤ b.high
    && a.low ==ℤ b.low
    && a.close ==ℤ b.close
    && a.volume ==ℤ b.volume
    && same_interest a.open_interest b.open_interest
    && same_flag a.is_closed b.is_closed

abbrev pub same_candles : List Candle → List Candle → Bool
same_candles [] [] = true
same_candles (a ∷ cs) (b ∷ ds) = same_candle a b && same_candles cs ds
same_candles _ _ = false

-- The integrity test of `_validated_candles`.
abbrev pub is_intact : StoredDataset → String → List Candle → Bool
is_intact s sha cs =
    str_eq sha s.dataset_sha256
    && instrument_of cs == s.instrument_id
    && timeframe_of cs == s.timeframe_seconds
    && length cs == s.total_events
    && first_time cs == s.first_timestamp
    && last_time cs == s.last_timestamp

abbrev pub verified : Digest → StoredDataset → List Candle → Result DatasetError (List Candle)
verified d s cs = elim (replay_engine d cs) [
  | err x ↦ err invalid_payload
  | ok e ↦ if is_intact s e.dataset_sha256 cs then ok cs else err not_intact
]

abbrev pub Datasets : Type 0 → Type 0
Datasets J = Dict String (DatasetRecord J)

abbrev pub kept :
    List Candle
    → StoredDataset
    → Result DatasetError (List Candle)
    → Result DatasetError StoredDataset
kept cs s (err x) = err x
kept cs s (ok loaded) = if same_candles loaded cs then ok s else err conflicting_content

abbrev pub codes_le : List ℕ → List ℕ → Bool
codes_le [] ys = true
codes_le (x ∷ xs) [] = false
codes_le (x ∷ xs) (y ∷ ys) = ltb x y || (x == y && codes_le xs ys)

module _ {J : Type 0} where
  abbrev pub parsed : CandleJson J → List J → Option (List Candle)
  parsed j [] = some []
  parsed j (p ∷ ps) = elim (j.validate p) [
    | none ↦ none
    | some c ↦ elim (parsed j ps) [ none ↦ none | some cs ↦ some (c ∷ cs) ]
  ]

  -- `_validated_candles`
  unfoldable pub validated_candles :
      Digest → CandleJson J → DatasetRecord J → Result DatasetError (List Candle)
  validated_candles d j r = elim (parsed j r.payload) [
    | none ↦ err invalid_payload
    | some cs ↦ verified d r.stored cs
  ]

  abbrev pub new_dataset : CandleJson J → Engine → ℕ → DatasetRecord J
  new_dataset j e t = record {
    stored = record {
      dataset_sha256 = e.dataset_sha256;
      instrument_id = instrument_of e.candles;
      timeframe_seconds = timeframe_of e.candles;
      total_events = length e.candles;
      first_timestamp = first_time e.candles;
      last_timestamp = last_time e.candles;
      created_at = t;
    };
    payload = map j.dump e.candles;
  }

  -- `store`
  unfoldable pub store :
      Digest
      → CandleJson J
      → List Candle
      → DateTime
      → Datasets J
      → Result DatasetError StoredDataset × Datasets J
  store d j cs at db = elim (replay_engine d cs) [
    | err x ↦ (err (invalid_candles x), db)
    | ok e ↦ elim (lookup e.dataset_sha256 db) [
      | some old ↦ (kept cs old.stored (validated_candles d j old), db)
      | none ↦
          let new = new_dataset j e (instant at) in (ok new.stored, insert e.dataset_sha256 new db)
    ]
  ]

  -- `load`
  unfoldable pub load_dataset :
      Digest → CandleJson J → String → Datasets J → Result DatasetError (List Candle)
  load_dataset d j sha db = do
    raise_if (is_bad_digest sha) bad_dataset_digest
    r ← or_raise (lookup sha db) no_dataset
    validated_candles d j r

  -- `order_by(created_at.desc(), dataset_sha256.asc())`, with texts in the order of their codes.
  abbrev pub row_precedes : DatasetRecord J → DatasetRecord J → Bool
  row_precedes a b =
      ltb b.stored.created_at a.stored.created_at
      || (a.stored.created_at == b.stored.created_at
          && codes_le (codes a.stored.dataset_sha256) (codes b.stored.dataset_sha256))

  abbrev pub insert_row : DatasetRecord J → List (DatasetRecord J) → List (DatasetRecord J)
  insert_row a [] = a ∷ []
  insert_row a (b ∷ bs) = if row_precedes a b then a ∷ b ∷ bs else b ∷ insert_row a bs

  unfoldable pub ordered_rows : Datasets J → List (DatasetRecord J)
  ordered_rows [] = []
  ordered_rows ((k, r) ∷ db) = insert_row r (ordered_rows db)

  -- Every row of the page is verified.
  abbrev pub verified_rows :
      Digest → CandleJson J → List (DatasetRecord J) → Result DatasetError (List StoredDataset)
  verified_rows d j [] = ok []
  verified_rows d j (r ∷ rs) = do
    _ ← validated_candles d j r
    rest ← verified_rows d j rs
    ok (r.stored ∷ rest)

  -- `list_recent`; an offset is a natural number.
  unfoldable pub list_datasets :
      Digest → CandleJson J → ℕ → ℕ → Datasets J → Result DatasetError (List StoredDataset)
  list_datasets d j limit offset db =
      if ltb limit 1 || ltb 100 limit
      then err bad_dataset_page
      else verified_rows d j (take limit (drop offset (ordered_rows db)))
