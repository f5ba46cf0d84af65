-- ===== src/Replay/Datasets/Tests.antt =====
-- A dataset of one candle under a toy digest, stored, tampered with and loaded.
use mytradingsystem.Base.{
  text_keys, List, String, [], lookup, none, pos_part, some, ℕ, ◌∷◌, ◌≡◌, arith, err, false,
  if◌then◌else◌, insert, ok, pos, true, any, aware, eq_iff, refl, ◌==◌,
}
use mytradingsystem.Domain.{Candle}
use mytradingsystem.Replay.Engine.{
  Digest, Engine, replay_engine, dataset_digest, dataset_bytes, to_bytes, closes_at,
}
use mytradingsystem.Replay.Datasets.{
  DatasetRecord, CandleJson, validated_candles, Datasets, new_dataset, store, load_dataset,
  not_intact, same_candles, list_datasets, ordered_rows,
}
use mytradingsystem.Replay.Datasets.Integrity.{Keyed, Intact, load_dataset-Intact}
use mytradingsystem.Replay.Datasets.Storing.{load-store}
use mytradingsystem.Auth.Tokens.{is_bad_digest}

abbrev digest_a : String
digest_a = "aaaaaaaaaaaaaaaaaaaaaaaaaaaaaaaaaaaaaaaaaaaaaaaaaaaaaaaaaaaaaaaa"

abbrev digest_b : String
digest_b = "bbbbbbbbbbbbbbbbbbbbbbbbbbbbbbbbbbbbbbbbbbbbbbbbbbbbbbbbbbbbbbbb"

-- The last byte of the data is that of the close.
abbrev toy_digest : Digest
toy_digest = record {
  dump = λ c. pos_part c.close ∷ [];
  sha256 = λ bytes. if any (λ b. b == 12) bytes then digest_a else digest_b;
}

abbrev candle_at : ℕ → Candle
candle_at close = record {
  instrument_id = 1;
  timestamp = 0;
  timeframe_seconds = 60;
  open_price = pos 10;
  high = pos 15;
  low = pos 9;
  close = pos close;
  volume = pos 3;
  open_interest = none;
  is_closed = true;
}

abbrev stream : List Candle
stream = candle_at 12 ∷ []

abbrev json : CandleJson Candle
json = record { dump = λ c. c; validate = λ c. some c }

abbrev engine : Engine
engine = record {
  candles = stream;
  available_at = closes_at (candle_at 12) ∷ [];
  dataset_sha256 = digest_a;
  next_index = 0;
}

abbrev table : Datasets Candle
table = (digest_a, new_dataset json engine 7) ∷ []

stream_stored :
    store toy_digest json stream (aware 7) [] ≡ (ok (new_dataset json engine 7).stored, table)
unfolding store replay_engine dataset_digest dataset_bytes to_bytes lookup insert
stream_stored = refl

stream_loaded : load_dataset toy_digest json digest_a table ≡ ok stream
unfolding load_dataset validated_candles replay_engine dataset_digest dataset_bytes to_bytes lookup
    is_bad_digest
stream_loaded = refl

-- The row with another candle in its payload.
abbrev tampered : Datasets Candle
tampered = (digest_a, record (new_dataset json engine 7) { payload = candle_at 13 ∷ [] }) ∷ []

tampering_found : load_dataset toy_digest json digest_a tampered ≡ err not_intact
unfolding load_dataset validated_candles replay_engine dataset_digest dataset_bytes to_bytes lookup
    is_bad_digest
tampering_found = refl

empty-Keyed : Keyed {J = Candle} []
unfolding lookup
empty-Keyed = record { own_key = λ k r h. ground arith }

table-Keyed : Keyed table
unfolding lookup
table-Keyed = record { own_key = λ k r h. ground (arith, eq_iff k digest_a) }

load_dataset-Intact_example :
    (dataset_digest toy_digest stream ≡ digest_a)
    × (r : DatasetRecord Candle) × (lookup digest_a table ≡ some r)
    × Intact toy_digest r.stored stream
load_dataset-Intact_example =
    load_dataset-Intact toy_digest json digest_a table table-Keyed stream_loaded

good_digest : is_bad_digest (dataset_digest toy_digest stream) ≡ false
unfolding is_bad_digest dataset_digest dataset_bytes to_bytes
good_digest = refl

load-store_example :
    (out : List Candle) × (load_dataset toy_digest json (dataset_digest toy_digest stream) table
      ≡ ok out)
    × (same_candles out stream ≡ true)
    × (digest_a ≡ dataset_digest toy_digest stream)
    × Keyed table
load-store_example =
    load-store toy_digest json stream (aware 7) [] (refl, tt) good_digest empty-Keyed stream_stored

first_page : list_datasets toy_digest json 25 0 table ≡ ok ((new_dataset json engine 7).stored ∷ [])
unfolding list_datasets ordered_rows validated_candles replay_engine dataset_digest dataset_bytes
    to_bytes
first_page = refl
