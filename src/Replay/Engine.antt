-- ===== src/Replay/Engine.antt =====
-- packages/replay/engine.py: one stream of closed candles, replayed without its future. The JSON of
-- a candle and SHA-256 are parameters.
pub mod Bisect
pub mod Prefix
pub mod Visible
pub mod Dataset
use mytradingsystem.Replay.Engine.Bisect.{bisect_right}
use mytradingsystem.Domain.{Candle}
use mytradingsystem.Base.{
  Bool, DateTime, List, Option, Result, String, ℕ, [], false, if◌then◌else◌, length, not, take, ◌+◌,
  ◌==◌, ◌∷◌, any, is_naive, leb, none, true, ◌&&◌, ◌*◌, ◌++◌, err, get_elem?, second, ◌||◌, instant,
  ok, some, suc, ◌>>=◌, ◌>>◌, raise_if, ◌/◌, is_empty, str_eq, ltb, map, ◌^◌, ◌%◌, zero,
}

pub data ReplayError : Type 0 where
  no_candles open_candle mixed_streams not_chronological : ReplayError
  naive_seek other_dataset index_out_of_range : ReplayError

pub record Checkpoint : Type 0 where
  pub dataset_sha256 : String
  pub next_index : ℕ

pub record Frame : Type 0 where
  pub candle : Candle
  pub available_at : ℕ
  pub index : ℕ
  pub total : ℕ

pub record Engine : Type 0 where
  pub candles : List Candle
  pub available_at : List ℕ
  pub dataset_sha256 : String
  pub next_index : ℕ

-- `model_dump_json().encode()` and `sha256(...).hexdigest()`.
pub record Digest : Type 0 where
  pub dump : Candle → List ℕ
  pub sha256 : List ℕ → String

-- `n.to_bytes(k, "big")`; the source has 8 bytes, and a dump of 2 ^ 64 bytes does not fit memory.
unfoldable pub to_bytes : ℕ → ℕ → List ℕ
to_bytes zero n = []
to_bytes (suc k) n = (n / 256 ^ k % 256) ∷ to_bytes k n

-- The bytes that `_dataset_digest` feeds to the hash.
unfoldable pub dataset_bytes : Digest → List Candle → List ℕ
dataset_bytes d [] = []
dataset_bytes d (c ∷ cs) = to_bytes 8 (length (d.dump c)) ++ (d.dump c ++ dataset_bytes d cs)

unfoldable pub dataset_digest : Digest → List Candle → String
dataset_digest d cs = d.sha256 (dataset_bytes d cs)

-- `sorted(timestamps)`
abbrev pub insert_sorted : ℕ → List ℕ → List ℕ
insert_sorted x [] = x ∷ []
insert_sorted x (y ∷ ys) = if leb x y then x ∷ y ∷ ys else y ∷ insert_sorted x ys

abbrev pub sorted : List ℕ → List ℕ
sorted [] = []
sorted (x ∷ xs) = insert_sorted x (sorted xs)

abbrev pub same_list : List ℕ → List ℕ → Bool
same_list [] [] = true
same_list (x ∷ xs) (y ∷ ys) = x == y && same_list xs ys
same_list _ _ = false

-- `len(set(xs)) != len(xs)`
abbrev pub has_repeat : List ℕ → Bool
has_repeat [] = false
has_repeat (x ∷ xs) = any (λ y. x == y) xs || has_repeat xs

abbrev pub stream_differs : Candle → Candle → Bool
stream_differs a b =
    not (a.instrument_id == b.instrument_id && a.timeframe_seconds == b.timeframe_seconds)

-- `candle.timestamp + timedelta(seconds=candle.timeframe_seconds)`
abbrev pub closes_at : Candle → ℕ
closes_at c = c.timestamp + c.timeframe_seconds * second

abbrev pub first_differs : List Candle → Bool
first_differs [] = false
first_differs (c ∷ cs) = any (stream_differs c) cs

-- `ReplayEngine(candles)`. A candle's timestamp is an instant, so the test for naive ones is void.
unfoldable pub replay_engine : Digest → List Candle → Result ReplayError Engine
replay_engine d cs = do
  raise_if (is_empty cs) no_candles
  raise_if (any (λ c. not c.is_closed) cs) open_candle
  raise_if (first_differs cs) mixed_streams
  let times = map (λ c. c.timestamp) cs
  raise_if (not (same_list times (sorted times)) || has_repeat times) not_chronological
  ok (record {
    candles = cs;
    available_at = map closes_at cs;
    dataset_sha256 = dataset_digest d cs;
    next_index = 0;
  })

-- The properties `total`, `complete`, `instrument_id` and `timeframe_seconds`.
abbrev pub total : Engine → ℕ
total e = length e.candles

abbrev pub is_complete : Engine → Bool
is_complete e = e.next_index == length e.candles

abbrev pub instrument_of : List Candle → ℕ
instrument_of [] = 0
instrument_of (c ∷ cs) = c.instrument_id

abbrev pub timeframe_of : List Candle → ℕ
timeframe_of [] = 0
timeframe_of (c ∷ cs) = c.timeframe_seconds

-- `self._candles[index]` and `self._available_at[index]`, which the guard keeps in range.
abbrev pub frame_at : Engine → Option Candle → Option ℕ → Option Frame
frame_at e (some c) (some t) =
    some (record { candle = c; available_at = t; index = e.next_index; total = total e })
frame_at e _ _ = none

unfoldable pub step : Engine → Option Frame × Engine
step e = if is_complete e then (none, e) else (
  frame_at e (get_elem? e.candles e.next_index) (get_elem? e.available_at e.next_index),
  record e { next_index = e.next_index + 1 },
)

unfoldable pub snapshot : Engine → List Candle
snapshot e = take e.next_index e.candles

unfoldable pub seek : DateTime → Engine → Result ReplayError (List Candle) × Engine
unfolding snapshot
seek as_of e =
    if is_naive as_of
    then (err naive_seek, e)
    else let e' = record e { next_index = bisect_right e.available_at (instant as_of) } in
      (ok (snapshot e'), e')

unfoldable pub checkpoint : Engine → Checkpoint
checkpoint e = record { dataset_sha256 = e.dataset_sha256; next_index = e.next_index }

-- An index is a natural number, so `0 <= checkpoint.next_index` is void.
unfoldable pub restore : Checkpoint → Engine → Result ReplayError Engine
restore c e = do
  raise_if (not (str_eq c.dataset_sha256 e.dataset_sha256)) other_dataset
  raise_if (ltb (length e.candles) c.next_index) index_out_of_range
  ok (record e { next_index = c.next_index })
