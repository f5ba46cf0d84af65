-- ===== src/Base/Time.antt =====
-- Points in time. An aware `datetime` is the number of microseconds from the start of year 1, UTC,
-- to its instant: comparison and `astimezone(UTC)` see no more of it. A naive one carries its clock
-- reading and no instant.
use Prim.Native.Nat.{ℕ}
use mathlib.Core.Bool.{Bool, true, false}

pub data DateTime : Type 0 where
  aware : ℕ → DateTime
  naive : ℕ → DateTime

-- `value.tzinfo is None or value.utcoffset() is None`
abbrev pub is_naive : DateTime → Bool
is_naive (aware t) = false
is_naive (naive t) = true

-- The microseconds of a value; the source compares values only once they are known to be aware.
abbrev pub instant : DateTime → ℕ
instant (aware t) = t
instant (naive t) = t

-- Microseconds in a second.
abbrev pub second : ℕ
second = 1000000
