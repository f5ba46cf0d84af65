-- ===== src/Base/Decimal.antt =====
-- The products and quotients of `Decimal`, which round as the decimal context in force says, a whole
-- number as a `Decimal`, and `int(x)`: a parameter.
use Prim.Native.Nat.{◌+◌, ◌*◌, ◌/◌}
use mytradingsystem.Base.Int.{ℤ, pos_part, neg_part, sub_ℕ}

pub record Arithmetic : Type 0 where
  pub whole : ℤ → ℤ
  pub truncate : ℤ → ℤ
  pub mul : ℤ → ℤ → ℤ
  pub div : ℤ → ℤ → ℤ

-- An instance for tests: two decimal places, cut off.
abbrev pub hundredths : Arithmetic
hundredths = record {
  whole = λ n. sub_ℕ (pos_part n * 100) (neg_part n * 100);
  truncate = λ x. sub_ℕ (pos_part x / 100) (neg_part x / 100);
  mul = λ x y.
      sub_ℕ ((pos_part x * pos_part y + neg_part x * neg_part y) / 100)
        ((pos_part x * neg_part y + neg_part x * pos_part y) / 100);
  div = λ x y. sub_ℕ ((pos_part x * 100) / pos_part y) ((neg_part x * 100) / pos_part y);
}
