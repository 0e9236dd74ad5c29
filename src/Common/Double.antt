-- ===== src/Common/Double.antt =====
-- The `f64` of Rust, as far as a rate is tested. Each finite double is a whole number of the smallest
-- positive one, 2 ^ -1074: it is a sign, and that number.
use mathlib.Core.Bool.{Bool, true, false, ◌&&◌}
use Prim.Native.Nat.{ℕ, ◌*◌, ◌/◌, ◌^◌}
use ibc_attestor.Common.Tests.{leb, ◌==◌}

pub data F64 : Type 0 where
  nan : F64
  infinite : Bool → F64
  -- whether it is negative, and its size
  finite : Bool → ℕ → F64

-- The size of 1.0.
abbrev pub unit : ℕ
unit = 2 ^ 1074

abbrev pub is_finite : F64 → Bool
is_finite nan = false
is_finite (infinite negative) = false
is_finite (finite negative n) = true

-- `0.0 <= x`
abbrev pub zero_le : F64 → Bool
zero_le nan = false
zero_le (infinite true) = false
zero_le (infinite false) = true
zero_le (finite true n) = n == 0
zero_le (finite false n) = true

-- `x <= 1.0`
abbrev pub le_one : F64 → Bool
le_one nan = false
le_one (infinite true) = true
le_one (infinite false) = false
le_one (finite true n) = true
le_one (finite false n) = leb n unit

-- `(0.0..=1.0).contains(&x)`
abbrev pub in_unit_range : F64 → Bool
in_unit_range x = zero_le x && le_one x

abbrev pub trunc : F64 → F64
trunc nan = nan
trunc (infinite negative) = infinite negative
trunc (finite negative n) = finite negative (n / unit * unit)

-- `x - 1.0 == 0.0`. Doubles underflow gradually, so that a difference is zero just where the two are
-- equal.
abbrev pub minus_one_is_zero : F64 → Bool
minus_one_is_zero nan = false
minus_one_is_zero (infinite negative) = false
minus_one_is_zero (finite true n) = false
minus_one_is_zero (finite false n) = n == unit
