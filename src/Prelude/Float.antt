-- ===== src/Prelude/Float.antt =====
-- The values of Python's `float` and of SQLite's REAL. A finite double is a whole multiple of
-- 2 ^ -1074, so `finite` holds that multiple and the order of values is the order of integers. Sums
-- round, and no rounding is modelled here: `+` is an argument of the operations that use it.
use Prim.Native.Nat.{ℕ}
use mathlib.Core.Path.{◌≡◌}
use mathlib.Core.Bool.{Bool, true, false, not}
use native.Mathlib.Omega.{arith}
use sisyphus_harness.Prelude.Tests.{leb}

-- `negsuc n` is -(n + 1).
pub data ℤ : Type 0 where
  pos : ℕ → ℤ
  negsuc : ℕ → ℤ

unfoldable pub int_le : ℤ → ℤ → Bool
int_le (pos a) (pos b) = leb a b
int_le (pos a) (negsuc b) = false
int_le (negsuc a) (pos b) = true
int_le (negsuc a) (negsuc b) = leb b a

unfoldable pub int_lt : ℤ → ℤ → Bool
unfolding int_le
int_lt a b = not (int_le b a)

pub data Float : Type 0 where
  finite : ℤ → Float
  infinity neg_infinity nan : Float

unfoldable pub is_finite : Float → Bool
is_finite (finite _) = true
is_finite _ = false

abbrev pub float_zero : Float
float_zero = finite (pos 0)

-- `a <= b`
unfoldable pub float_le : Float → Float → Bool
unfolding int_le
float_le (finite a) (finite b) = int_le a b
float_le (finite a) infinity = true
float_le infinity infinity = true
float_le neg_infinity (finite b) = true
float_le neg_infinity infinity = true
float_le neg_infinity neg_infinity = true
float_le _ _ = false

-- `a < b`
unfoldable pub float_lt : Float → Float → Bool
unfolding int_lt
float_lt (finite a) (finite b) = int_lt a b
float_lt (finite a) infinity = true
float_lt neg_infinity (finite b) = true
float_lt neg_infinity infinity = true
float_lt _ _ = false

-- A value is not at once at most and above another.
pub float_le-not-lt : (a b : Float) → float_lt b a ≡ true → float_le a b ≡ false
unfolding float_le float_lt
float_le-not-lt (finite a) (finite b) h = ground arith
float_le-not-lt _ _ h = ground arith
