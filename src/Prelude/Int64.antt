-- ===== src/Prelude/Int64.antt =====
-- Go's int64 and uint64. An int64 `v` is modelled by its offset `v + 2 ^ 63` from math.MinInt64, so
-- the order of the offsets is the order of the integers, and `+ 1` and `- 1` wrap as Go's do.
use Prim.Native.Nat.{ℕ, ◌+◌, ◌-◌, ◌%◌, ◌^◌, ◌<◌}
use mathlib.Core.Path.{◌≡◌}
use native.Mathlib.Omega.{arith}

abbrev pub Int64 : Type 0
Int64 = ℕ

-- Every int64 offset lies below this.
abbrev pub word : ℕ
word = 2 ^ 64

-- math.MinInt64
abbrev pub min_int64 : Int64
min_int64 = 0

-- The int64 zero.
abbrev pub zero64 : Int64
zero64 = 2 ^ 63

-- math.MaxInt64
abbrev pub max_int64 : Int64
max_int64 = 2 ^ 64 - 1

-- The int64 that a small constant of the source stands for.
abbrev pub int64 : ℕ → Int64
int64 n = 2 ^ 63 + n

abbrev pub succ64 : Int64 → Int64
succ64 a = (a + 1) % 2 ^ 64

abbrev pub pred64 : Int64 → Int64
pred64 a = (a + (2 ^ 64 - 1)) % 2 ^ 64

-- a + b and a - b on int64, wrapping.
abbrev pub add64 : Int64 → Int64 → Int64
add64 a b = (a + b + 2 ^ 63) % 2 ^ 64

abbrev pub sub64 : Int64 → Int64 → Int64
sub64 a b = (a + (2 ^ 64 - b) + 2 ^ 63) % 2 ^ 64

-- Adding what was taken away gives the value back, also where both wrap.
pub add-sub64 : (a b : Int64) → a < 2 ^ 64 → b < 2 ^ 64 → add64 b (sub64 a b) ≡ a
add-sub64 a b ha hb = omega arith
