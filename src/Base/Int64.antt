-- ===== src/Base/Int64.antt =====
-- Go's `int64`: an integer whose arithmetic is carried out modulo 2 ^ 64.
use Prim.Native.Nat.{ℕ, ◌-◌, ◌%◌}
use mathlib.Core.Path.{◌≡◌}
use native.Mathlib.Omega.{arith}
use backend_challenge.Base.Tests.{ltb, if◌then◌else◌}
use backend_challenge.Base.Int.{ℤ, pos, negsuc, ◌+ℤ◌, ◌-ℤ◌, neg, ◌≤ℤ◌}

abbrev pub two63 : ℕ
two63 = 9223372036854775808

abbrev pub two64 : ℕ
two64 = 18446744073709551616

-- `math.MaxInt64` and `math.MinInt64`
abbrev pub max_int64 : ℤ
max_int64 = pos 9223372036854775807

abbrev pub min_int64 : ℤ
min_int64 = negsuc 9223372036854775807

-- The values of the type.
abbrev pub IsInt64 : ℤ → Type 0
IsInt64 a = (min_int64 ≤ℤ a) × (a ≤ℤ max_int64)

-- The bit pattern of an integer, read back as a two's complement number.
from_bits : ℕ → ℤ
from_bits r = if ltb r two63 then pos r else negsuc (two64 - r - 1)

unfoldable pub wrap64 : ℤ → ℤ
unfolding from_bits
wrap64 (pos n) = from_bits (n % two64)
wrap64 (negsuc n) = from_bits (two64 - 1 - n % two64)

unfoldable pub add64 : ℤ → ℤ → ℤ
add64 a b = wrap64 (a +ℤ b)

unfoldable pub sub64 : ℤ → ℤ → ℤ
sub64 a b = wrap64 (a -ℤ b)

unfoldable pub neg64 : ℤ → ℤ
neg64 a = wrap64 (neg a)

pub wrap64-eq : (a : ℤ) → IsInt64 a → wrap64 a ≡ a
unfolding wrap64
wrap64-eq (pos n) h = ground arith
wrap64-eq (negsuc n) h = ground arith

pub wrap64-IsInt64 : (a : ℤ) → IsInt64 (wrap64 a)
unfolding wrap64
wrap64-IsInt64 (pos n) = ground arith
wrap64-IsInt64 (negsuc n) = ground arith

pub add64-eq : (a b : ℤ) → IsInt64 (a +ℤ b) → add64 a b ≡ a +ℤ b
unfolding add64
add64-eq a b h = wrap64-eq (a +ℤ b) h

pub sub64-eq : (a b : ℤ) → IsInt64 (a -ℤ b) → sub64 a b ≡ a -ℤ b
unfolding sub64
sub64-eq a b h = wrap64-eq (a -ℤ b) h

pub neg64-eq : (a : ℤ) → IsInt64 (neg a) → neg64 a ≡ neg a
unfolding neg64
neg64-eq a h = wrap64-eq (neg a) h
