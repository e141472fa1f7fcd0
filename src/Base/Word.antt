-- ===== src/Base/Word.antt =====
-- Go's machine integers. An `int64` counter is kept as its bit pattern, a number below 2 ^ 64, so
-- that `++` and `--` wrap as they do in Go. A conversion `int32(x)` of a wider integer keeps the low
-- 32 bits and reads them in two's complement.
use Prim.Native.Nat.{ℕ, ◌+◌, ◌-◌, ◌%◌, ◌^◌, ◌<◌}
use mathlib.Core.Path.{◌≡◌}
use native.Mathlib.Omega.{arith}
use esi_isk.Base.Tests.{ltb, if◌then◌else◌}
use esi_isk.Base.Int.{ℤ, pos, negsuc, ◌≤ℤ◌}

-- `x++` on an int64
unfoldable pub inc64 : ℕ → ℕ
inc64 x = (x + 1) % 2 ^ 64

-- `x--` on an int64
unfoldable pub dec64 : ℕ → ℕ
dec64 x = (x + (2 ^ 64 - 1)) % 2 ^ 64

-- The low 32 bits of an integer.
unfoldable pub low32 : ℤ → ℕ
low32 (pos n) = n % 2 ^ 32
low32 (negsuc n) = 2 ^ 32 - 1 - n % 2 ^ 32

-- `int32(x)`
unfoldable pub int32 : ℤ → ℤ
unfolding low32
int32 x = if ltb (low32 x) (2 ^ 31) then pos (low32 x) else negsuc (2 ^ 32 - 1 - low32 x)

pub dec64-inc64 : (x : ℕ) → x < 2 ^ 64 → dec64 (inc64 x) ≡ x
unfolding inc64 dec64
dec64-inc64 x h = omega arith

pub inc64-lt : (x : ℕ) → inc64 x < 2 ^ 64
unfolding inc64
inc64-lt x = omega arith

pub dec64-lt : (x : ℕ) → dec64 x < 2 ^ 64
unfolding dec64
dec64-lt x = omega arith

-- An integer in the range of int32 is its own conversion.
pub int32_self : (x : ℤ) → negsuc (2 ^ 31 - 1) ≤ℤ x → x ≤ℤ pos (2 ^ 31 - 1) → int32 x ≡ x
unfolding int32
int32_self (pos n) l h = ground arith
int32_self (negsuc n) l h = ground arith
