-- ===== src/Base/Words.antt =====
-- Go's `int`, `int64` and `int32` as bit patterns: a natural number below 2^64 or 2^32, whose
-- upper half stands for the negative values (two's complement).
use Prim.Native.Nat.{ℕ, ◌+◌, ◌%◌, ◌<◌}
use mathlib.Core.Bool.{Bool}
use mathlib.Core.Logic.{◌≢◌}
use native.Mathlib.Omega.{arith}
use forge_platform.Base.Tests.{ltb}

abbrev pub mod64 : ℕ
mod64 = 18446744073709551616

abbrev pub half64 : ℕ
half64 = 9223372036854775808

abbrev pub half32 : ℕ
half32 = 2147483648

-- `v + 1` on an int64, which wraps.
abbrev pub inc64 : ℕ → ℕ
inc64 v = (v + 1) % mod64

-- `a < b` on int64 values.
abbrev pub slt64 : ℕ → ℕ → Bool
slt64 a b = ltb ((a + half64) % mod64) ((b + half64) % mod64)

-- `a < b` on int32 values.
abbrev pub slt32 : ℕ → ℕ → Bool
slt32 a b = ltb ((a + half32) % 4294967296) ((b + half32) % 4294967296)

-- A version that was incremented is another one, also where the sum wraps.
pub inc64-ne : (v : ℕ) → v < mod64 → inc64 v ≢ v
inc64-ne v h e = absurd (omega arith)

pub inc64-lt : (v : ℕ) → inc64 v < mod64
inc64-lt v = omega arith
