-- ===== src/Base/Int64.antt =====
-- `int` and `int64` on a 64-bit platform: the two's-complement pattern, a number below 2 ^ 64.
-- So equality and `++` are those of the numbers modulo 2 ^ 64, and a signed comparison moves both
-- patterns by half the range first.
use Prim.Native.Nat.{ℕ, ◌+◌, ◌-◌, ◌%◌, ◌<◌}
use mathlib.Core.Path.{◌≡◌}
use mathlib.Core.Bool.{Bool}
use mathlib.Core.Logic.{◌≢◌}
use native.Mathlib.Omega.{arith}
use happy_server_lite.Base.Tests.{ltb, eqb}

abbrev pub two_63 : ℕ
two_63 = 9223372036854775808

abbrev pub two_64 : ℕ
two_64 = 18446744073709551616

-- `n++`
abbrev pub inc64 : ℕ → ℕ
inc64 n = (n + 1) % two_64

abbrev pub bias : ℕ → ℕ
bias n = (n + two_63) % two_64

-- `a < b` between signed integers
abbrev pub slt : ℕ → ℕ → Bool
slt a b = ltb (bias a) (bias b)

-- `a == b` where it stands beside a signed comparison: both patterns are moved alike
abbrev pub same : ℕ → ℕ → Bool
same a b = eqb (bias a) (bias b)

-- the pattern of `-n`
abbrev pub neg64 : ℕ → ℕ
neg64 n = (two_64 - n % two_64) % two_64

pub slt_small : (a b : ℕ) → a < two_63 → b < two_63 → slt a b ≡ ltb a b
slt_small a b h k = ground arith

pub inc64-ne : (n : ℕ) → n < two_64 → inc64 n ≢ n
inc64-ne n h = omega arith
