-- ===== src/Base/Words.antt =====
-- 32-bit and 64-bit words as natural numbers below 2 ^ 32 and 2 ^ 64: the unsigned operations
-- wrap, and the signed ones read a word as two's complement.
use Prim.Native.Nat.{ℕ, ◌+◌, ◌-◌, ◌*◌, ◌/◌, ◌%◌, ◌^◌}
use mathlib.Core.Bool.{Bool}
use many_rvdata.Base.Tests.{ltb, if◌then◌else◌}

abbrev pub u32 : ℕ → ℕ
u32 a = a % 2 ^ 32

abbrev pub add32 : ℕ → ℕ → ℕ
add32 a b = (a + b) % 2 ^ 32

abbrev pub sub32 : ℕ → ℕ → ℕ
sub32 a b = (a + (2 ^ 32 - b % 2 ^ 32)) % 2 ^ 32

abbrev pub mul32 : ℕ → ℕ → ℕ
mul32 a b = a * b % 2 ^ 32

abbrev pub add64 : ℕ → ℕ → ℕ
add64 a b = (a + b) % 2 ^ 64

abbrev pub sub64 : ℕ → ℕ → ℕ
sub64 a b = (a + (2 ^ 64 - b % 2 ^ 64)) % 2 ^ 64

abbrev pub mul64 : ℕ → ℕ → ℕ
mul64 a b = a * b % 2 ^ 64

-- `(int32_t)a < (int32_t)b`
abbrev pub slt32 : ℕ → ℕ → Bool
slt32 a b = ltb ((a + 2 ^ 31) % 2 ^ 32) ((b + 2 ^ 31) % 2 ^ 32)

-- `(int64_t)a < (int64_t)b`
abbrev pub slt64 : ℕ → ℕ → Bool
slt64 a b = ltb ((a + 2 ^ 63) % 2 ^ 64) ((b + 2 ^ 63) % 2 ^ 64)

-- the magnitude of a signed word, and the word of `-a`
abbrev pub abs32 : ℕ → ℕ
abs32 a = if ltb a (2 ^ 31) then a else 2 ^ 32 - a

abbrev pub neg32 : ℕ → ℕ
neg32 a = (2 ^ 32 - a) % 2 ^ 32

-- `(int32_t)a / (int32_t)b`, which rounds towards zero
abbrev pub sdiv32 : ℕ → ℕ → ℕ
sdiv32 a b =
    if ltb a (2 ^ 31)
    then (if ltb b (2 ^ 31) then a / b else neg32 (a / abs32 b))
    else (if ltb b (2 ^ 31) then neg32 (abs32 a / b) else u32 (abs32 a / abs32 b))

-- `(int32_t)a % (int32_t)b`, which has the sign of `a`
abbrev pub smod32 : ℕ → ℕ → ℕ
smod32 a b = if ltb a (2 ^ 31) then a % abs32 b else neg32 (abs32 a % abs32 b)
