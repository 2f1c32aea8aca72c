-- ===== src/Base/Bits.antt =====
-- Single bits of a word: what `|`, `& ~`, `1 << k` and `>>` do to each of them.
use Prim.Native.Nat.{
  ℕ, zero, suc, ◌+◌, ◌-◌, ◌*◌, ◌/◌, ◌%◌, ◌^◌, ◌≤◌, ◌<◌, min, max, digits, bit_and, bit_or,
  bit_and-bitwise, bit_or-bitwise,
}
use mathlib.Core.Path.{◌≡◌, refl, ap, sym, ◌∙◌}
use native.Mathlib.Omega.{arith}
use native.Mathlib.Nat.{
  pow-suc, pow-succ', one-le-pow, div-div-eq-div-mul, mod_def, mul-div-le, mul_assoc,
}
use many_rvdata.Base.Tests.{◌==◌, if◌then◌else◌}

abbrev pub bit : (k x : ℕ) → ℕ
bit zero x = x % 2
bit (suc k) x = bit k (x / 2)

-- `1 << k` and `x >> k` for a `k` below the width, and `~x` of a word of `w` bits
abbrev pub one_shl : ℕ → ℕ
one_shl k = 2 ^ k

abbrev pub shr : (x k : ℕ) → ℕ
shr x k = x / 2 ^ k

abbrev pub not32 : ℕ → ℕ
not32 x = 2 ^ 32 - 1 - x

-- The two operations by their lowest digit, from the recursion that the native ones stand for.
digits_enough :
    (z : ℕ → ℕ) (f : ℕ → ℕ → ℕ) (n m a b : ℕ) → a ≤ n → a ≤ m → digits z f n a b ≡ digits z f m a b
digits_enough z f n m zero b p q = ends n m
  where
    ends : (n m : ℕ) → digits z f n 0 b ≡ digits z f m 0 b
    ends zero zero = refl
    ends zero (suc m) = refl
    ends (suc n) zero = refl
    ends (suc n) (suc m) = refl
digits_enough z f zero m (suc a) b p q = absurd (omega arith)
digits_enough z f (suc n) zero (suc a) b p q = absurd (omega arith)
digits_enough z f (suc n) (suc m) (suc a) b p q =
    omega (arith, digits_enough z f n m (suc a / 2) (b / 2) (omega arith) (omega arith))

pub bit_or_low : (a b : ℕ) → bit_or a b ≡ bit_or (a / 2) (b / 2) * 2 + max (a % 2) (b % 2)
bit_or_low zero b = omega (arith, bit_or-bitwise 0 b, bit_or-bitwise 0 (b / 2))
bit_or_low (suc a) b = omega (
  arith,
  bit_or-bitwise (suc a) b,
  bit_or-bitwise (suc a / 2) (b / 2),
  digits_enough (λ y. y) max a (suc a / 2) (suc a / 2) (b / 2) (omega arith) (omega arith),
)

pub bit_and_low : (a b : ℕ) → bit_and a b ≡ bit_and (a / 2) (b / 2) * 2 + min (a % 2) (b % 2)
bit_and_low zero b = omega (arith, bit_and-bitwise 0 b, bit_and-bitwise 0 (b / 2))
bit_and_low (suc a) b = omega (
  arith,
  bit_and-bitwise (suc a) b,
  bit_and-bitwise (suc a / 2) (b / 2),
  digits_enough (λ y. zero) min a (suc a / 2) (suc a / 2) (b / 2) (omega arith) (omega arith),
)

pub bit_most : (k x : ℕ) → bit k x ≤ 1
bit_most zero x = omega arith
bit_most (suc k) x = bit_most k (x / 2)

pub bit-or : (k a b : ℕ) → bit k (bit_or a b) ≡ max (bit k a) (bit k b)
bit-or zero a b = omega (arith, bit_or_low a b)
bit-or (suc k) a b =
    let half : bit_or a b / 2 ≡ bit_or (a / 2) (b / 2) = omega (arith, bit_or_low a b) in
    rw half (bit-or k (a / 2) (b / 2))

pub bit-and : (k a b : ℕ) → bit k (bit_and a b) ≡ min (bit k a) (bit k b)
bit-and zero a b = omega (arith, bit_and_low a b)
bit-and (suc k) a b =
    let half : bit_and a b / 2 ≡ bit_and (a / 2) (b / 2) = omega (arith, bit_and_low a b) in
    rw half (bit-and k (a / 2) (b / 2))

bit-zero : (k : ℕ) → bit k 0 ≡ 0
bit-zero zero = refl
bit-zero (suc k) = bit-zero k

pub bit-one_shl : (j k : ℕ) → bit j (one_shl k) ≡ (if j == k then 1 else 0)
bit-one_shl zero zero = refl
bit-one_shl zero (suc k) = ground (arith, pow-suc 2 k)
bit-one_shl (suc j) zero = ground (arith, bit-zero j)
bit-one_shl (suc j) (suc k) =
    let half : one_shl (suc k) / 2 ≡ one_shl k = omega (arith, pow-suc 2 k) in
    rw half (ground (arith, bit-one_shl j k))

-- the complement within `w` bits
bit_complement : (w j x : ℕ) → j < w → x < 2 ^ w → bit j (2 ^ w - 1 - x) ≡ 1 - bit j x
bit_complement zero j x lt small = absurd (omega arith)
bit_complement (suc w) zero x lt small = omega (arith, pow-suc 2 w, one-le-pow w 2)
bit_complement (suc w) (suc j) x lt small =
    let half : (2 ^ suc w - 1 - x) / 2 ≡ 2 ^ w - 1 - x / 2 =
      omega (arith, pow-suc 2 w, one-le-pow w 2) in
    rw half (bit_complement w j (x / 2) (omega arith) (omega (arith, pow-suc 2 w)))

pub bit-not32 : (j x : ℕ) → j < 32 → x < 2 ^ 32 → bit j (not32 x) ≡ 1 - bit j x
bit-not32 = bit_complement 32

-- The lowest bit of `x >> k` is bit `k`.
pub shr_low : (k x : ℕ) → shr x k % 2 ≡ bit k x
shr_low zero x = omega arith
shr_low (suc k) x =
    let halves : shr x (suc k) ≡ shr (x / 2) k =
      ap (λ (t : ℕ). x / t) (pow-succ' 2 k) ∙ sym (div-div-eq-div-mul x 2 (2 ^ k)) in
    rw halves (shr_low k (x / 2))

bit_and-zero : (n a : ℕ) → a ≤ n → bit_and a 0 ≡ 0
bit_and-zero n zero le = omega (arith, bit_and_low 0 0)
bit_and-zero zero (suc a) le = absurd (omega arith)
bit_and-zero (suc n) (suc a) le =
    omega (arith, bit_and_low (suc a) 0, bit_and-zero n (suc a / 2) (omega arith))

mod-double : (p a : ℕ) → a % (2 * p) ≡ a / 2 % p * 2 + a % 2
mod-double p a = omega (
  arith,
  mod_def a (2 * p),
  mod_def (a / 2) p,
  mul-div-le (a / 2) p,
  ap (λ (t : ℕ). 2 * p * t) (sym (div-div-eq-div-mul a 2 p)),
  mul_assoc 2 p (a / 2 / p),
)

-- A mask of `k` ones keeps the low bits.
pub bit_and-mask : (k a : ℕ) → bit_and a (2 ^ k - 1) ≡ a % 2 ^ k
bit_and-mask zero a = omega (arith, bit_and-zero a a)
bit_and-mask (suc k) a =
    let halves : (2 ^ suc k - 1) / 2 ≡ 2 ^ k - 1 = omega (arith, pow-suc 2 k, one-le-pow k 2) in
    omega (
      arith,
      bit_and_low a (2 ^ suc k - 1),
      ap (bit_and (a / 2)) halves,
      bit_and-mask k (a / 2),
      pow-suc 2 k,
      one-le-pow k 2,
      mod-double (2 ^ k) a,
      ap (λ (t : ℕ). a % t) (pow-succ' 2 k),
    )

-- A mask of one bit.
pub bit_and-one_shl : (k a : ℕ) → bit_and a (one_shl k) ≡ bit k a * 2 ^ k
bit_and-one_shl zero a = omega (arith, bit_and_low a 1, bit_and-zero (a / 2) (a / 2))
bit_and-one_shl (suc k) a =
    let halves : one_shl (suc k) / 2 ≡ one_shl k = omega (arith, pow-suc 2 k) in
    omega (
      arith,
      bit_and_low a (one_shl (suc k)),
      ap (bit_and (a / 2)) halves,
      bit_and-one_shl k (a / 2),
      pow-suc 2 k,
      ap (λ (t : ℕ). bit k (a / 2) * t) (pow-suc 2 k),
      mul_assoc (bit k (a / 2)) (2 ^ k) 2,
    )

-- `x >> k` by its lowest bit.
pub shr_split : (k x : ℕ) → shr x k ≡ bit k x + 2 * shr x (suc k)
shr_split k x =
    let half : shr x (suc k) ≡ shr x k / 2 =
      ap (λ (t : ℕ). x / t) (pow-suc 2 k) ∙ sym (div-div-eq-div-mul x (2 ^ k) 2) in
    omega (arith, shr_low k x)

pub bit_above : (k x : ℕ) → x < 2 ^ k → bit k x ≡ 0
bit_above zero x lt = omega arith
bit_above (suc k) x lt = bit_above k (x / 2) (omega (arith, pow-suc 2 k))

pub zero-bit_or : (b : ℕ) → bit_or 0 b ≡ b
zero-bit_or b = bit_or-bitwise 0 b
