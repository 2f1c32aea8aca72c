-- ===== src/Interrupt/Bits.antt =====
-- Which bit of which word belongs to a hart, and what the operations do to every hart's bit.
use many_rvdata.Base.{
  ℕ, zero, suc, ◌/◌, ◌%◌, ◌^◌, ◌<◌, ◌≡◌, ◌==◌, arith, if◌then◌else◌, one_shl, not32, bit, bit_most,
  bit-or, bit-and, bit-one_shl, bit-not32, bit_and_low, bit_and-mask,
}
use native.Mathlib.Nat.{pow-suc, one-le-pow}
use many_rvdata.Interrupt.{Clint, word_of, place_of, snrt_int_sw_clear, snrt_int_sw_set}

pub word_of_lem : (hartid : ℕ) → hartid < 2 ^ 32 → word_of hartid ≡ hartid / 32
unfolding word_of
word_of_lem h lt = omega (
  arith,
  bit_and_low h 4294967264,
  bit_and_low (h / 2) 2147483632,
  bit_and_low (h / 2 / 2) 1073741816,
  bit_and_low (h / 2 / 2 / 2) 536870908,
  bit_and_low (h / 2 / 2 / 2 / 2) 268435454,
  bit_and-mask 27 (h / 2 / 2 / 2 / 2 / 2),
)

pub place_of_lem : (hartid : ℕ) → place_of hartid ≡ hartid % 32
unfolding place_of
place_of_lem h = bit_and-mask 5 h

-- whether the interrupt of a hart is pending
abbrev pub pending : (hartid : ℕ) → Clint → ℕ
pending hartid c = bit (hartid % 32) (c.words (hartid / 32))

abbrev pub others_keep : (hartid bit_after h : ℕ) → Clint → ℕ
others_keep hartid bit_after h c = if h == hartid then bit_after else pending h c

pub one_shl-lt : (w k : ℕ) → k < w → one_shl k < 2 ^ w
one_shl-lt zero k lt = absurd (omega arith)
one_shl-lt (suc w) zero lt = omega (arith, pow-suc 2 w, one-le-pow w 2)
one_shl-lt (suc w) (suc k) lt =
    omega (arith, pow-suc 2 w, pow-suc 2 k, one_shl-lt w k (omega arith))

module _ (hartid : ℕ) (fits : hartid < 2 ^ 32) (c : Clint) (h : ℕ) where
  pub set-pending : pending h (snrt_int_sw_set hartid c) ≡ others_keep hartid 1 h c
  unfolding snrt_int_sw_set
  set-pending = rw (word_of_lem hartid fits) (
      rw (place_of_lem hartid) (
        ground (
          arith,
          bit-or (h % 32) (c.words (hartid / 32)) (one_shl (hartid % 32)),
          bit-one_shl (h % 32) (hartid % 32),
          bit_most (h % 32) (c.words (hartid / 32)),
        )))

  pub clear-pending : pending h (snrt_int_sw_clear hartid c) ≡ others_keep hartid 0 h c
  unfolding snrt_int_sw_clear
  clear-pending = rw (word_of_lem hartid fits) (
      rw (place_of_lem hartid) (
        ground (
          arith,
          bit-and (h % 32) (c.words (hartid / 32)) (not32 (one_shl (hartid % 32))),
          bit-not32 (h % 32) (one_shl (hartid % 32)) (omega arith)
              (one_shl-lt 32 (hartid % 32) (omega arith)),
          bit-one_shl (h % 32) (hartid % 32),
          bit_most (h % 32) (c.words (hartid / 32)),
        )))
