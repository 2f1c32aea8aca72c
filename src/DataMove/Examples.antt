-- ===== src/DataMove/Examples.antt =====
-- Tests of the copy routines, and their theorems at concrete memories.
use Prim.Native.Nat.{min}
use many_rvdata.Base.{ℕ, ◌+◌, ◌*◌, ◌/◌, ◌%◌, ◌^◌, ◌≤◌, ◌<◌, ◌≡◌, ◌⊎◌, inr, refl, arith}
use many_rvdata.DataMove.{
  Mem, Reg, store, scalar_memcpy32_8bit, scalar_memcpy32_32bit, scalar_memcpy32_32bit_unrolled,
}
use many_rvdata.DataMove.Blit.{Copies}
use many_rvdata.DataMove.Vector.{
  Vset, vector_memcpy32_m4_opt, vector_memcpy32_m8_opt, vector_memcpy32_m4_general_opt,
  vector_memcpy32_m8_m4_general_opt,
}
use many_rvdata.DataMove.Agree.{routines_agree}
use many_rvdata.DataMove.Fixed.{vector_memcpy32_1360B_opt_with_header, with_header-Copies}

-- each byte holds its address modulo 251
abbrev addresses : Mem
addresses a = a % 251

abbrev blank : Reg
blank i = 0

min_fits : (vlmax avl : ℕ) → avl ≤ vlmax → min vlmax avl ≡ avl
min_fits vlmax avl le = omega arith

min_full : (vlmax avl : ℕ) → 2 * vlmax ≤ avl → min vlmax avl ≡ vlmax
min_full vlmax avl le = omega arith

-- hardware that always takes as many elements as it can
abbrev greedy : Vset
greedy = record { vl = min; vl_fits = min_fits; vl_full = min_full }

unrolled_test : scalar_memcpy32_32bit_unrolled 1000 3 39 addresses 1038 ≡ 41
unfolding scalar_memcpy32_32bit_unrolled store
unrolled_test = refl

routines_agree_example :
    let reference = scalar_memcpy32_8bit 9000 0 2071 addresses in
    Copies addresses reference 9000 0 2071
    × (scalar_memcpy32_32bit 9000 0 2071 addresses ≡ reference)
    × (scalar_memcpy32_32bit_unrolled 9000 0 2071 addresses ≡ reference)
    × (vector_memcpy32_m4_opt greedy 9000 0 2071 addresses ≡ reference)
    × (vector_memcpy32_m8_opt greedy 9000 0 2071 addresses ≡ reference)
    × (vector_memcpy32_m4_general_opt greedy 9000 0 2071 addresses ≡ reference)
    × (vector_memcpy32_m8_m4_general_opt greedy 9000 0 2071 addresses ≡ reference)
routines_agree_example =
    routines_agree greedy 9000 0 2071 addresses (inr (omega arith)) (omega arith)

with_header_example :
    let m' = vector_memcpy32_1360B_opt_with_header greedy blank 500 0 0x1234 addresses in
    ((i : ℕ) → i < 4 → m' (500 + i) ≡ 0x1234 / 256 ^ i % 256)
    × ((i : ℕ) → 4 ≤ i → i < 1360 → m' (500 + i) ≡ addresses (0 + i))
    × ((a : ℕ) → (a < 500) ⊎ (500 + 1360 ≤ a) → m' a ≡ addresses a)
with_header_example = with_header-Copies greedy blank 500 0 0x1234 addresses
