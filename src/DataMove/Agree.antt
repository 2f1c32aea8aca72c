-- ===== src/DataMove/Agree.antt =====
-- The routines that take a length give the same memory, whatever the hardware's vector length.
use many_rvdata.Base.{
  ℕ, ◌+◌, ◌-◌, ◌^◌, ◌<◌, ◌≡◌, inl, inr, ◌∙◌, sym, ap, arith, fun_ext, dec_lt, dec_le,
}
use many_rvdata.DataMove.{
  Mem, store, blit, Apart, scalar_memcpy32_8bit, scalar_memcpy32_32bit,
  scalar_memcpy32_32bit_unrolled,
}
use many_rvdata.DataMove.Blit.{Copies}
use many_rvdata.DataMove.Scalar.{
  scalar_memcpy32_8bit-Copies, scalar_memcpy32_32bit-Copies, scalar_memcpy32_32bit_unrolled-Copies,
}
use many_rvdata.DataMove.Vector.{
  Vset, vector_memcpy32_m4_opt, vector_memcpy32_m8_opt, vector_memcpy32_m4_general_opt,
  vector_memcpy32_m8_m4_general_opt,
}
use many_rvdata.DataMove.Vector.Routines.{
  vector_memcpy32_m4_opt-Copies, vector_memcpy32_m8_opt-Copies,
  vector_memcpy32_m4_general_opt-Copies, vector_memcpy32_m8_m4_general_opt-Copies,
}

-- A copy is determined by what it promises.
byte_lem : (m m' : Mem) (d s n : ℕ) → Copies m m' d s n → (a : ℕ) → m' a ≡ blit m d s n a
unfolding store
byte_lem m m' d s n (inside, outside) a = elim (dec_lt a d) [
  | yes before ↦ ground (arith, outside a (inl before))
  | no from ↦ elim (dec_le (d + n) a) [
    | yes after ↦ ground (arith, outside a (inr after))
    | no within ↦
        let place : d + (a - d) ≡ a = omega arith in
        ap m' (sym place) ∙ ground (arith, inside (a - d) (omega arith))
  ]
]

same_copy : (m m' m'' : Mem) (d s n : ℕ) → Copies m m' d s n → Copies m m'' d s n → m' ≡ m''
same_copy m m' m'' d s n p q = fun_ext λ a. byte_lem m m' d s n p a ∙ sym (byte_lem m m'' d s n q a)

-- For every vector unit and every length below 2 ^ 32, where source and target are apart: the byte
-- loop puts the source's bytes into the target and changes nothing else, and the word loop, the
-- unrolled loop and the four vector routines that take a length give exactly the same memory.
pub routines_agree :
    (v : Vset) (dst src len_bytes : ℕ) (m : Mem)
    → Apart dst src len_bytes
    → len_bytes < 2 ^ 32
    → let reference = scalar_memcpy32_8bit dst src len_bytes m in
      Copies m reference dst src len_bytes
      × (scalar_memcpy32_32bit dst src len_bytes m ≡ reference)
      × (scalar_memcpy32_32bit_unrolled dst src len_bytes m ≡ reference)
      × (vector_memcpy32_m4_opt v dst src len_bytes m ≡ reference)
      × (vector_memcpy32_m8_opt v dst src len_bytes m ≡ reference)
      × (vector_memcpy32_m4_general_opt v dst src len_bytes m ≡ reference)
      × (vector_memcpy32_m8_m4_general_opt v dst src len_bytes m ≡ reference)
routines_agree v d s n m apart small =
    let bytes = scalar_memcpy32_8bit-Copies d s n m apart in
    (
      bytes,
      same_copy m _ _ d s n (scalar_memcpy32_32bit-Copies d s n m apart) bytes,
      same_copy m _ _ d s n (scalar_memcpy32_32bit_unrolled-Copies d s n m apart) bytes,
      same_copy m _ _ d s n (vector_memcpy32_m4_opt-Copies v d s n m apart small) bytes,
      same_copy m _ _ d s n (vector_memcpy32_m8_opt-Copies v d s n m apart small) bytes,
      same_copy m _ _ d s n (vector_memcpy32_m4_general_opt-Copies v d s n m apart small) bytes,
      same_copy m _ _ d s n (vector_memcpy32_m8_m4_general_opt-Copies v d s n m apart small) bytes,
    )
