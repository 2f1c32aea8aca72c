-- ===== src/DataMove/Fixed.antt =====
-- The two routines of kernel/data_move_vec.c for a packet of 1360 bytes (340 words), a payload of
-- 1350 bytes and a header of 10.
use many_rvdata.Base.{
  ℕ, ◌+◌, ◌-◌, ◌*◌, ◌/◌, ◌%◌, ◌^◌, ◌≤◌, ◌<◌, ◌≡◌, ◌⊎◌, arith, ltb, if◌then◌else◌,
}
use many_rvdata.DataMove.{Mem, Reg, load, store}
use many_rvdata.DataMove.Blit.{Copies}
use many_rvdata.DataMove.Vector.{Vset}

-- A register group after `vle32.v` with `vl` elements; behind them stands what `old` says (`ta`
-- leaves that to the hardware).
abbrev pub vle32 : (m : Mem) (vl : ℕ) (old : Reg) (a : ℕ) → Reg
vle32 m vl old a b = if ltb b (4 * vl) then load m a b else old b

-- `vslideup.vi vd, vs, 1`: element 0 keeps its value
abbrev pub slide_up : (vd vs : Reg) → Reg
slide_up vd vs b = if ltb b 4 then vd b else vs (b - 4)

-- `vmv.s.x vd, x`: element 0 becomes the word `x`, little-endian
abbrev pub move_scalar : (vd : Reg) (x : ℕ) → Reg
move_scalar vd x b = if ltb b 4 then x / 256 ^ b % 256 else vd b

module _ (v : Vset) (old : Reg) where
  pub vector_memcpy32_1360B_opt : (dst src : ℕ) → Mem → Mem
  vector_memcpy32_1360B_opt dst src m =
      let v0 = vle32 m (v.vl 128 128) old (src + 4 * (0 * 128)) in
      let v8 = vle32 m (v.vl 128 128) old (src + 4 * (1 * 128)) in
      let v16 = vle32 m (v.vl 128 84) old (src + 4 * (2 * 128)) in
      let m1 = store m (dst + 4 * (2 * 128)) (4 * v.vl 128 84) v16 in
      let m2 = store m1 (dst + 4 * (0 * 128)) (4 * v.vl 128 128) v0 in
      store m2 (dst + 4 * (1 * 128)) (4 * v.vl 128 128) v8

  pub vector_memcpy32_1360B_opt_with_header : (dst src sn : ℕ) → Mem → Mem
  vector_memcpy32_1360B_opt_with_header dst src sn m =
      let s32 = src + 4 * 1 in
      let v16 = vle32 m (v.vl 128 84) old s32 in
      let v0 = vle32 m (v.vl 128 128) old (s32 + 4 * (84 - 1 + 0 * 128)) in
      let v8 = vle32 m (v.vl 128 128) old (s32 + 4 * (84 - 1 + 1 * 128)) in
      let v24 = move_scalar (slide_up old v16) sn in
      let m1 = store m dst (4 * v.vl 128 84) v24 in
      let m2 = store m1 (dst + 4 * (84 + 0 * 128)) (4 * v.vl 128 128) v0 in
      store m2 (dst + 4 * (84 + 1 * 128)) (4 * v.vl 128 128) v8

  -- The routine for one packet copies its 1360 bytes and changes nothing else, also where source
  -- and target overlap, whatever the registers held.
  pub vector_memcpy32_1360B_opt-Copies :
      (dst src : ℕ) (m : Mem) → Copies m (vector_memcpy32_1360B_opt dst src m) dst src 1360
  unfolding vector_memcpy32_1360B_opt store
  vector_memcpy32_1360B_opt-Copies dst src m =
      rw (v.vl_fits 128 128 (omega arith), v.vl_fits 128 84 (omega arith))
        (λ i lt. ground arith, λ a out. ground arith)

  -- The routine with a header writes the sequence number, little-endian, in the first four bytes,
  -- the source's bytes 4 to 1359 behind it, and nothing else, also where source and target
  -- overlap, whatever the registers held.
  pub with_header-Copies :
      (dst src sn : ℕ) (m : Mem)
      → let m' = vector_memcpy32_1360B_opt_with_header dst src sn m in
        ((i : ℕ) → i < 4 → m' (dst + i) ≡ sn / 256 ^ i % 256)
        × ((i : ℕ) → 4 ≤ i → i < 1360 → m' (dst + i) ≡ m (src + i))
        × ((a : ℕ) → (a < dst) ⊎ (dst + 1360 ≤ a) → m' a ≡ m a)
  unfolding vector_memcpy32_1360B_opt_with_header store
  with_header-Copies dst src sn m =
      rw (v.vl_fits 128 128 (omega arith), v.vl_fits 128 84 (omega arith))
        (λ i lt. ground arith, λ i le lt. ground arith, λ a out. ground arith)
