-- ===== src/DataMove/Vector.antt =====
-- The vector routines of kernel/data_move_vec.c that take a length: strip-mined loops over
-- RISC-V vector loads and stores. VLEN is 512, so a group of `M` registers holds `16 * M` words.
-- A vector register is modelled by what a `vle32.v` put into it, up to `vl` elements.
pub mod Strips
pub mod Routines
use many_rvdata.Base.{
  ℕ, zero, suc, ◌+◌, ◌-◌, ◌*◌, ◌/◌, ◌%◌, ◌^◌, ◌≤◌, ◌≡◌, ltb, leb, ◌==◌, if◌then◌else◌, sub32,
}
use many_rvdata.DataMove.{Mem, load, store, blit, copy_units}

-- `vsetvli`: the instruction set lets the hardware choose between one and two full registers.
pub record Vset : Type 0 where
  pub vl : (vlmax avl : ℕ) → ℕ
  pub vl_fits : (vlmax avl : ℕ) → avl ≤ vlmax → vl vlmax avl ≡ avl
  pub vl_full : (vlmax avl : ℕ) → 2 * vlmax ≤ avl → vl vlmax avl ≡ vlmax

-- The stores of the register groups `0 … groups - 1` with `j < active`. Group `j` was loaded from
-- `m0`, `j * elems` units behind `copied`. A unit has `w` bytes.
pub pipe_stores : (w d s vl elems active copied : ℕ) (m0 : Mem) (groups : ℕ) → Mem → Mem
pipe_stores w d s vl elems active copied m0 zero m = m
pipe_stores w d s vl elems active copied m0 (suc j) m =
    let rest = pipe_stores w d s vl elems active copied m0 j m in
    if ltb j active
    then store rest (d + w * (copied + j * elems)) (w * vl) (load m0 (s + w * (copied + j * elems)))
    else rest

-- All loads come before all stores.
pub pipeline : (w d s vl elems active groups copied : ℕ) → Mem → Mem
unfolding pipe_stores
pipeline w d s vl elems active groups copied m = pipe_stores w d s vl elems active copied m groups m

-- `while (word_count - copied >= chunk) { body; copied += chunk; }`
pub big_loop : (chunk word_count : ℕ) (body : ℕ → Mem → Mem) (fuel copied : ℕ) → Mem → ℕ × Mem
big_loop chunk word_count body zero copied m = (copied, m)
big_loop chunk word_count body (suc fuel) copied m =
    let rest = big_loop chunk word_count body fuel (copied + chunk) (body copied m) in
    if leb chunk (sub32 word_count copied) then rest else (copied, m)

-- `rem > elems ? elems : rem & ~3`
pub medium_avl : (elems rem : ℕ) → ℕ
medium_avl elems rem = if ltb elems rem then elems else rem - rem % 4

module _ (v : Vset) where
  -- `while (word_count - copied >= 4)`: one register group at a time
  pub medium_loop : (d s elems word_count fuel copied : ℕ) → Mem → ℕ × Mem
  unfolding medium_avl
  medium_loop d s elems word_count zero copied m = (copied, m)
  medium_loop d s elems word_count (suc fuel) copied m =
      let avl = medium_avl elems (sub32 word_count copied) in
      let vl = v.vl elems avl in
      let m' = blit m (d + 4 * copied) (s + 4 * copied) (4 * vl) in
      let rest = medium_loop d s elems word_count fuel (copied + avl) m' in
      if leb 4 (sub32 word_count copied)
      then (if avl == 0 then (copied, m) else rest)
      else (copied, m)

  -- the words left one by one, then the bytes left one by one
  pub scalar_tail : (d s len_bytes word_count copied : ℕ) → Mem → Mem
  scalar_tail d s len_bytes word_count copied m =
      let m1 = copy_units 4 d s (word_count - copied) copied m in
      let tail = len_bytes - word_count * 4 in
      copy_units 1 (d + 4 * word_count) (s + 4 * word_count) tail 0 m1

  pub vector_memcpy32_m4_opt : (dst src len_bytes : ℕ) → Mem → Mem
  unfolding big_loop pipeline medium_loop scalar_tail
  vector_memcpy32_m4_opt dst src len_bytes m =
      let word_count = len_bytes / 4 in
      let body = λ (copied : ℕ) (m' : Mem). pipeline 4 dst src (v.vl 64 512) 64 8 8 copied m' in
      let (c1, m1) = big_loop 512 word_count body (word_count + 1) 0 m in
      let (c2, m2) = medium_loop dst src 64 word_count (word_count + 1) c1 m1 in
      scalar_tail dst src len_bytes word_count c2 m2

  pub vector_memcpy32_m8_opt : (dst src len_bytes : ℕ) → Mem → Mem
  unfolding big_loop pipeline medium_loop scalar_tail
  vector_memcpy32_m8_opt dst src len_bytes m =
      let word_count = len_bytes / 4 in
      let body = λ (copied : ℕ) (m' : Mem).
        pipeline 4 dst src (v.vl 128 512) 128 2 2 (copied + 2 * 128)
          (pipeline 4 dst src (v.vl 128 512) 128 2 2 copied m') in
      let (c1, m1) = big_loop 512 word_count body (word_count + 1) 0 m in
      let (c2, m2) = medium_loop dst src 128 word_count (word_count + 1) c1 m1 in
      scalar_tail dst src len_bytes word_count c2 m2

  -- the big chunks of the two general routines: as many full groups as there are words for
  pub general_loop : (d s elems max_groups word_count copied : ℕ) → Mem → ℕ × Mem
  unfolding big_loop pipeline
  general_loop d s elems max_groups word_count copied m =
      let all = sub32 word_count copied / elems in
      let big_chunks = if ltb max_groups all then max_groups else all in
      let big_chunk_w = big_chunks * elems in
      let body = λ (copied' : ℕ) (m' : Mem).
        pipeline 4 d s (v.vl elems big_chunk_w) elems big_chunks max_groups copied' m' in
      let done = big_loop big_chunk_w word_count body (word_count + 1) copied m in
      if big_chunk_w == 0 then (copied, m) else done

  -- `switch (tail)`: all loads of a case come before its stores
  pub switch_tail : (w d s tail copied : ℕ) → Mem → ℕ × Mem
  unfolding pipeline
  switch_tail w d s tail copied m =
      if tail == 3
      then (copied + 3, pipeline w d s 1 1 3 3 copied m)
      else if tail == 2
      then (copied + 2, pipeline w d s 1 1 2 2 copied m)
      else if tail == 1
      then (copied + 1, pipeline w d s 1 1 1 1 copied m)
      else (copied, m)

  -- the word tail and the byte tail
  pub general_tail : (d s len_bytes word_count copied : ℕ) → Mem → Mem
  unfolding switch_tail
  general_tail d s len_bytes word_count copied m =
      let (c, m1) = switch_tail 4 d s (sub32 word_count copied) copied m in
      (switch_tail 1 (d + 4 * c) (s + 4 * c) (len_bytes - word_count * 4) 0 m1).1

  pub vector_memcpy32_m4_general_opt : (dst src len_bytes : ℕ) → Mem → Mem
  unfolding general_loop medium_loop general_tail
  vector_memcpy32_m4_general_opt dst src len_bytes m =
      let word_count = len_bytes / 4 in
      let (c1, m1) = general_loop dst src 64 8 word_count 0 m in
      let (c2, m2) = medium_loop dst src 64 word_count (word_count + 1) c1 m1 in
      general_tail dst src len_bytes word_count c2 m2

  pub vector_memcpy32_m8_m4_general_opt : (dst src len_bytes : ℕ) → Mem → Mem
  unfolding general_loop medium_loop general_tail
  vector_memcpy32_m8_m4_general_opt dst src len_bytes m =
      let word_count = len_bytes / 4 in
      let (c1, m1) = general_loop dst src 128 4 word_count 0 m in
      let (c2, m2) = general_loop dst src 64 8 word_count c1 m1 in
      let (c3, m3) = medium_loop dst src 64 word_count (word_count + 1) c2 m2 in
      general_tail dst src len_bytes word_count c3 m3
