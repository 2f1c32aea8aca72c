-- ===== src/DataMove/Vector/Routines.antt =====
-- The vector routines that take a length copy every byte.
use many_rvdata.Base.{
  ℕ, zero, suc, ◌+◌, ◌-◌, ◌*◌, ◌/◌, ◌^◌, ◌≤◌, ◌<◌, ◌≡◌, refl, ◌∙◌, ap, sym, subst, arith, sub32,
}
use many_rvdata.DataMove.{Mem, blit, Apart}
use many_rvdata.DataMove.Blit.{blit-to, Copies, Copies-of_eq}
use many_rvdata.DataMove.Scalar.{copy_units_from, copy_units-at, blit-zero}
use many_rvdata.DataMove.Vector.{
  Vset, pipeline, big_loop, medium_loop, general_loop, scalar_tail, switch_tail, general_tail,
  vector_memcpy32_m4_opt, vector_memcpy32_m8_opt, vector_memcpy32_m4_general_opt,
  vector_memcpy32_m8_m4_general_opt,
}
use many_rvdata.DataMove.Vector.Strips.{
  Moved, pipeline-at, big_loop-Moved, medium_loop-Moved, general_loop-Moved,
}

scalar_tail-blit :
    (v : Vset) (d s n c : ℕ) (m : Mem)
    → Apart d s n
    → c ≤ n / 4
    → scalar_tail v d s n (n / 4) c (blit m d s (4 * c)) ≡ blit m d s n
unfolding scalar_tail
scalar_tail-blit v d s n c m apart le =
    copy_units-at 1 d s n (4 * (n / 4)) (n - n / 4 * 4) _ _ n m _ apart (omega arith) refl refl
      (omega arith)
      (copy_units_from 4 d s n (n / 4 - c) c m apart (omega arith) ∙ ap (blit m d s) (omega arith))

switch_tail-at :
    (v : Vset) (w d s n tail c : ℕ) (m : Mem)
    → Apart d s n
    → w * (c + tail) ≤ n
    → tail < 4
    → switch_tail v w d s tail c (blit m d s (w * c)) ≡ (c + tail, blit m d s (w * (c + tail)))
unfolding switch_tail
switch_tail-at v w d s n zero c m apart room small = ap (λ (c' : ℕ). (c', blit m d s (w * c'))) none
  where
    none : c ≡ c + 0
    none = omega arith
switch_tail-at v w d s n (suc zero) c m apart room small =
    ap (λ m'. (c + 1, m'))
      (pipeline-at w d s 1 1 1 c n (c + 1) m (omega arith) apart room (omega arith))
switch_tail-at v w d s n (suc (suc zero)) c m apart room small =
    ap (λ m'. (c + 2, m'))
      (pipeline-at w d s 1 2 2 c n (c + 2) m (omega arith) apart room (omega arith))
switch_tail-at v w d s n (suc (suc (suc zero))) c m apart room small =
    ap (λ m'. (c + 3, m'))
      (pipeline-at w d s 1 3 3 c n (c + 3) m (omega arith) apart room (omega arith))
switch_tail-at v w d s n (suc (suc (suc (suc t)))) c m apart room small = absurd (omega arith)

general_tail-blit :
    (v : Vset) (d s n c : ℕ) (m : Mem)
    → Apart d s n
    → c ≤ n / 4
    → n / 4 < c + 4
    → n < 2 ^ 32
    → general_tail v d s n (n / 4) c (blit m d s (4 * c)) ≡ blit m d s n
unfolding general_tail
general_tail-blit v d s n c m apart le near small =
    ap (λ (r : ℕ × Mem). (switch_tail v 1 (d + 4 * r.0) (s + 4 * r.0) rest 0 r.1).1) words
    ∙ ap (λ (m' : Mem). (switch_tail v 1 d' s' rest 0 m').1) (blit-zero body d' s')
    ∙ ap (λ (r : ℕ × Mem). r.1)
        (switch_tail-at v 1 d' s' rest rest 0 body (omega arith) (omega arith) (omega arith))
    ∙ blit-to m d s n (4 * (n / 4)) (1 * (0 + rest)) d' s' n apart (omega arith) refl refl
        (omega arith)
  where
    rest : ℕ
    rest = n - n / 4 * 4

    d' : ℕ
    d' = d + 4 * (n / 4)

    s' : ℕ
    s' = s + 4 * (n / 4)

    body : Mem
    body = blit m d s (4 * (n / 4))

    words : switch_tail v 4 d s (sub32 (n / 4) c) c (blit m d s (4 * c)) ≡ (n / 4, body)
    words =
        switch_tail-at v 4 d s n (sub32 (n / 4) c) c m apart (omega arith) (omega arith)
        ∙ ap (λ (c' : ℕ). (c', blit m d s (4 * c'))) (omega arith)

module _ (v : Vset) (d s n : ℕ) (m : Mem) (apart : Apart d s n) (small : n < 2 ^ 32) where
  scalar_end :
      (c0 least : ℕ) (r : ℕ × Mem)
      → Moved m d s (n / 4) c0 least r
      → scalar_tail v d s n (n / 4) r.0 r.1 ≡ blit m d s n
  scalar_end c0 least r moved =
      ap (scalar_tail v d s n (n / 4) r.0) moved.moved
      ∙ scalar_tail-blit v d s n r.0 m apart moved.within

  general_end :
      (c0 : ℕ) (r : ℕ × Mem)
      → Moved m d s (n / 4) c0 4 r
      → general_tail v d s n (n / 4) r.0 r.1 ≡ blit m d s n
  general_end c0 r moved =
      ap (general_tail v d s n (n / 4) r.0) moved.moved
      ∙ general_tail-blit v d s n r.0 m apart moved.within moved.left small

  medium :
      (e c0 least : ℕ) (r : ℕ × Mem)
      → 4 ≤ e
      → Moved m d s (n / 4) c0 least r
      → Moved m d s (n / 4) r.0 4 (medium_loop v d s e (n / 4) (n / 4 + 1) r.0 r.1)
  medium e c0 least r four moved = rw moved.moved (
      medium_loop-Moved v d s e n (n / 4) (n / 4 + 1) r.0 m apart (omega arith) four (omega arith)
        moved.within (omega arith))

  general :
      (e groups c0 least : ℕ) (r : ℕ × Mem)
      → Moved m d s (n / 4) c0 least r
      → Moved m d s (n / 4) r.0 (n / 4 + 1) (general_loop v d s e groups (n / 4) r.0 r.1)
  general e groups c0 least r moved = rw moved.moved (
      general_loop-Moved v d s e groups n (n / 4) r.0 m apart (omega arith) (omega arith)
        moved.within)

  start : Moved m d s (n / 4) 0 (n / 4 + 1) (0, m)
  start = record {
    grown = omega arith;
    within = omega arith;
    left = omega arith;
    moved = blit-zero m d s ∙ ap (blit m d s) (omega arith);
  }

  big :
      (body : ℕ → Mem → Mem)
      → ((c : ℕ) → c + 512 ≤ n / 4 → body c (blit m d s (4 * c)) ≡ blit m d s (4 * (c + 512)))
      → Moved m d s (n / 4) 0 512 (big_loop 512 (n / 4) body (n / 4 + 1) 0 m)
  big body step =
      subst (λ x. Moved m d s (n / 4) 0 512 (big_loop 512 (n / 4) body (n / 4 + 1) 0 x))
        (sym start.moved)
        (big_loop-Moved d s 512 (n / 4) body (n / 4 + 1) 0 m step (omega arith) (omega arith)
          (omega arith) (omega arith))

  general_big :
      (e groups : ℕ) → Moved m d s (n / 4) 0 (n / 4 + 1) (general_loop v d s e groups (n / 4) 0 m)
  general_big e groups = general e groups 0 (n / 4 + 1) (0, m) start

  m4_step :
      (c : ℕ)
      → c + 512 ≤ n / 4
      → pipeline 4 d s (v.vl 64 512) 64 8 8 c (blit m d s (4 * c)) ≡ blit m d s (4 * (c + 512))
  m4_step c fits =
      rw (v.vl_full 64 512 (omega arith))
        (pipeline-at 4 d s 64 8 8 c n (c + 512) m (omega arith) apart (omega arith) (omega arith))

  m8_step :
      (c : ℕ)
      → c + 512 ≤ n / 4
      → pipeline 4 d s
          (v.vl 128 512)
          128
          2
          2
          (c + 2 * 128)
          (pipeline 4 d s (v.vl 128 512) 128 2 2 c (blit m d s (4 * c)))
        ≡ blit m d s (4 * (c + 512))
  m8_step c fits =
      rw
        (
          v.vl_full 128 512 (omega arith),
          pipeline-at 4 d s 128 2 2 c n (c + 2 * 128) m (omega arith) apart (omega arith)
              (omega arith),
        )
        (pipeline-at 4 d s 128 2 2 (c + 2 * 128) n (c + 512) m (omega arith) apart (omega arith)
          (omega arith))

-- The m4 routine (512-word rounds of eight register groups, then single groups, words and bytes)
-- copies `len_bytes` bytes and changes nothing else, where the ranges are apart.
pub vector_memcpy32_m4_opt-Copies :
    (v : Vset) (dst src len_bytes : ℕ) (m : Mem)
    → Apart dst src len_bytes
    → len_bytes < 2 ^ 32
    → Copies m (vector_memcpy32_m4_opt v dst src len_bytes m) dst src len_bytes
unfolding vector_memcpy32_m4_opt
vector_memcpy32_m4_opt-Copies v d s n m apart small = Copies-of_eq m _ d s n (
    scalar_end v d s n m apart small _ 4 _ (
      medium v d s n m apart small 64 0 512 _ (omega arith)
        (big v d s n m apart small _ (m4_step v d s n m apart small))))

-- The m8 routine (512-word rounds of two pairs of register groups, then single groups, words and
-- bytes) copies `len_bytes` bytes and changes nothing else, where the ranges are apart.
pub vector_memcpy32_m8_opt-Copies :
    (v : Vset) (dst src len_bytes : ℕ) (m : Mem)
    → Apart dst src len_bytes
    → len_bytes < 2 ^ 32
    → Copies m (vector_memcpy32_m8_opt v dst src len_bytes m) dst src len_bytes
unfolding vector_memcpy32_m8_opt
vector_memcpy32_m8_opt-Copies v d s n m apart small = Copies-of_eq m _ d s n (
    scalar_end v d s n m apart small _ 4 _ (
      medium v d s n m apart small 128 0 512 _ (omega arith)
        (big v d s n m apart small _ (m8_step v d s n m apart small))))

-- The general m4 routine (rounds of as many full groups as there are words for, at most eight)
-- copies `len_bytes` bytes and changes nothing else, where the ranges are apart.
pub vector_memcpy32_m4_general_opt-Copies :
    (v : Vset) (dst src len_bytes : ℕ) (m : Mem)
    → Apart dst src len_bytes
    → len_bytes < 2 ^ 32
    → Copies m (vector_memcpy32_m4_general_opt v dst src len_bytes m) dst src len_bytes
unfolding vector_memcpy32_m4_general_opt
vector_memcpy32_m4_general_opt-Copies v d s n m apart small = Copies-of_eq m _ d s n (
    general_end v d s n m apart small _ _ (
      medium v d s n m apart small 64 0 (n / 4 + 1) _ (omega arith)
        (general_big v d s n m apart small 64 8)))

-- The general routine that falls back from m8 to m4 groups copies `len_bytes` bytes and changes
-- nothing else, where the ranges are apart.
pub vector_memcpy32_m8_m4_general_opt-Copies :
    (v : Vset) (dst src len_bytes : ℕ) (m : Mem)
    → Apart dst src len_bytes
    → len_bytes < 2 ^ 32
    → Copies m (vector_memcpy32_m8_m4_general_opt v dst src len_bytes m) dst src len_bytes
unfolding vector_memcpy32_m8_m4_general_opt
vector_memcpy32_m8_m4_general_opt-Copies v d s n m apart small = Copies-of_eq m _ d s n (
    general_end v d s n m apart small _ _ (
      medium v d s n m apart small 64 _ (n / 4 + 1) _ (omega arith) (
        general v d s n m apart small 64 8 0 (n / 4 + 1) _
          (general_big v d s n m apart small 128 4))))
