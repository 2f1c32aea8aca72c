-- ===== src/DataMove/Scalar.antt =====
-- The scalar routines of kernel/data_move_vec.c copy every byte.
use many_rvdata.Base.{ℕ, zero, suc, ◌+◌, ◌-◌, ◌*◌, ◌/◌, ◌%◌, ◌≤◌, ◌≡◌, refl, ◌∙◌, ap, sym, arith}
use many_rvdata.DataMove.{
  Mem, load, blit, Apart, copy_units, copy_blocks, scalar_memcpy32_8bit, scalar_memcpy32_32bit,
  scalar_memcpy32_32bit_unrolled,
}
use many_rvdata.DataMove.Blit.{blit-append, blit-at, store-zero, Copies, Copies-of_eq}

-- After `i` units are copied, `k` more rounds copy the units up to `i + k`.
pub copy_units_from :
    (w d s n : ℕ) (k i : ℕ) (m : Mem)
    → Apart d s n
    → w * (i + k) ≤ n
    → copy_units w d s k i (blit m d s (w * i)) ≡ blit m d s (w * (i + k))
unfolding copy_units
copy_units_from w d s n zero i m apart le = ap (blit m d s) (omega arith)
copy_units_from w d s n (suc k) i m apart le =
    ap (copy_units w d s k (i + 1))
      (blit-append m d s (w * i) w n apart (omega arith) ∙ ap (blit m d s) (omega arith))
    ∙ copy_units_from w d s n k (i + 1) m apart (omega arith)
    ∙ ap (blit m d s) (omega arith)

-- The loop over units after `a` bytes are copied.
pub copy_units-append :
    (w d s n : ℕ) (a k : ℕ) (m : Mem)
    → Apart d s n
    → a + w * k ≤ n
    → copy_units w (d + a) (s + a) k 0 (blit m d s a) ≡ blit m d s (a + w * k)
copy_units-append w d s n a k m apart le =
    ap (copy_units w (d + a) (s + a) k 0) (start (blit m d s a))
    ∙ copy_units_from w (d + a) (s + a) (w * k) k 0 (blit m d s a) (ground arith) (omega arith)
    ∙ ap (blit (blit m d s a) (d + a) (s + a)) (omega arith)
    ∙ blit-append m d s a (w * k) n apart le
  where
    zero_bytes : w * 0 ≡ 0
    zero_bytes = omega arith

    start : (m' : Mem) → m' ≡ blit m' (d + a) (s + a) (w * 0)
    start m' =
        sym (ap (blit m' (d + a) (s + a)) zero_bytes ∙ store-zero m' (d + a) (load m' (s + a)))

-- The same with the addresses, the memory and the count given by equations.
pub copy_units-at :
    (w d s n a k x y c : ℕ) (m m' : Mem)
    → Apart d s n
    → c ≤ n
    → x ≡ d + a
    → y ≡ s + a
    → c ≡ a + w * k
    → m' ≡ blit m d s a
    → copy_units w x y k 0 m' ≡ blit m d s c
copy_units-at w d s n a k x y c m m' apart le ex ey ec em =
    rw (ex, ey, ec, em) (copy_units-append w d s n a k m apart (omega arith))

-- `blocks` rounds of four words each copy `16 * blocks` bytes.
copy_blocks-at :
    (d s n : ℕ) (blocks a x y c : ℕ) (m : Mem)
    → Apart d s n
    → c ≤ n
    → x ≡ d + a
    → y ≡ s + a
    → c ≡ a + 16 * blocks
    → copy_blocks blocks x y (blit m d s a) ≡ blit m d s c
unfolding copy_blocks
copy_blocks-at d s n zero a x y c m apart le ex ey ec = ap (blit m d s) (omega arith)
copy_blocks-at d s n (suc blocks) a x y c m apart le ex ey ec =
    rw
      (
        blit-at m d s n a 4 (x + 0) (y + 0) apart (omega arith) (omega arith) (omega arith),
        blit-at m d s n (a + 4) 4 (x + 4) (y + 4) apart (omega arith) (omega arith) (omega arith),
        blit-at m d s n (a + 4 + 4) 4 (x + 8) (y + 8) apart (omega arith) (omega arith)
            (omega arith),
        blit-at m d s n (a + 4 + 4 + 4) 4 (x + 12) (y + 12) apart (omega arith) (omega arith)
            (omega arith),
      )
      (copy_blocks-at d s n blocks (a + 4 + 4 + 4 + 4) (x + 16) (y + 16) c m apart le (omega arith)
        (omega arith) (omega arith))

-- The start of a copy: nothing is copied yet.
pub blit-zero : (m : Mem) (d s : ℕ) → m ≡ blit m d s 0
blit-zero m d s = sym (store-zero m d (load m s))

-- The byte loop copies `len_bytes` bytes and changes nothing else, where the ranges are apart.
pub scalar_memcpy32_8bit-Copies :
    (dst src len_bytes : ℕ) (m : Mem)
    → Apart dst src len_bytes
    → Copies m (scalar_memcpy32_8bit dst src len_bytes m) dst src len_bytes
unfolding scalar_memcpy32_8bit
scalar_memcpy32_8bit-Copies dst src len_bytes m apart = Copies-of_eq m _ dst src len_bytes (
    copy_units-at 1 dst src len_bytes 0 len_bytes dst src len_bytes m m apart (omega arith)
      (omega arith) (omega arith) (omega arith) (blit-zero m dst src))

-- The word loop and its byte tail copy `len_bytes` bytes and change nothing else, where the
-- ranges are apart.
pub scalar_memcpy32_32bit-Copies :
    (dst src len_bytes : ℕ) (m : Mem)
    → Apart dst src len_bytes
    → Copies m (scalar_memcpy32_32bit dst src len_bytes m) dst src len_bytes
unfolding scalar_memcpy32_32bit
scalar_memcpy32_32bit-Copies dst src n m apart = Copies-of_eq m _ dst src n (
    copy_units-at 1 dst src n (4 * (n / 4)) (n - n / 4 * 4) (dst + 4 * (n / 4)) (src + 4 * (n / 4))
      n m _ apart (omega arith) refl refl (omega arith)
      (copy_units-at 4 dst src n 0 (n / 4) dst src (4 * (n / 4)) m m apart (omega arith)
        (omega arith) (omega arith) (omega arith) (blit-zero m dst src)))

-- The unrolled loop, its word tail and its byte tail copy `len_bytes` bytes and change nothing
-- else, where the ranges are apart.
pub scalar_memcpy32_32bit_unrolled-Copies :
    (dst src len_bytes : ℕ) (m : Mem)
    → Apart dst src len_bytes
    → Copies m (scalar_memcpy32_32bit_unrolled dst src len_bytes m) dst src len_bytes
unfolding scalar_memcpy32_32bit_unrolled
scalar_memcpy32_32bit_unrolled-Copies dst src n m apart = Copies-of_eq m _ dst src n (
    copy_units-at 1 dst src n (4 * (n / 4)) (n - n / 4 * 4) _ _ n m _ apart (omega arith)
      (omega arith) (omega arith) (omega arith)
      (copy_units-at 4 dst src n (16 * (n / 4 / 4)) (n / 4 % 4) _ _ (4 * (n / 4)) m _ apart
        (omega arith) (omega arith) (omega arith) (omega arith) blocks))
  where
    blocks : copy_blocks (n / 4 / 4) dst src m ≡ blit m dst src (16 * (n / 4 / 4))
    blocks =
        ap (copy_blocks (n / 4 / 4) dst src) (blit-zero m dst src)
        ∙ copy_blocks-at dst src n (n / 4 / 4) 0 dst src (16 * (n / 4 / 4)) m apart (omega arith)
            (omega arith) (omega arith) (omega arith)
