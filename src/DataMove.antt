-- ===== src/DataMove.antt =====
-- kernel/data_move_vec.c of the RLC test (software/tests/
-- multi_producer_single_consumer_double_linked_list): memory, and the scalar copy routines.
-- A memory maps a byte address to a byte. An access of several bytes goes through a register,
-- which holds what was read, by byte index. Pointers are plain numbers that do not wrap, and a word
-- access takes any address, aligned or not.
pub mod Blit
pub mod Scalar
pub mod Vector
pub mod Fixed
pub mod Agree
mod Examples
use many_rvdata.Base.{
  ℕ, zero, suc, ◌+◌, ◌-◌, ◌*◌, ◌/◌, ◌%◌, ◌≤◌, ◌⊎◌, ltb, leb, if◌then◌else◌, ◌&&◌,
}

abbrev pub Mem : Type 0
Mem = ℕ → ℕ

abbrev pub Reg : Type 0
Reg = ℕ → ℕ

-- `n` bytes from address `a` on, by index; the count matters to the store only
abbrev pub load : Mem → ℕ → Reg
load m a i = m (a + i)

unfoldable pub store : Mem → ℕ → ℕ → Reg → Mem
store m d n r a = if leb d a && ltb a (d + n) then r (a - d) else m a

-- one load of `n` bytes at `s` and their store at `d`
abbrev pub blit : Mem → (d s n : ℕ) → Mem
blit m d s n = store m d n (load m s)

-- The two ranges of `n` bytes have no byte in common.
abbrev pub Apart : (d s n : ℕ) → Type 0
Apart d s n = (d + n ≤ s) ⊎ (s + n ≤ d)

-- `for (; i < n; ++i) d[i] = s[i];` over units of `w` bytes, with `k` rounds left
pub copy_units : (w d s : ℕ) → (k i : ℕ) → Mem → Mem
copy_units w d s zero i m = m
copy_units w d s (suc k) i m = copy_units w d s k (i + 1) (blit m (d + w * i) (s + w * i) w)

pub scalar_memcpy32_8bit : (dst src len_bytes : ℕ) → Mem → Mem
unfolding copy_units
scalar_memcpy32_8bit dst src len_bytes m = copy_units 1 dst src len_bytes 0 m

pub scalar_memcpy32_32bit : (dst src len_bytes : ℕ) → Mem → Mem
unfolding copy_units
scalar_memcpy32_32bit dst src len_bytes m =
    let n_words = len_bytes / 4 in
    let tail = len_bytes - n_words * 4 in
    copy_units 1 (dst + 4 * n_words) (src + 4 * n_words) tail 0 (copy_units 4 dst src n_words 0 m)

-- `while (blocks--)`: four words, then both pointers move on by four words
pub copy_blocks : (blocks d s : ℕ) → Mem → Mem
copy_blocks zero d s m = m
copy_blocks (suc blocks) d s m =
    let m1 = blit m (d + 4 * 0) (s + 4 * 0) 4 in
    let m2 = blit m1 (d + 4 * 1) (s + 4 * 1) 4 in
    let m3 = blit m2 (d + 4 * 2) (s + 4 * 2) 4 in
    let m4 = blit m3 (d + 4 * 3) (s + 4 * 3) 4 in copy_blocks blocks (d + 4 * 4) (s + 4 * 4) m4

pub scalar_memcpy32_32bit_unrolled : (dst src len_bytes : ℕ) → Mem → Mem
unfolding copy_blocks copy_units
scalar_memcpy32_32bit_unrolled dst src len_bytes m =
    let n_words = len_bytes / 4 in
    let blocks = n_words / 4 in
    let rem_w = n_words % 4 in
    let tail = len_bytes - n_words * 4 in
    let d1 = dst + 4 * (blocks * 4) in
    let s1 = src + 4 * (blocks * 4) in
    let m1 = copy_blocks blocks dst src m in
    let m2 = copy_units 4 d1 s1 rem_w 0 m1 in
    copy_units 1 (d1 + 4 * rem_w) (s1 + 4 * rem_w) tail 0 m2
