-- ===== src/Memory.antt =====
-- src/memcpy.c and `snrt_memset` of include/snrt.h of the runtime (software/snRuntime): bytes copied
-- and set one by one, from the first on. Pointers do not wrap.
pub mod Laws
use many_rvdata.Base.{ℕ, zero, suc, ◌+◌, ◌%◌}
use many_rvdata.DataMove.{Mem, load, store}

-- the loop of `memcpy` from index `i` on, with `k` rounds left
unfoldable pub copy_from : (dest src k i : ℕ) → Mem → Mem
copy_from dest src zero i m = m
copy_from dest src (suc k) i m =
    copy_from dest src k (i + 1) (store m (dest + i) 1 (load m (src + i)))

-- both return `dest`
unfoldable pub memcpy : (dest src n : ℕ) → Mem → ℕ × Mem
unfolding copy_from
memcpy dest src n m = (dest, copy_from dest src n 0 m)

unfoldable pub snrt_memcpy : (dst src n : ℕ) → Mem → ℕ × Mem
unfolding memcpy
snrt_memcpy dst src n m = memcpy dst src n m

-- the loop of `snrt_memset`; the count is below 2 ^ 32, so that `i` does not wrap
unfoldable pub set_from : (ptr value k i : ℕ) → Mem → Mem
set_from ptr value zero i m = m
set_from ptr value (suc k) i m =
    set_from ptr value k (i + 1) (store m (ptr + i) 1 (λ j. value % 256))

unfoldable pub snrt_memset : (ptr value num : ℕ) → Mem → ℕ × Mem
unfolding set_from
snrt_memset ptr value num m = (ptr, set_from ptr value num 0 m)
