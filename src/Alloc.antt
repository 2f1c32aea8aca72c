-- ===== src/Alloc.antt =====
-- src/alloc.c of the runtime (software/snRuntime): the allocators of the cluster's L1 memory and of
-- the shared L3 memory. Addresses and sizes are 32-bit words that wrap.
pub mod Laws
mod Examples
use many_rvdata.Base.{ℕ, ◌+◌, ◌-◌, ◌*◌, ◌/◌, ◌≡◌, ltb, if◌then◌else◌, add32, sub32}

abbrev pub min_chunk_size : ℕ
min_chunk_size = 8

-- `ALIGN_UP(addr, 8)`: the low three bits cleared after adding 7
unfoldable pub align_up : ℕ → ℕ
align_up addr = sub32 (add32 addr min_chunk_size) 1 / 8 * 8

-- `struct snrt_allocator_inst`
pub record Allocator : Type 0 where
  pub base : ℕ
  pub size : ℕ
  pub next : ℕ

-- the address, or 0 with no memory left
unfoldable pub snrt_l1alloc : (size : ℕ) → Allocator → ℕ × Allocator
unfolding align_up
snrt_l1alloc size alloc =
    let size' = align_up size in
    if ltb (add32 alloc.base alloc.size) (add32 alloc.next size')
    then (0, alloc)
    else (alloc.next, record alloc { next = add32 alloc.next size' })

unfoldable pub snrt_l1alloc_reset : Allocator → Allocator
snrt_l1alloc_reset alloc = record alloc { next = alloc.base }

unfoldable pub snrt_l3alloc : (size : ℕ) → Allocator → ℕ × Allocator
snrt_l3alloc size alloc = (alloc.next, record alloc { next = add32 alloc.next size })

-- `edram` is the word at the symbol `_edram`; both allocators, L1 first
unfoldable pub snrt_alloc_init : (mem_start mem_end edram l3off : ℕ) → Allocator × Allocator
unfolding align_up
snrt_alloc_init mem_start mem_end edram l3off =
    let l1_base = align_up mem_start in
    let l3_base = align_up (add32 edram l3off) in
    (
      record { base = l1_base; size = sub32 mem_end mem_start; next = l1_base },
      record { base = l3_base; size = 0; next = l3_base },
    )
