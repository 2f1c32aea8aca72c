-- ===== src/Pages.antt =====
-- kernel/mm.c and kernel/mm.h of the RLC test: a pool of 1024 pages, each of the size of a node.
-- A free page's `next` is the word at its start, which is a live page's `Node.prev`, so the heap of
-- `LinkedList` holds both. `bulk_buffer` is the address of the pool.
pub mod Laws
mod Examples
use many_rvdata.Base.{ℕ, zero, suc, ◌+◌, ◌*◌, ◌/◌, ◌%◌, ◌≤◌, ◌≡◌, leb, ◌==◌, if◌then◌else◌}
use many_rvdata.LinkedList.{Ptr, null, Heap, set_prev}

-- `sizeof(Node)` on a 32-bit machine
abbrev pub page_size : ℕ
page_size = 24

abbrev pub buffer_size : ℕ
buffer_size = page_size * 1024

pub record MmContext : Type 0 where
  pub buffer : Ptr
  pub alloc_offset : ℕ
  pub free_list : Ptr
  pub lock : ℕ

module _ (bulk_buffer : Ptr) where
  unfoldable pub mm_init : MmContext
  mm_init = record { buffer = bulk_buffer; alloc_offset = 0; free_list = null; lock = 0 }

  -- Pointer arithmetic on `uint32_t *` counts words. The result is NULL when no page is left.
  unfoldable pub mm_alloc : MmContext → Heap → Ptr × MmContext
  mm_alloc c h =
      if leb (c.alloc_offset + page_size) buffer_size
      then (
        bulk_buffer + 4 * (c.alloc_offset / 4),
        record c { alloc_offset = c.alloc_offset + page_size },
      )
      else if c.free_list == null
      then (null, c)
      else (c.free_list, record c { free_list = (h c.free_list).prev })

unfoldable pub mm_free : Ptr → MmContext → Heap → MmContext × Heap
mm_free p c h = if p == null then (c, h) else (record c { free_list = p }, set_prev h p c.free_list)

-- `while (count--) *ptr++ = (unsigned char)value;`
pub mm_memset : (dest value : ℕ) (count : ℕ) → (ℕ → ℕ) → ℕ → ℕ
mm_memset dest value zero m = m
mm_memset dest value (suc count) m =
    mm_memset (dest + 1) value count (λ a. if a == dest then value % 256 else m a)

unfoldable pub mm_cleanup : MmContext → MmContext
mm_cleanup c = record c { alloc_offset = 0; free_list = null }
