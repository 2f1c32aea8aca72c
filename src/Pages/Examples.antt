-- ===== src/Pages/Examples.antt =====
-- The page pool at a concrete buffer.
use many_rvdata.Base.{ℕ, ◌≡◌, ◌≢◌, refl, [], ◌∷◌, arith}
use many_rvdata.LinkedList.{Ptr, Heap}
use many_rvdata.Pages.{MmContext, mm_init, mm_alloc, mm_free}
use many_rvdata.Pages.Laws.{IsPool, Allocated, mm_init-IsPool, mm_alloc-Allocated, mm_free-IsPool}

abbrev packets : Heap
packets a = record { prev = 0; next = 0; data_ = 0; tgt = 0; data_size = 1350; lock = 0 }

abbrev packets_bytes : ℕ → ℕ
packets_bytes a = 7

first_page : (mm_alloc 4096 (mm_init 4096) packets).0 ≡ 4096
unfolding mm_alloc mm_init
first_page = refl

mm_alloc-Allocated_example :
    Allocated 4096 (mm_init 4096) packets [] (mm_alloc 4096 (mm_init 4096) packets)
mm_alloc-Allocated_example =
    mm_alloc-Allocated 4096 (mm_init 4096) packets 0 [] []
      (mm_init-IsPool 4096 packets (omega arith))

abbrev used_once : MmContext
used_once = record { buffer = 4096; alloc_offset = 24; free_list = 0; lock = 0 }

used_once-IsPool : IsPool 4096 used_once packets 1 [] (4096 ∷ [])
used_once-IsPool = record {
  aligned = omega arith;
  offset = refl;
  few = omega arith;
  chain = refl;
  total = refl;
  once = λ a. ground arith;
}

mm_free-IsPool_example :
    let (c', h') = mm_free 4096 used_once packets in
    IsPool 4096 c' h' 1 (4096 ∷ []) [] × ((a : Ptr) → a ≢ 4096 → h' a ≡ packets a)
mm_free-IsPool_example = mm_free-IsPool 4096 4096 used_once packets 1 [] [] [] used_once-IsPool
