-- ===== src/Alloc/Examples.antt =====
-- An L1 memory of 64 bytes.
use many_rvdata.Base.{◌≡◌, refl, arith, [], ◌∷◌}
use many_rvdata.Alloc.{Allocator, snrt_l1alloc}
use many_rvdata.Alloc.Laws.{IsAllocator, l1allocs, Disjoint, l1allocs-Disjoint}

abbrev small_memory : Allocator
small_memory = record { base = 4096; size = 64; next = 4096 }

small_memory-IsAllocator : IsAllocator small_memory
small_memory-IsAllocator = record {
  from = omega arith;
  to = omega arith;
  fits = omega arith;
  aligned = refl;
  based = refl;
  nonzero = omega arith;
}

l1allocs-Disjoint_example :
    let (blocks, a') = l1allocs (12 ∷ 100 ∷ 40 ∷ []) small_memory in
    Disjoint 4096 4160 blocks × IsAllocator a'
l1allocs-Disjoint_example =
    l1allocs-Disjoint (12 ∷ 100 ∷ 40 ∷ []) small_memory small_memory-IsAllocator (omega arith)

-- A size at the top of the range aligns to 0: the address is given out with no room behind it.
huge_size : snrt_l1alloc 4294967295 small_memory ≡ (4096, small_memory)
unfolding snrt_l1alloc
huge_size = refl
