-- ===== src/L1Cache/Examples.antt =====
-- A cache that is idle at the third poll of each flush, and 128 KiB of L1 memory.
use many_rvdata.Base.{ℕ, ◌≡◌, refl, arith, ◌==◌, if◌then◌else◌, true, false, List, [], ◌++◌, some}
use many_rvdata.Alloc.{Allocator}
use many_rvdata.Alloc.Laws.{IsAllocator}
use many_rvdata.L1Cache.{Machine, Access}
use many_rvdata.L1Cache.Laws.{flushing, safe, Layout, configure, last_stores, configure-safe}

abbrev third : ℕ → ℕ
third r = if r == 2 then 0 else 1

abbrev l1 : Allocator
l1 = record { base = 0x100000; size = 0x20000; next = 0x100040 }

abbrev fresh : Machine
fresh = record { log = []; polls = 0; l1 = l1 }

l1-IsAllocator : IsAllocator l1
l1-IsAllocator = record {
  from = omega arith;
  to = omega arith;
  fits = omega arith;
  aligned = refl;
  based = refl;
  nonzero = omega arith;
}

configure-safe_example :
    (m' : Machine) × (before : List Access) × (configure third 3 (Layout.part 2) fresh ≡ some m')
    × (m'.log ≡ last_stores (Layout.part 2) ++ before)
    × (flushing before ≡ false)
    × (safe m'.log ≡ true)
configure-safe_example = configure-safe third (Layout.part 2) 2 fresh refl refl
