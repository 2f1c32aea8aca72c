-- ===== src/Alloc/Laws.antt =====
-- The blocks that the L1 allocator gives out.
use many_rvdata.Base.{
  ℕ, ◌+◌, ◌-◌, ◌%◌, ◌^◌, ◌≤◌, ◌<◌, ◌≡◌, refl, arith, true, false, ltb, if◌then◌else◌, List, [], ◌∷◌,
  add32, dec_lt,
}
use many_rvdata.Alloc.{align_up, Allocator, snrt_l1alloc, snrt_l1alloc_reset, snrt_alloc_init}

-- The memory of the allocator does not wrap, `next` is in it and aligned, and 0 is not in it.
pub record IsAllocator (a : Allocator) : Type 0 where
  pub from : a.base ≤ a.next
  pub to : a.next ≤ a.base + a.size
  pub fits : a.base + a.size < 2 ^ 32
  pub aligned : a.next % 8 ≡ 0
  pub based : a.base % 8 ≡ 0
  pub nonzero : 0 < a.base

-- A run of calls, in order: for each one that is served, its address and size.
pub l1allocs : List ℕ → Allocator → List (ℕ × ℕ) × Allocator
l1allocs [] a = ([], a)
l1allocs (size ∷ sizes) a =
    let (p, a') = snrt_l1alloc size a in
    let rest = l1allocs sizes a' in if ltb 0 p then ((p, size) ∷ rest.0, rest.1) else rest

-- The blocks are aligned, lie between two addresses, and each ends before the next begins.
abbrev pub Disjoint : (low high : ℕ) → List (ℕ × ℕ) → Type 0
Disjoint low high [] = low ≤ high
Disjoint low high ((p, size) ∷ rest) = (low ≤ p) × (p % 8 ≡ 0) × Disjoint (p + size) high rest

align_up_lem :
    (x : ℕ) → x + 7 < 2 ^ 32 → (x ≤ align_up x) × (align_up x ≤ x + 7) × (align_up x % 8 ≡ 0)
unfolding align_up
align_up_lem x small = omega arith

module _ (size : ℕ) (a : Allocator) (is : IsAllocator a)
    (small : a.base + a.size + size + 7 < 2 ^ 32) where
  no_wrap : add32 a.next (align_up size) ≡ a.next + align_up size
  no_wrap = omega (arith, is.to, align_up_lem size)

  top_lem : add32 a.base a.size ≡ a.base + a.size
  top_lem = omega (arith, is.fits)

  l1alloc_full : a.base + a.size < a.next + align_up size → snrt_l1alloc size a ≡ (0, a)
  unfolding snrt_l1alloc
  l1alloc_full over =
      let test : ltb (add32 a.base a.size) (add32 a.next (align_up size)) ≡ true =
        ground (arith, no_wrap, top_lem) in
      rw test refl

  l1alloc_served :
      a.next + align_up size ≤ a.base + a.size
      → snrt_l1alloc size a ≡ (a.next, record a { next = a.next + align_up size })
  unfolding snrt_l1alloc
  l1alloc_served fit =
      let test : ltb (add32 a.base a.size) (add32 a.next (align_up size)) ≡ false =
        ground (arith, no_wrap, top_lem) in
      rw (test, no_wrap) refl

  served-IsAllocator :
      a.next + align_up size ≤ a.base + a.size
      → IsAllocator (record a { next = a.next + align_up size })
  served-IsAllocator fit = record {
    from = omega (arith, is.from);
    to = fit;
    fits = is.fits;
    aligned = omega (arith, is.aligned, align_up_lem size);
    based = is.based;
    nonzero = is.nonzero;
  }

-- With no sum that wraps, `snrt_l1alloc` returns 0 and changes nothing where the size, rounded up to
-- a multiple of 8, is more than what is left; else it returns `next` and moves it by that much.
pub l1alloc_branches :
    (size : ℕ) (a : Allocator)
    → IsAllocator a
    → a.base + a.size + size + 7 < 2 ^ 32
    → (rounded : ℕ) × (size ≤ rounded)
      × (rounded ≤ size + 7)
      × (rounded % 8 ≡ 0)
      × (a.base + a.size < a.next + rounded → snrt_l1alloc size a ≡ (0, a))
      × (a.next + rounded ≤ a.base + a.size
          → (snrt_l1alloc size a ≡ (a.next, record a { next = a.next + rounded }))
            × IsAllocator (record a { next = a.next + rounded }))
l1alloc_branches size a is small =
    let (up, near, even) = align_up_lem size (omega arith) in
    (
      align_up size,
      up,
      near,
      even,
      l1alloc_full size a is small,
      λ fit. (l1alloc_served size a is small fit, served-IsAllocator size a is small fit),
    )

weaken :
    (low low' high : ℕ) (blocks : List (ℕ × ℕ))
    → low ≤ low'
    → Disjoint low' high blocks
    → Disjoint low high blocks
weaken low low' high [] le d = omega arith
weaken low low' high ((p, size) ∷ rest) le (from, even, d) = (omega arith, even, d)

-- every size is such that no sum wraps
abbrev pub Small : ℕ → List ℕ → Type 0
Small limit [] = Unit {0}
Small limit (size ∷ sizes) = (limit + size + 7 < 2 ^ 32) × Small limit sizes

-- A run of calls of `snrt_l1alloc` with sizes that do not wrap gives out blocks that are aligned to
-- 8, in order, disjoint, and inside the allocator's memory, and leaves a well-formed allocator.
pub l1allocs-Disjoint :
    (sizes : List ℕ) (a : Allocator)
    → IsAllocator a
    → Small (a.base + a.size) sizes
    → let (blocks, a') = l1allocs sizes a in
      Disjoint a.next (a.base + a.size) blocks × IsAllocator a'
unfolding l1allocs
l1allocs-Disjoint [] a is small = (is.to, is)
l1allocs-Disjoint (size ∷ sizes) a is (fits, small) =
    elim (dec_lt (a.base + a.size) (a.next + align_up size)) [
      | yes over ↦ rw (l1alloc_full size a is fits over) (l1allocs-Disjoint sizes a is small)
      | no room ↦
          let fit : a.next + align_up size ≤ a.base + a.size = omega arith in
          let given : ltb 0 a.next ≡ true = ground (arith, is.from, is.nonzero) in
          let (rest, is') =
            l1allocs-Disjoint sizes (record a { next = a.next + align_up size })
              (served-IsAllocator size a is fits fit) small in
          rw (l1alloc_served size a is fits fit, given)
            (
              (
                omega arith,
                is.aligned,
                weaken (a.next + size) (a.next + align_up size) (a.base + a.size)
                    (l1allocs sizes (record a { next = a.next + align_up size })).0
                    (omega (arith, align_up_lem size)) rest,
              ),
              is',
            )
    ]

-- After `snrt_alloc_init` with an aligned memory range the L1 allocator is well formed, with the
-- whole range to give out, and `snrt_l1alloc_reset` of a well-formed allocator gives it back whole.
pub alloc_init-IsAllocator :
    (mem_start mem_end edram l3off : ℕ)
    → mem_start % 8 ≡ 0
    → 0 < mem_start
    → mem_start ≤ mem_end
    → mem_end < 2 ^ 32 - 7
    → let l1 = (snrt_alloc_init mem_start mem_end edram l3off).0 in
      IsAllocator l1
      × (l1.next ≡ mem_start)
      × (l1.base + l1.size ≡ mem_end)
      × ((a : Allocator)
          → IsAllocator a
          → IsAllocator (snrt_l1alloc_reset a) × ((snrt_l1alloc_reset a).next ≡ a.base))
unfolding snrt_alloc_init snrt_l1alloc_reset
alloc_init-IsAllocator mem_start mem_end edram l3off even pos order top =
    let same : align_up mem_start ≡ mem_start = omega (arith, align_up_lem mem_start) in
    (
      record {
        from = omega arith;
        to = omega arith;
        fits = omega (arith, same);
        aligned = omega (arith, same);
        based = omega (arith, same);
        nonzero = omega (arith, same);
      },
      same,
      omega (arith, same),
      λ a is. (
        record {
          from = omega arith;
          to = omega arith;
          fits = is.fits;
          aligned = is.based;
          based = is.based;
          nonzero = is.nonzero;
        },
        refl,
      ),
    )
