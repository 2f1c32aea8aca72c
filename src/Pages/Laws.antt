-- ===== src/Pages/Laws.antt =====
-- The pool keeps account of every page: each page taken from it so far is in the free list or in
-- use, once.
use many_rvdata.Base.{
  ℕ, zero, suc, ◌+◌, ◌-◌, ◌*◌, ◌/◌, ◌%◌, ◌≤◌, ◌<◌, ◌≡◌, ◌≢◌, ◌⊎◌, refl, ap, sym, subst, Bool, true,
  false, ◌&&◌, List, [], ◌∷◌, ◌++◌, arith, ltb, leb, ◌==◌, if◌then◌else◌, length, length-append,
  dec_lt, Bool-cases, inl, inr,
}
use many_rvdata.LinkedList.{Ptr, null, Heap, set_prev}
use many_rvdata.LinkedList.Seg.{set_prev-prev}
use many_rvdata.Pages.{page_size, buffer_size, MmContext, mm_init, mm_alloc, mm_free, mm_memset}

abbrev pub count : Ptr → List Ptr → ℕ
count a [] = 0
count a (x ∷ xs) = (if a == x then 1 else 0) + count a xs

-- whether `a` is one of the first `k` pages
abbrev pub is_page : (buffer k a : ℕ) → Bool
is_page buffer k a =
    leb buffer a && (ltb a (buffer + page_size * k) && ((a - buffer) % page_size == 0))

-- The free pages `fs`, linked by their first word.
abbrev pub FreeChain : Heap → Ptr → List Ptr → Type 0
FreeChain h p [] = p ≡ null
FreeChain h p (x ∷ xs) = (p ≡ x) × (x ≢ null) × FreeChain h (h x).prev xs

-- `k` pages were taken from the buffer; `fs` are free again, `live` are in use.
pub record IsPool (buffer : Ptr) (c : MmContext) (h : Heap) (k : ℕ) (fs live : List Ptr)
    : Type 0 where
  pub aligned : buffer ≢ null
  pub offset : c.alloc_offset ≡ page_size * k
  pub few : k ≤ 1024
  pub chain : FreeChain h c.free_list fs
  pub total : length fs + length live ≡ k
  pub once : (a : Ptr) → count a fs + count a live ≡ (if is_page buffer k a then 1 else 0)

pub mm_init-IsPool :
    (buffer : Ptr) (h : Heap) → buffer ≢ null → IsPool buffer (mm_init buffer) h 0 [] []
unfolding mm_init
mm_init-IsPool buffer h ne = record {
  aligned = ne;
  offset = refl;
  few = omega arith;
  chain = refl;
  total = refl;
  once = λ a. ground arith;
}

chain-frame :
    (h g : Heap) (p : Ptr) (xs : List Ptr)
    → FreeChain h p xs
    → ((a : Ptr) → 0 < count a xs → (g a).prev ≡ (h a).prev)
    → FreeChain g p xs
chain-frame h g p [] c same = c
chain-frame h g p (x ∷ xs) (e, ne, rest) same = (
  e,
  ne,
  rw (same x (ground arith)) (chain-frame h g (h x).prev xs rest (λ a m. same a (ground arith))),
)

-- What `mm_alloc` may do: with all 1024 pages in use it returns NULL and changes nothing; else it
-- gives out a page of the buffer that was in use by nobody.
abbrev pub Allocated :
    (buffer : Ptr) (c : MmContext) (h : Heap) (live : List Ptr) → Ptr × MmContext → Type 0
Allocated buffer c h live (page, c') =
    ((page ≡ null) × (c' ≡ c) × (length live ≡ 1024))
    ⊎ ((page ≢ null)
        × (length live < 1024)
        × (count page live ≡ 0)
        × (is_page buffer 1024 page ≡ true)
        × ((k' : ℕ) × (fs' : List Ptr) × IsPool buffer c' h k' fs' (page ∷ live)))

module _ (buffer : Ptr) (c : MmContext) (h : Heap) (k : ℕ) (live : List Ptr) where
  -- With part of the buffer left, the next page of it is given out.
  pub mm_alloc-fresh :
      (fs : List Ptr)
      → IsPool buffer c h k fs live
      → k < 1024
      → let (page, c') = mm_alloc buffer c h in
        (page ≢ null)
        × (count page live ≡ 0)
        × (is_page buffer 1024 page ≡ true)
        × IsPool buffer c' h (suc k) fs (page ∷ live)
  unfolding mm_alloc
  mm_alloc-fresh fs pool more =
      let room : leb (c.alloc_offset + page_size) buffer_size ≡ true =
        ground (arith, pool.offset) in
      let page : Ptr = buffer + 4 * (c.alloc_offset / 4) in
      let at : page ≡ buffer + 24 * k = omega (arith, pool.offset) in
      rw room (
        omega (arith, pool.aligned),
        ground (arith, pool.once page),
        ground arith,
        record {
          aligned = pool.aligned;
          offset = omega (arith, pool.offset);
          few = more;
          chain = pool.chain;
          total = omega (arith, pool.total);
          once = λ a. ground (arith, pool.once a);
        },
      )

  alloc_fresh :
      (fs : List Ptr)
      → IsPool buffer c h k fs live
      → k < 1024
      → Allocated buffer c h live (mm_alloc buffer c h)
  alloc_fresh fs pool more =
      let (ne, unused, page, pool') = mm_alloc-fresh fs pool more in
      inr (ne, omega (arith, pool.total), unused, page, (suc k, fs, pool'))

  alloc_recycled :
      (fs : List Ptr)
      → IsPool buffer c h k fs live
      → k ≡ 1024
      → Allocated buffer c h live (mm_alloc buffer c h)
  unfolding mm_alloc
  alloc_recycled [] pool all =
      let full : leb (c.alloc_offset + page_size) buffer_size ≡ false =
        ground (arith, pool.offset) in
      let none_free : (c.free_list == null) ≡ true = ground (arith, pool.chain) in
      rw (full, none_free) (inl (refl, refl, omega (arith, pool.total)))
  alloc_recycled (x ∷ xs) pool all =
      let full : leb (c.alloc_offset + page_size) buffer_size ≡ false =
        ground (arith, pool.offset) in
      let (e, ne, rest) = pool.chain in
      let some_free : (c.free_list == null) ≡ false = ground arith in
      rw (full, some_free)
        (inr (
          ground arith,
          omega (arith, pool.total),
          ground (arith, pool.once x),
          ground (arith, pool.once x),
          (
            k,
            xs,
            record {
              aligned = pool.aligned;
              offset = pool.offset;
              few = pool.few;
              chain = subst (λ z. FreeChain h (h z).prev xs) (sym e) rest;
              total = omega (arith, pool.total);
              once = λ a. ground (arith, pool.once a);
            },
          ),
        ))

-- `mm_alloc` returns NULL exactly when all 1024 pages are in use, and changes nothing then; else
-- the page it returns was in use by nobody, is one of the pool's 1024 pages, and is accounted for.
pub mm_alloc-Allocated :
    (buffer : Ptr) (c : MmContext) (h : Heap) (k : ℕ) (fs live : List Ptr)
    → IsPool buffer c h k fs live
    → Allocated buffer c h live (mm_alloc buffer c h)
mm_alloc-Allocated buffer c h k fs live pool = elim (dec_lt k 1024) [
  | yes more ↦ alloc_fresh buffer c h k live fs pool more
  | no all ↦ alloc_recycled buffer c h k live fs pool (omega (arith, pool.few))
]

pub count-append : (a : Ptr) (xs ys : List Ptr) → count a (xs ++ ys) ≡ count a xs + count a ys
count-append a [] ys = omega arith
count-append a (x ∷ xs) ys = omega (arith, count-append a xs ys)

prev_other :
    (h : Heap) (p q a : Ptr) (xs : List Ptr)
    → count p xs ≡ 0
    → 0 < count a xs
    → (set_prev h p q a).prev ≡ (h a).prev
unfolding set_prev
prev_other h p q a xs out m = elim (Bool-cases (a == p)) [
  | inl e ↦ let same : a ≡ p = ground arith in absurd (omega (arith, ap (λ z. count z xs) same))
  | inr e ↦ rw e
]

-- The free list after `p` is put in front.
freed_chain :
    (h : Heap) (p q : Ptr) (xs : List Ptr)
    → p ≢ null
    → count p xs ≡ 0
    → FreeChain h q xs
    → FreeChain (set_prev h p q) p (p ∷ xs)
freed_chain h p q xs ne out c = (
  refl,
  ne,
  rw (set_prev-prev h p q)
      (chain-frame h (set_prev h p q) q xs c (λ a m. prev_other h p q a xs out m)),
)

set_prev-other : (h : Heap) (p q a : Ptr) → a ≢ p → set_prev h p q a ≡ h a
unfolding set_prev
set_prev-other h p q a ne = ground arith

-- `mm_free` of a page in use puts it in front of the free list, and changes no other page.
pub mm_free-IsPool :
    (buffer p : Ptr) (c : MmContext) (h : Heap) (k : ℕ) (fs xs ys : List Ptr)
    → IsPool buffer c h k fs (xs ++ p ∷ ys)
    → let (c', h') = mm_free p c h in
      IsPool buffer c' h' k (p ∷ fs) (xs ++ ys) × ((a : Ptr) → a ≢ p → h' a ≡ h a)
unfolding mm_free
mm_free-IsPool buffer p c h k fs xs ys pool =
    let split = count-append p xs (p ∷ ys) in
    let ne : p ≢ null = λ z. ground (arith, pool.aligned, pool.once p, split) in
    let nonnull : (p == null) ≡ false = ground arith in
    rw nonnull (
      record {
        aligned = pool.aligned;
        offset = pool.offset;
        few = pool.few;
        chain = freed_chain h p c.free_list fs ne (ground (arith, pool.once p, split)) pool.chain;
        total = omega (arith, pool.total, length-append xs ys, length-append xs (p ∷ ys));
        once = λ a. ground (arith, pool.once a, count-append a xs ys, count-append a xs (p ∷ ys));
      },
      λ a other. set_prev-other h p c.free_list a other,
    )

-- `mm_memset` fills the `n` bytes from `dest` on with the low byte of the value, and no others.
pub mm_memset_lem :
    (dest value n : ℕ) (m : ℕ → ℕ) (a : ℕ)
    → mm_memset dest value n m a ≡ (if leb dest a && ltb a (dest + n) then value % 256 else m a)
unfolding mm_memset
mm_memset_lem dest value zero m a = ground arith
mm_memset_lem dest value (suc n) m a =
    ground (
      arith,
      mm_memset_lem (dest + 1) value n (λ (b : ℕ). if b == dest then value % 256 else m b) a,
    )
