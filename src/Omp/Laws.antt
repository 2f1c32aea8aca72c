-- ===== src/Omp/Laws.antt =====
-- The region that a program asks for is the one that the cores run, and where its arguments lie.
use many_rvdata.Base.{
  ◌++◌, false, ℕ, ◌+◌, ◌*◌, ◌^◌, ◌≤◌, ◌<◌, ◌≡◌, refl, arith, ltb, List, [], ◌∷◌, length, add32,
}
use many_rvdata.Alloc.{Allocator, align_up, snrt_l1alloc}
use many_rvdata.Kmp.Fork.{fork_args}
use many_rvdata.Kmp.Fork.Laws.{fork_args-last}
use many_rvdata.Omp.{Omp, omp_init}

-- a request that fits is served from `next` on
served :
    (size rounded : ℕ) (a : Allocator)
    → align_up size ≡ rounded
    → a.next + rounded ≤ a.base + a.size
    → a.base + a.size < 2 ^ 32
    → snrt_l1alloc size a ≡ (a.next, record a { next = a.next + rounded })
unfolding snrt_l1alloc
served size rounded a r room small =
    let sum : add32 a.next rounded ≡ a.next + rounded = omega arith in
    let fits : ltb (add32 a.base a.size) (a.next + rounded) ≡ false = ground arith in
    rw r (rw sum (rw fits refl))

module _ (a : Allocator) (small : a.base + a.size < 2 ^ 32)
    (room : a.next + 176 ≤ a.base + a.size) where
  -- the three blocks, one behind the other
  init_lem :
      (cores : ℕ) (old : Omp)
      → ((omp_init cores old a).0.kmpc_args ≡ a.next)
        × ((omp_init cores old a).0.omp_p ≡ a.next + 48)
        × ((omp_init cores old a).1.kmpc_barrier ≡ a.next + 160)
        × ((omp_init cores old a).2.next ≡ a.next + 176)
  unfolding omp_init align_up
  init_lem cores old =
      let a1 = record a { next = a.next + 48 } in
      let a2 = record a1 { next = a.next + 48 + 112 } in
      let first : snrt_l1alloc 48 a ≡ (a.next, a1) = served 48 48 a refl (omega arith) small in
      let second : snrt_l1alloc 108 a1 ≡ (a.next + 48, a2) =
        served 108 112 a1 refl (omega arith) small in
      let third : snrt_l1alloc 8 a2
          ≡ (a.next + 48 + 112, record a2 { next = a.next + 48 + 112 + 8 }) =
        served 8 8 a2 refl (omega arith) small in
      let fourth : snrt_l1alloc 4 (record a { next = a.next + 48 + 112 + 8 })
          ≡ (a.next + 48 + 112 + 8, record a { next = a.next + 48 + 112 + 8 + 8 }) =
        served 4 8 (record a { next = a.next + 48 + 112 + 8 }) refl (omega arith) small in
      rw (first, second, third, fourth) (refl, refl, omega arith, omega arith)

  -- The L1 memory has room for what core 0 allocates in `omp_init`. Then a fork with 12 arguments
  -- stores the last one in the word at the start of `omp_t`, where `nbThreads` is.
  pub fork-overwrites :
      (cores : ℕ) (old : Omp) (microtask : ℕ) (xs : List ℕ) (x : ℕ) (words : ℕ → ℕ)
      → length xs ≡ 11
      → ((omp_init cores old a).0.kmpc_args + 4 * (1 + length xs) ≡ (omp_init cores old a).0.omp_p)
        × (fork_args microtask (xs ++ x ∷ []) words (1 + length xs) ≡ x)
  fork-overwrites cores old microtask xs x words twelve =
      let (args, omp_p, barrier, next) = init_lem cores old in
      (omega (arith, args, omp_p), fork_args-last microtask xs x words)
