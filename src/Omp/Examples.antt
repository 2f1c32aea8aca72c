-- ===== src/Omp/Examples.antt =====
-- Four cores, a region with three threads and two arguments, and a fork with twelve arguments.
use many_rvdata.Base.{ℕ, ◌+◌, ◌*◌, ◌≡◌, refl, arith, List, [], ◌∷◌, ◌++◌, length}
use many_rvdata.Alloc.{Allocator}
use many_rvdata.Kmp.Fork.{fork_args}
use many_rvdata.Omp.{Omp, omp_init}
use many_rvdata.Omp.Laws.{fork-overwrites}

abbrev l1 : Allocator
l1 = record { base = 4096; size = 65536; next = 4608 }

abbrev fresh : Omp
fresh = record {
  nb_threads = 0;
  loop_epoch = 0;
  core_epoch = λ i. 0;
  team = record { loop_start = 0; loop_end = 0; loop_incr = 0; loop_chunk = 0; loop_is_setup = 0 };
  num_threads = 0;
  max_threads = 0;
  kmpc_barrier = 0;
}

abbrev two_args : List ℕ
two_args = 512 ∷ 516 ∷ []

abbrev eleven_args : List ℕ
eleven_args = 1 ∷ 2 ∷ 3 ∷ 4 ∷ 5 ∷ 6 ∷ 7 ∷ 8 ∷ 9 ∷ 10 ∷ 11 ∷ []

fork-overwrites_example :
    ((omp_init 4 fresh l1).0.kmpc_args + 4 * (1 + length eleven_args)
      ≡ (omp_init 4 fresh l1).0.omp_p)
    × (fork_args 2048 (eleven_args ++ 12 ∷ []) (λ i. 0) (1 + length eleven_args) ≡ 12)
fork-overwrites_example =
    fork-overwrites l1 (omega arith) (omega arith) 4 fresh 2048 eleven_args 12 (λ i. 0) refl
