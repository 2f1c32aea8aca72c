-- ===== src/Omp.antt =====
-- src/omp/omp.c, include/omp.h and `__kmpc_fork_call` of src/omp/kmp.c of the runtime
-- (software/snRuntime), without OMPSTATIC_NUMTHREADS: what core 0 sets up, and what the cores run of a
-- parallel region. Other cores only wait for core 0's pointer in `omp_init`.
pub mod Laws
mod Examples
use many_rvdata.Base.{
  ℕ, suc, ◌+◌, ◌*◌, ◌%◌, ◌^◌, ltb, ◌==◌, if◌then◌else◌, Option, none, some, List, [], length,
}
use many_rvdata.Alloc.{Allocator, snrt_l1alloc}
use many_rvdata.Kmp.Dynamic.{Team}
use many_rvdata.Kmp.Fork.{kmp_fork_max_nargs, Call, push_num_threads, fork_args, microtask_wrapper}

-- `omp_t`, with the fields of `omp_team_t` that are not in `Team`
pub record Omp : Type 0 where
  pub nb_threads : ℕ
  pub loop_epoch : ℕ
  pub core_epoch : ℕ → ℕ
  pub team : Team
  pub num_threads : ℕ
  pub max_threads : ℕ
  pub kmpc_barrier : ℕ

-- `sizeof(omp_t)` and `sizeof(struct snrt_barrier)`, with 32-bit pointers
abbrev pub omp_size : ℕ
omp_size = 108

abbrev pub barrier_size : ℕ
barrier_size = 8

-- `sizeof(omp_prof_t)`: OPENMP_PROFILE is set
abbrev pub omp_prof_size : ℕ
omp_prof_size = 4

-- the addresses of `kmpc_args` and of `omp_p`
pub record Pointers : Type 0 where
  pub kmpc_args : ℕ
  pub omp_p : ℕ

-- What core 0 does in `omp_init`; `old` is what the memory held. `nbThreads` is a `char`. The first
-- 16 entries of `core_epoch` are all that there are.
unfoldable pub omp_init : (cores : ℕ) → Omp → Allocator → Pointers × Omp × Allocator
omp_init cores old a =
    let (args, a1) = snrt_l1alloc (4 * kmp_fork_max_nargs) a in
    let (omp_p, a2) = snrt_l1alloc omp_size a1 in
    let (barrier, a3) = snrt_l1alloc barrier_size a2 in
    let (omp_prof, a4) = snrt_l1alloc omp_prof_size a3 in
    (
      record { kmpc_args = args; omp_p = omp_p },
      record {
        nb_threads = cores % 2 ^ 8;
        loop_epoch = 0;
        core_epoch = λ i. 0;
        team = record old.team { loop_is_setup = 0 };
        num_threads = cores;
        max_threads = cores;
        kmpc_barrier = barrier;
      },
      a4,
    )

-- `__kmpc_push_num_threads`
unfoldable pub push : (num_threads : ℕ) → Omp → Omp
push num_threads omp = record omp { num_threads = push_num_threads num_threads omp.max_threads }

-- what the event unit has for the cores: `eu_dispatch_push`
pub record Task : Type 0 where
  pub words : ℕ → ℕ
  pub argc : ℕ
  pub nthreads : ℕ

-- `parallelRegion`, to `partialParallelRegion`, to `parallelRegionExec`
unfoldable pub parallel_region :
    (argc : ℕ) → (fn_data : ℕ → ℕ) → (num_threads : ℕ) → Omp → Omp × Task
parallel_region argc fn_data num_threads omp = (
  record omp { nb_threads = num_threads % 2 ^ 8 },
  record { words = fn_data; argc = argc; nthreads = num_threads },
)

-- `__kmpc_fork_call` by core `core` with the words at `kmpc_args`, up to 11 arguments; `none` where it
-- exits
unfoldable pub fork_call :
    (core microtask : ℕ) → (args : List ℕ) → (words : ℕ → ℕ) → Omp → Option (Omp × Task)
unfolding parallel_region
fork_call core microtask args words omp =
    if core == 0
    then some (parallel_region (length args) (fork_args microtask args words) omp.num_threads omp)
    else none

-- The task as compute core `core` runs it, a worker in its loop or core 0 in `eu_run_empty`: none of
-- it, or `__microtask_wrapper`.
unfoldable pub runs : (core : ℕ) → Task → Option (List Call)
runs core task =
    if ltb core task.nthreads then microtask_wrapper task.words task.argc core else some []
