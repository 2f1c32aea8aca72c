-- ===== src/Eu.antt =====
-- src/omp/eu.c of the runtime (software/snRuntime), as it is built (without `EU_USE_GLOBAL_CLINT`):
-- core 0 hands tasks to the worker cores 1, 2, … and waits until they are through. Worker `i` here is
-- core `i + 1`. Each step is one access to the shared counters, one test or one run of the task, by
-- one core; the cores take their steps in any order. A waiting loop reads both of its counters in
-- one step: `workers_in_loop` does not change once core 0 is past `snrt_omp_bootstrap` (omp.c). The
-- task's function and arguments are written with `nthreads` and not told apart here. `eu_exit` and
-- the flag that it sets are left out. What the store of `snrt_int_cluster_clr` does to the core's
-- pending interrupt is an argument: its comment says that it clears it, and with the register map of
-- include/cachepool_peripheral.h it goes to another register and leaves it (see `Team`).
pub mod Invariant
pub mod Workers
pub mod Changes
pub mod Core0
pub mod Parked
pub mod Awake
pub mod Repeats
pub mod Laws
mod Examples
use many_rvdata.Base.{ℕ, suc, ◌+◌, ◌≡◌, ◌<◌, ◌==◌, ltb, Bool, if◌then◌else◌, at, add32, sub32}

-- What a worker does next, in `eu_event_loop` and `worker_wfi`.
pub data Phase : Type 0 where
  joining checking running finishing entering sleeping clearing leaving : Phase

pub record Worker : Type 0 where
  pub phase : Phase
  -- its bit of the cluster's interrupt register
  pub pending : ℕ
  -- how often it has run a task, and how many tasks it was meant to run
  pub ran : ℕ
  pub meant : ℕ

-- What core 0 does next, in `snrt_omp_bootstrap`, `eu_dispatch_push` and `eu_run_empty`.
pub data Master : Type 0 where
  booting idle : Master
  pushing resetting waking setting working collecting storing : (nthreads : ℕ) → Master

pub record Sys : Type 0 where
  pub workers_in_loop : ℕ
  pub workers_wfi : ℕ
  pub nthreads : ℕ
  pub fini_count : ℕ
  pub master : Master
  pub workers : ℕ → Worker

-- whether the store at word 2 behind `clint_p` clears the core's interrupt
pub data ClrStore : Type 0 where
  clears misses : ClrStore

abbrev pub after_clr : ClrStore → (pending : ℕ) → ℕ
after_clr ClrStore.clears pending = 0
after_clr ClrStore.misses pending = pending

abbrev pub becomes : Sys → ℕ → Worker → Sys
becomes s i w = record s { workers = at s.workers i w }

-- one step of worker `i`; a core in `wfi` stays there until its interrupt is pending
unfoldable pub worker_step : ClrStore → ℕ → Phase → Sys → Sys
worker_step clr i Phase.joining s =
    record (becomes s i (record (s.workers i) { phase = Phase.checking })) {
      workers_in_loop = add32 s.workers_in_loop 1;
    }
worker_step clr i Phase.checking s = becomes s i (record (s.workers i) {
  phase = if ltb (i + 1) s.nthreads then Phase.running else Phase.finishing;
})
worker_step clr i Phase.running s =
    becomes s i (record (s.workers i) { phase = Phase.finishing; ran = (s.workers i).ran + 1 })
worker_step clr i Phase.finishing s =
    record (becomes s i (record (s.workers i) { phase = Phase.entering })) {
      fini_count = add32 s.fini_count 1;
    }
worker_step clr i Phase.entering s =
    record (becomes s i (record (s.workers i) { phase = Phase.sleeping })) {
      workers_wfi = add32 s.workers_wfi 1;
    }
worker_step clr i Phase.sleeping s = becomes s i (record (s.workers i) {
  phase = if (s.workers i).pending == 0 then Phase.sleeping else Phase.clearing;
})
worker_step clr i Phase.clearing s =
    becomes s i (record (s.workers i) {
      phase = Phase.leaving;
      pending = after_clr clr (s.workers i).pending;
    })
worker_step clr i Phase.leaving s =
    record (becomes s i (record (s.workers i) { phase = Phase.checking })) {
      workers_wfi = sub32 s.workers_wfi 1;
    }

-- whether worker `i` is among the first `nthreads` cores
abbrev pub in_team : (nthreads i : ℕ) → ℕ
in_team nthreads i = if ltb (i + 1) nthreads then 1 else 0

-- one step of core 0 with `n` workers; `idle` begins a parallel region of the caller's `want` threads
unfoldable pub master_step : (n want : ℕ) → Master → Sys → Sys
master_step n want Master.booting s = record s {
  master = if s.workers_wfi == n then Master.idle else Master.booting;
}
master_step n want Master.idle s = record s { master = Master.pushing want }
master_step n want (Master.pushing k) s =
    if s.workers_wfi == s.workers_in_loop
    then record s {
      nthreads = k;
      master = if k == 0 then Master.idle else Master.resetting k;
      workers = λ i. record (s.workers i) { meant = (s.workers i).meant + in_team k i };
    }
    else s
master_step n want (Master.resetting k) s = record s {
  fini_count = 0;
  master = if ltb 1 k then Master.waking k else Master.working k;
}
master_step n want (Master.waking k) s =
    if s.workers_wfi == s.workers_in_loop then record s { master = Master.setting k } else s
master_step n want (Master.setting k) s = record s {
  master = Master.working k;
  workers = λ i. record (s.workers i) { pending = 1 };
}
master_step n want (Master.working k) s = record s {
  master = if ltb 1 k then Master.collecting k else Master.storing k;
}
master_step n want (Master.collecting k) s =
    if s.fini_count == s.workers_in_loop then record s { master = Master.storing k } else s
master_step n want (Master.storing k) s = record s { nthreads = 0; master = Master.idle }

pub data Step (clr : ClrStore) (n : ℕ) (s : Sys) : Sys → Type 0 where
  worker : (i : ℕ) → i < n → Step clr n s (worker_step clr i (s.workers i).phase s)
  master : (want : ℕ) → Step clr n s (master_step n want s.master s)

pub data Reach (clr : ClrStore) (n : ℕ) (s : Sys) : Sys → Type 0 where
  here : Reach clr n s s
  next : {t u : Sys} → Reach clr n s t → Step clr n t u → Reach clr n s u

-- after `eu_init`
abbrev pub start : Sys
start = record {
  workers_in_loop = 0;
  workers_wfi = 0;
  nthreads = 0;
  fini_count = 0;
  master = Master.booting;
  workers = λ i. record { phase = Phase.joining; pending = 0; ran = 0; meant = 0 };
}
