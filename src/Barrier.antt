-- ===== src/Barrier.antt =====
-- src/barrier.c of the runtime (software/snRuntime): `snrt_barrier`, and `snrt_cluster_sw_barrier`
-- and `snrt_global_barrier`, which run the same code with their own counters and a count of cores in
-- place of `n`. The harts take their steps, each one access to a counter, in any order. Counters are
-- 32-bit words and wrap.
pub mod Invariant
pub mod Laws
mod Examples
use many_rvdata.Base.{ℕ, suc, ◌+◌, ◌%◌, ◌^◌, ◌≡◌, ◌<◌, ◌==◌, Bool, false, if◌then◌else◌, at, add32}

-- What a hart does next.
pub data Phase : Type 0 where
  -- not in the barrier
  outside : Phase
  -- `prev_it` is loaded
  entering : (prev : ℕ) → Phase
  -- the last to enter: `barr->barrier = 0` comes next, and then the new iteration
  resetting bumping : Phase
  -- the others: `while (prev_it == barr->barrier_iteration)`
  waiting : (prev : ℕ) → Phase

pub record Hart : Type 0 where
  pub phase : Phase
  -- how many barriers the hart has left
  pub done : ℕ

pub record Sys : Type 0 where
  pub barrier : ℕ
  pub iteration : ℕ
  pub harts : ℕ → Hart

abbrev pub goes : Sys → ℕ → Phase → ℕ → Hart
goes s c p = at s.harts c (record (s.harts c) { phase = p })

abbrev pub leaves : Sys → ℕ → ℕ → Hart
leaves s c = at s.harts c (record { phase = Phase.outside; done = (s.harts c).done + 1 })

-- hart `c` loads the iteration
unfoldable pub load_iteration : ℕ → Sys → Sys
load_iteration c s = record s { harts = goes s c (Phase.entering s.iteration) }

-- the fetch-and-add, and the test of its result
unfoldable pub arrive : (n c prev : ℕ) → Sys → Sys
arrive n c prev s =
    let barrier' = add32 s.barrier 1 in
    record s {
      barrier = barrier';
      harts = goes s c (if barrier' == n then Phase.resetting else Phase.waiting prev);
    }

unfoldable pub reset : ℕ → Sys → Sys
reset c s = record s { barrier = 0; harts = goes s c Phase.bumping }

unfoldable pub bump : ℕ → Sys → Sys
bump c s = record s { iteration = add32 s.iteration 1; harts = leaves s c }

-- one round of the waiting loop
unfoldable pub wait : (c prev : ℕ) → Sys → Sys
wait c prev s = record s {
  harts = if prev == s.iteration then goes s c (Phase.waiting prev) else leaves s c;
}

-- `snrt_barrier(barr, n)` on one of the harts `0 … n - 1`
pub data Step (n : ℕ) (s : Sys) : Sys → Type 0 where
  enter : (c : ℕ) → c < n → (s.harts c).phase ≡ Phase.outside → Step n s (load_iteration c s)
  add :
      (c prev : ℕ) → c < n → (s.harts c).phase ≡ Phase.entering prev → Step n s (arrive n c prev s)
  clear : (c : ℕ) → c < n → (s.harts c).phase ≡ Phase.resetting → Step n s (reset c s)
  release : (c : ℕ) → c < n → (s.harts c).phase ≡ Phase.bumping → Step n s (bump c s)
  poll : (c prev : ℕ) → c < n → (s.harts c).phase ≡ Phase.waiting prev → Step n s (wait c prev s)

pub data Reach (n : ℕ) (s : Sys) : Sys → Type 0 where
  here : Reach n s s
  next : {t u : Sys} → Reach n s t → Step n t u → Reach n s u

-- both counters 0, and all harts outside
abbrev pub start : Sys
start = record {
  barrier = 0;
  iteration = 0;
  harts = λ c. record { phase = Phase.outside; done = 0 };
}
