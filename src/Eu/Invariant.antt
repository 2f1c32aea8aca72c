-- ===== src/Eu/Invariant.antt =====
-- What every step of the workers and of core 0 keeps.
use many_rvdata.Base.{ℕ, ◌+◌, ◌<◌, ◌≡◌, ◌==◌, ltb, if◌then◌else◌, tally}
use many_rvdata.Eu.{Phase, Worker, Master, Sys, in_team}

abbrev pub asleep : Worker → ℕ
asleep w = elim w.phase [ Phase.sleeping ↦ 1 | Phase.clearing ↦ 1 | Phase.leaving ↦ 1 | _ ↦ 0 ]

abbrev pub joined : Worker → ℕ
joined w = elim w.phase [ Phase.joining ↦ 0 | _ ↦ 1 ]

-- through with the task and counted in `fini_count`
abbrev pub counted : Worker → ℕ
counted w = elim w.phase [
  | Phase.entering ↦ 1
  | Phase.sleeping ↦ if w.pending == 0 then 1 else 0
  | _ ↦ 0
]

-- What core 0's step lets a worker do: its first way to sleep; nothing but go to sleep; sleep with
-- a task of `k` threads at hand; run it.
pub data Kind : Type 0 where
  first resting : Kind
  parked active : (k : ℕ) → Kind

abbrev pub kind : Master → Kind
kind Master.booting = Kind.first
kind Master.idle = Kind.resting
kind (Master.pushing k) = Kind.resting
kind (Master.resetting k) = Kind.parked k
kind (Master.waking k) = Kind.parked k
kind (Master.setting k) = Kind.parked k
kind (Master.working k) = if ltb 1 k then Kind.active k else Kind.resting
kind (Master.collecting k) = Kind.active k
kind (Master.storing k) = Kind.resting

-- no interrupt, and every task done that is meant
abbrev pub Done : (pending ran meant : ℕ) → Type 0
Done pending ran meant = (pending ≡ 0) × (ran ≡ meant)

-- A worker `i` in its phase.
abbrev pub FitsAt : Kind → (i pending ran meant : ℕ) → Phase → Type 0
FitsAt Kind.first i pending ran meant Phase.running = ⊥
FitsAt Kind.first i pending ran meant Phase.clearing = ⊥
FitsAt Kind.first i pending ran meant Phase.leaving = ⊥
FitsAt Kind.first i pending ran meant _ = Done pending ran meant
FitsAt Kind.resting i pending ran meant Phase.entering = Done pending ran meant
FitsAt Kind.resting i pending ran meant Phase.sleeping = Done pending ran meant
FitsAt Kind.resting i pending ran meant _ = ⊥
FitsAt (Kind.parked k) i pending ran meant Phase.sleeping =
    (pending ≡ 0) × (ran + in_team k i ≡ meant)
FitsAt (Kind.parked k) i pending ran meant _ = ⊥
FitsAt (Kind.active k) i pending ran meant Phase.joining = ⊥
FitsAt (Kind.active k) i pending ran meant Phase.checking =
    (pending ≡ 0) × (ran + in_team k i ≡ meant)
FitsAt (Kind.active k) i pending ran meant Phase.running =
    (pending ≡ 0) × (ran + 1 ≡ meant) × (i + 1 < k)
FitsAt (Kind.active k) i pending ran meant Phase.finishing = Done pending ran meant
FitsAt (Kind.active k) i pending ran meant Phase.entering = Done pending ran meant
FitsAt (Kind.active k) i pending ran meant Phase.sleeping =
    if pending == 0 then (ran ≡ meant) else (ran + in_team k i ≡ meant)
FitsAt (Kind.active k) i pending ran meant Phase.clearing = ran + in_team k i ≡ meant
FitsAt (Kind.active k) i pending ran meant Phase.leaving =
    (pending ≡ 0) × (ran + in_team k i ≡ meant)

abbrev pub Fits : Kind → (i : ℕ) → Worker → Type 0
Fits q i w = FitsAt q i w.pending w.ran w.meant w.phase

-- The shared fields, by what core 0 does.
abbrev pub Fields : Master → (nthreads fini done : ℕ) → Type 0
Fields Master.booting nthreads fini done = nthreads ≡ 0
Fields Master.idle nthreads fini done = nthreads ≡ 0
Fields (Master.pushing k) nthreads fini done = nthreads ≡ 0
Fields (Master.resetting k) nthreads fini done = nthreads ≡ k
Fields (Master.waking k) nthreads fini done = (nthreads ≡ k) × (fini ≡ 0) × (1 < k)
Fields (Master.setting k) nthreads fini done = (nthreads ≡ k) × (fini ≡ 0) × (1 < k)
Fields (Master.working k) nthreads fini done = (nthreads ≡ k) × (1 < k → fini ≡ done)
Fields (Master.collecting k) nthreads fini done = (nthreads ≡ k) × (fini ≡ done)
Fields (Master.storing k) nthreads fini done = Unit {0}

pub record Inv (n : ℕ) (s : Sys) : Type 0 where
  pub in_loop : s.workers_in_loop ≡ tally joined n s.workers
  pub in_wfi : s.workers_wfi ≡ tally asleep n s.workers
  pub fields : Fields s.master s.nthreads s.fini_count (tally counted n s.workers)
  pub fits : (i : ℕ) → i < n → Fits (kind s.master) i (s.workers i)
