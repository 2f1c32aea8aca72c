-- ===== src/Eu/Repeats.antt =====
-- src/omp/eu.c where the store of `snrt_int_cluster_clr` misses the interrupt: what a worker of a team
-- does while the other cores wait.
use many_rvdata.Base.{
  ℕ, zero, suc, ◌+◌, ◌<◌, ◌≡◌, ◌≢◌, ◌∙◌, refl, arith, ◌==◌, ltb, true, false, subst,
}
use many_rvdata.Eu.{ClrStore, Phase, Sys, worker_step, Step, Reach}

-- what follows a phase of a worker of a team, whose interrupt is pending
abbrev after : Phase → Phase
after Phase.joining = Phase.checking
after Phase.checking = Phase.running
after Phase.running = Phase.finishing
after Phase.finishing = Phase.entering
after Phase.entering = Phase.sleeping
after Phase.sleeping = Phase.clearing
after Phase.clearing = Phase.leaving
after Phase.leaving = Phase.checking

abbrev task_runs : Phase → ℕ
task_runs Phase.running = 1
task_runs _ = 0

-- what a step of worker `i` does, where it is in the team and its interrupt is pending
abbrev Effect : (i : ℕ) (p : Phase) (t u : Sys) → Type 0
Effect i p t u =
    ((u.workers i).phase ≡ after p)
    × ((u.workers i).pending ≡ (t.workers i).pending)
    × ((u.workers i).ran ≡ (t.workers i).ran + task_runs p)
    × ((u.workers i).meant ≡ (t.workers i).meant)
    × (u.master ≡ t.master)
    × (u.nthreads ≡ t.nthreads)

worker_step-Effect :
    (i : ℕ) (p : Phase) (t : Sys)
    → i + 1 < t.nthreads
    → (t.workers i).pending ≢ 0
    → Effect i p t (worker_step ClrStore.misses i p t)
unfolding worker_step
worker_step-Effect i p t some_team woken =
    let own : (i == i) ≡ true = ground arith in
    let member : ltb (i + 1) t.nthreads ≡ true = ground arith in
    let awake : ((t.workers i).pending == 0) ≡ false = ground arith in by_phase p own member awake
  where
    by_phase :
        (p : Phase)
        → (i == i) ≡ true
        → ltb (i + 1) t.nthreads ≡ true
        → ((t.workers i).pending == 0) ≡ false
        → Effect i p t (worker_step ClrStore.misses i p t)
    by_phase Phase.joining own member awake = rw own (refl, refl, omega arith, refl, refl, refl)
    by_phase Phase.checking own member awake =
        rw (own, member) (refl, refl, omega arith, refl, refl, refl)
    by_phase Phase.running own member awake = rw own (refl, refl, refl, refl, refl, refl)
    by_phase Phase.finishing own member awake = rw own (refl, refl, omega arith, refl, refl, refl)
    by_phase Phase.entering own member awake = rw own (refl, refl, omega arith, refl, refl, refl)
    by_phase Phase.sleeping own member awake =
        rw (own, awake) (refl, refl, omega arith, refl, refl, refl)
    by_phase Phase.clearing own member awake = rw own (refl, refl, omega arith, refl, refl, refl)
    by_phase Phase.leaving own member awake = rw own (refl, refl, omega arith, refl, refl, refl)

-- `s` with worker `i` moved on to phase `p`, after `m` more runs
record Moved (n : ℕ) (s : Sys) (i : ℕ) (p : Phase) (m : ℕ) (t : Sys) : Type 0 where
  steps : Reach ClrStore.misses n s t
  phase : (t.workers i).phase ≡ p
  pending : (t.workers i).pending ≡ (s.workers i).pending
  ran : (t.workers i).ran ≡ (s.workers i).ran + m
  meant : (t.workers i).meant ≡ (s.workers i).meant
  master : t.master ≡ s.master
  nthreads : t.nthreads ≡ s.nthreads

module _ (n : ℕ) (s : Sys) (i : ℕ) (lt : i < n) (member : i + 1 < s.nthreads)
    (woken : (s.workers i).pending ≢ 0) where
  After : Phase → ℕ → Type 0
  After p m = (t : Sys) × Moved n s i p m t

  hop : (p : Phase) (m : ℕ) → After p m → After (after p) (m + task_runs p)
  unfolding After
  hop p m (t, h) =
      let (at_phase, same, more, meant, core0, team) =
        worker_step-Effect i p t (rw h.nthreads member) (rw h.pending woken) in
      (
        worker_step ClrStore.misses i p t,
        record {
          steps = Reach.next h.steps (
              subst (λ q. Step ClrStore.misses n t (worker_step ClrStore.misses i q t)) h.phase
                (Step.worker i lt));
          phase = at_phase;
          pending = same ∙ h.pending;
          ran = omega (arith, more, h.ran);
          meant = meant ∙ h.meant;
          master = core0 ∙ h.master;
          nthreads = team ∙ h.nthreads;
        },
      )

  round : (m : ℕ) → After Phase.checking m → After Phase.checking (m + 1)
  round m a =
      let b =
        hop Phase.finishing (m + 0 + 1) (hop Phase.running (m + 0) (hop Phase.checking m a)) in
      let c = hop Phase.sleeping (m + 0 + 1 + 0 + 0) (hop Phase.entering (m + 0 + 1 + 0) b) in
      let d = hop Phase.clearing (m + 0 + 1 + 0 + 0 + 0) c in
      subst (λ z. After Phase.checking z) (omega arith)
        (hop Phase.leaving (m + 0 + 1 + 0 + 0 + 0 + 0) d)

  rounds : (m : ℕ) → (s.workers i).phase ≡ Phase.checking → After Phase.checking m
  unfolding After
  rounds zero e = (
    s,
    record {
      steps = Reach.here;
      phase = e;
      pending = refl;
      ran = omega arith;
      meant = refl;
      master = refl;
      nthreads = refl;
    },
  )
  rounds (suc m) e = subst (λ z. After Phase.checking z) (omega arith) (round m (rounds m e))

-- Where the store of `snrt_int_cluster_clr` misses the interrupt: from any state in which a worker
-- of the team looks at `nthreads` and its interrupt is pending, that worker can run the task any number
-- of times more, while core 0 stays where it is, and ends where it was, still in the team.
pub task_repeats :
    (n : ℕ) (s : Sys) (i m : ℕ)
    → i < n
    → i + 1 < s.nthreads
    → (s.workers i).pending ≢ 0
    → (s.workers i).phase ≡ Phase.checking
    → (t : Sys) × Reach ClrStore.misses n s t
      × ((t.workers i).ran ≡ (s.workers i).ran + m)
      × ((t.workers i).meant ≡ (s.workers i).meant)
      × ((t.workers i).phase ≡ Phase.checking)
      × (t.master ≡ s.master)
      × (t.nthreads ≡ s.nthreads)
unfolding After
task_repeats n s i m lt member woken e =
    let (t, h) = rounds n s i lt member woken m e in
    (t, h.steps, h.ran, h.meant, h.phase, h.master, h.nthreads)
