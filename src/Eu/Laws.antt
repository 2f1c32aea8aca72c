-- ===== src/Eu/Laws.antt =====
-- The event unit in every order of the cores' steps: what each worker has run where the store of
-- `snrt_int_cluster_clr` clears the interrupt, and what the cores wait for, whether it does or not.
use many_rvdata.Base.{
  ℕ, ◌+◌, ◌^◌, ◌<◌, ◌≡◌, ◌⊎◌, inl, inr, refl, subst, sym, tally, tally_zero, ltb, Bool-cases,
}
use many_rvdata.Eu.{ClrStore, Phase, Worker, Master, Sys, Step, Reach, start}
use many_rvdata.Eu.Invariant.{asleep, joined, counted, kind, FitsAt, Fits, Fields, Inv}
use many_rvdata.Eu.Workers.{worker_step-Inv}
use many_rvdata.Eu.Core0.{master_step-Inv}
use many_rvdata.Eu.Changes.{worked_many, worked_few}

start-Inv : (n : ℕ) → Inv n start
start-Inv n = record {
  in_loop = sym (tally_zero joined n start.workers (λ i lt. refl));
  in_wfi = sym (tally_zero asleep n start.workers (λ i lt. refl));
  fields = refl;
  fits = λ i lt. (refl, refl);
}

Reach-Inv : {n : ℕ} {s : Sys} → n < 2 ^ 32 → Reach ClrStore.clears n start s → Inv n s
Reach-Inv {n} small Reach.here = start-Inv n
Reach-Inv small (Reach.next {t} r (Step.worker i lt)) =
    worker_step-Inv (Reach-Inv small r) small i lt (t.workers i).phase refl
Reach-Inv small (Reach.next {t} r (Step.master want)) =
    master_step-Inv (Reach-Inv small r) want t.master refl

resting-Done : (i x y z : ℕ) (p : Phase) → FitsAt (kind Master.idle) i x y z p → y ≡ z
resting-Done i x y z Phase.entering fit = fit.1
resting-Done i x y z Phase.sleeping fit = fit.1
resting-Done i x y z _ fit = elim fit [ ]

-- Under the assumption that the store of `snrt_int_cluster_clr` clears the core's interrupt: in every
-- order of the steps of core 0 and fewer than 2 ^ 32 workers, from the state that `eu_init` leaves,
-- whenever core 0 is between two parallel regions every worker has run a task as often as it was
-- among the first `nthreads` cores of a region.
pub each_task_once :
    (n : ℕ) (s : Sys) (i : ℕ)
    → n < 2 ^ 32
    → Reach ClrStore.clears n start s
    → s.master ≡ Master.idle
    → i < n
    → (s.workers i).ran ≡ (s.workers i).meant
each_task_once n s i small r e lt =
    let inv = Reach-Inv small r in
    resting-Done i (s.workers i).pending (s.workers i).ran (s.workers i).meant (s.workers i).phase
      (subst (λ m. Fits (kind m) i (s.workers i)) e (inv.fits i lt))

-- Core 0 waits for a region of `k` threads, or runs its own share.
abbrev Within : ℕ → Master → Type 0
Within k m = (m ≡ Master.working k) ⊎ (m ≡ Master.collecting k)

running-Within :
    (m : Master) (t f d i x y z : ℕ)
    → Fields m t f d
    → FitsAt (kind m) i x y z Phase.running
    → (k : ℕ) × Within k m × (t ≡ k) × (i + 1 < k)
running-Within Master.booting t f d i x y z h fit = elim fit [ ]
running-Within Master.idle t f d i x y z h fit = elim fit [ ]
running-Within (Master.pushing k) t f d i x y z h fit = elim fit [ ]
running-Within (Master.resetting k) t f d i x y z h fit = elim fit [ ]
running-Within (Master.waking k) t f d i x y z h fit = elim fit [ ]
running-Within (Master.setting k) t f d i x y z h fit = elim fit [ ]
running-Within (Master.working k) t f d i x y z h fit = elim (Bool-cases (ltb 1 k)) [
  | inl q ↦
      let w : Worker = record { phase = Phase.running; pending = x; ran = y; meant = z } in
      (k, inl refl, h.0, (worked_many k q i w fit).2)
  | inr q ↦
      let w : Worker = record { phase = Phase.running; pending = x; ran = y; meant = z } in
      elim (worked_few k q i w fit) [ ]
]
running-Within (Master.collecting k) t f d i x y z h fit = (k, inr refl, h.0, fit.2)
running-Within (Master.storing k) t f d i x y z h fit = elim fit [ ]

-- Under the same condition on the store, in every such order, while worker `i` runs the task, core 0 is in the region of that task, `k`
-- threads with the worker among them, and runs its own share or waits for the end: it does not push
-- the next task, and `nthreads` is still `k`.
task_kept :
    (n : ℕ) (s : Sys) (i : ℕ)
    → n < 2 ^ 32
    → Reach ClrStore.clears n start s
    → i < n
    → (s.workers i).phase ≡ Phase.running
    → (k : ℕ) × Within k s.master × (s.nthreads ≡ k) × (i + 1 < k)
task_kept n s i small r lt e =
    let inv = Reach-Inv small r in
    running-Within s.master s.nthreads s.fini_count (tally counted n s.workers) i
      (s.workers i).pending (s.workers i).ran (s.workers i).meant inv.fields
      (subst (FitsAt (kind s.master) i (s.workers i).pending (s.workers i).ran (s.workers i).meant)
        e (inv.fits i lt))
