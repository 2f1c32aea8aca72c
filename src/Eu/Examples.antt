-- ===== src/Eu/Examples.antt =====
-- One worker and a region of two threads: while the worker runs the task, and after it.
use many_rvdata.Base.{◌+◌, ◌≡◌, refl, arith, Bool, true, false, List, [], ◌∷◌}
use many_rvdata.Eu.{ClrStore, Phase, Master, Sys, worker_step, master_step, Step, Reach, start}
use many_rvdata.Eu.Repeats.{task_repeats}
use many_rvdata.Eu.Laws.{each_task_once}

abbrev worker_turn : Bool
worker_turn = true

abbrev master_turn : Bool
master_turn = false

-- a step of the worker or of core 0, which asks for two threads
abbrev turn : ClrStore → Bool → Sys → Sys
turn clr true s = worker_step clr 0 (s.workers 0).phase s
turn clr false s = master_step 1 2 s.master s

abbrev play : ClrStore → List Bool → Sys → Sys
play clr [] s = s
play clr (t ∷ ts) s = play clr ts (turn clr t s)

turn-Reach :
    (clr : ClrStore) (t : Bool) (s : Sys) → Reach clr 1 start s → Reach clr 1 start (turn clr t s)
turn-Reach clr true s r = Reach.next r (Step.worker 0 (omega arith))
turn-Reach clr false s r = Reach.next r (Step.master 2)

play-Reach :
    (clr : ClrStore) (ts : List Bool) (s : Sys)
    → Reach clr 1 start s
    → Reach clr 1 start (play clr ts s)
play-Reach clr [] s r = r
play-Reach clr (t ∷ ts) s r = play-Reach clr ts (turn clr t s) (turn-Reach clr t s r)

-- the worker joins and sleeps; core 0 pushes and wakes; the worker sees its task
abbrev to_task : List Bool
to_task =
    worker_turn ∷ worker_turn ∷ worker_turn ∷ worker_turn ∷ master_turn ∷ master_turn ∷ master_turn
    ∷ master_turn ∷ master_turn ∷ master_turn ∷ worker_turn ∷ worker_turn ∷ worker_turn
    ∷ worker_turn ∷ []

abbrev to_end : List Bool
to_end = worker_turn ∷ worker_turn ∷ master_turn ∷ master_turn ∷ master_turn ∷ []

abbrev at_task : Sys
at_task = play ClrStore.clears to_task start

abbrev at_end : Sys
at_end = play ClrStore.clears to_end at_task

at_task-Reach : Reach ClrStore.clears 1 start at_task
at_task-Reach = play-Reach ClrStore.clears to_task start Reach.here

at_end-Reach : Reach ClrStore.clears 1 start at_end
at_end-Reach = play-Reach ClrStore.clears to_end at_task at_task-Reach

at_end-ran : (at_end.workers 0).ran ≡ 1
unfolding worker_step master_step
at_end-ran = refl

task_runs : (at_task.workers 0).phase ≡ Phase.running
unfolding worker_step master_step
task_runs = refl

region_over : at_end.master ≡ Master.idle
unfolding worker_step master_step
region_over = refl

each_task_once_example : (at_end.workers 0).ran ≡ (at_end.workers 0).meant
each_task_once_example =
    each_task_once 1 at_end 0 (omega arith) at_end-Reach region_over (omega arith)

-- the same steps up to the worker's look at `nthreads`, where the interrupt stays
abbrev to_look : List Bool
to_look =
    worker_turn ∷ worker_turn ∷ worker_turn ∷ worker_turn ∷ master_turn ∷ master_turn ∷ master_turn
    ∷ master_turn ∷ master_turn ∷ master_turn ∷ worker_turn ∷ worker_turn ∷ worker_turn ∷ []

abbrev at_look : Sys
at_look = play ClrStore.misses to_look start

look_fields :
    ((at_look.workers 0).phase ≡ Phase.checking)
    × ((at_look.workers 0).pending ≡ 1)
    × (at_look.nthreads ≡ 2)
    × (at_look.master ≡ Master.working 2)
unfolding worker_step master_step
look_fields = (refl, refl, refl, refl)

task_repeats_example :
    (t : Sys) × Reach ClrStore.misses 1 at_look t
    × ((t.workers 0).ran ≡ (at_look.workers 0).ran + 5)
    × ((t.workers 0).meant ≡ (at_look.workers 0).meant)
    × ((t.workers 0).phase ≡ Phase.checking)
    × (t.master ≡ at_look.master)
    × (t.nthreads ≡ at_look.nthreads)
task_repeats_example =
    task_repeats 1 at_look 0 5 (omega arith) (omega (arith, look_fields.2))
      (omega (arith, look_fields.1)) look_fields.0
