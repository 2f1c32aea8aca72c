-- ===== src/Barrier/Examples.antt =====
-- Two harts of which one has left the barrier.
use many_rvdata.Base.{ℕ, ◌≤◌, ◌<◌, refl, arith}
use many_rvdata.Barrier.{Sys, load_iteration, arrive, reset, bump, Step, Reach, start}
use many_rvdata.Barrier.Laws.{entered, nobody_early, Moves, no_deadlock}

abbrev both_in : Sys
both_in = arrive 2 1 0 (arrive 2 0 0 (load_iteration 1 (load_iteration 0 start)))

both_in-Reach : Reach 2 start both_in
unfolding load_iteration arrive
both_in-Reach =
    Reach.next
      (Reach.next
        (Reach.next (Reach.next Reach.here (Step.enter 0 (omega arith) refl))
          (Step.enter 1 (omega arith) refl))
        (Step.add 0 0 (omega arith) refl))
      (Step.add 1 0 (omega arith) refl)

abbrev one_out : Sys
one_out = bump 1 (reset 1 both_in)

one_out-Reach : Reach 2 start one_out
unfolding load_iteration arrive reset bump
one_out-Reach =
    Reach.next (Reach.next both_in-Reach (Step.clear 1 (omega arith) refl))
      (Step.release 1 (omega arith) refl)

nobody_early_example : (one_out.harts 1).done ≤ entered (one_out.harts 0)
nobody_early_example =
    nobody_early 2 one_out 1 0 (omega arith) (omega arith) one_out-Reach (omega arith) (omega arith)

no_deadlock_example : (c : ℕ) × (c < 2) × Moves one_out (one_out.harts c).phase
no_deadlock_example = no_deadlock 2 one_out (omega arith) (omega arith) one_out-Reach
