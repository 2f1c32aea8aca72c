-- ===== src/SpinLock/Examples.antt =====
-- A core that adds one to a shared counter under a spin lock.
use many_rvdata.Base.{ℕ, ◌+◌, ◌≡◌, refl, ◌∷◌}
use many_rvdata.SpinLock.{Phase, Sys, at, test_and_set, Step, Reach, start}
use many_rvdata.SpinLock.Laws.{replay, sections_atomic}

abbrev bump : ℕ → ℕ → ℕ
bump c n = n + 1

abbrev called : Sys ℕ
called = record (start 5) { phase = at (λ a. Phase.outside) 7 Phase.swapping }

abbrev entered : Sys ℕ
entered = test_and_set 7 called

abbrev read_five : Sys ℕ
read_five = record entered { phase = at entered.phase 7 (Phase.loaded entered.shared) }

abbrev wrote_six : Sys ℕ
wrote_six = record read_five { phase = at read_five.phase 7 (Phase.buffered 6) }

abbrev fenced : Sys ℕ
fenced = record wrote_six {
  phase = at wrote_six.phase 7 Phase.stored;
  shared = 6;
  log = 7 ∷ wrote_six.log;
}

wrote_six-Reach : Reach bump (start 5) wrote_six
unfolding test_and_set
wrote_six-Reach =
    Reach.next
      (Reach.next (Reach.next (Reach.next Reach.here (Step.call 7 refl)) (Step.swap 7 refl))
        (Step.read 7 refl))
      (Step.write 7 5 refl)

fenced-Reach : Reach bump (start 5) fenced
fenced-Reach = Reach.next wrote_six-Reach (Step.fence 7 6 refl)

sections_atomic_example : fenced.shared ≡ replay bump 5 fenced.log
sections_atomic_example = sections_atomic bump 5 fenced fenced-Reach
