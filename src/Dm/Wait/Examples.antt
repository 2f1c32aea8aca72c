-- ===== src/Dm/Wait/Examples.antt =====
-- A core that waits for its transfer, and two cores of which one waits for ever.
use many_rvdata.Base.{
  ℕ, zero, suc, ◌+◌, ◌≤◌, ◌≡◌, refl, arith, Bool-cases, inl, inr, ltb, if◌then◌else◌, List, [], ◌∷◌,
  ◌++◌,
}
use many_rvdata.Dm.{Stat}
use many_rvdata.Dm.Wait.{Phase, Op, Mover, Sys, core_step, mover_step, Step, Reach, start}
use many_rvdata.Dm.Wait.Invariant.{Asks}
use many_rvdata.Dm.Wait.Safety.{dm_wait_lem}
use many_rvdata.Dm.Wait.Lost.{request_lost}

data Turn : Type 0 where
  first second : Op → Turn
  mover engine : Turn

abbrev turn : Turn → Sys → Sys
turn (Turn.first op) s = core_step 0 op (s.cores 0).phase s
turn (Turn.second op) s = core_step 1 op (s.cores 1).phase s
turn Turn.mover s = mover_step s.mover s
turn Turn.engine s = if ltb s.done s.issued then record s { done = s.done + 1 } else s

abbrev play : List Turn → Sys → Sys
play [] s = s
play (t ∷ ts) s = play ts (turn t s)

abbrev times : ℕ → Turn → List Turn
times zero t = []
times (suc k) t = t ∷ times k t

turn-Reach : (t : Turn) (r s : Sys) → Reach 2 r s → Reach 2 r (turn t s)
turn-Reach (Turn.first op) r s q = Reach.next q (Step.core 0 op (omega arith))
turn-Reach (Turn.second op) r s q = Reach.next q (Step.core 1 op (omega arith))
turn-Reach Turn.mover r s q = Reach.next q Step.move
turn-Reach Turn.engine r s q = elim (Bool-cases (ltb s.done s.issued)) [
  | inl e ↦ rw e (Reach.next q (Step.complete (ground arith)))
  | inr e ↦ rw e q
]

play-Reach : (ts : List Turn) (r s : Sys) → Reach 2 r s → Reach 2 r (play ts s)
play-Reach [] r s q = q
play-Reach (t ∷ ts) r s q = play-Reach ts r (turn t s) (turn-Reach t r s q)

-- The data mover goes to sleep; the first core queues a transfer and waits.
abbrev one_wait : List Turn
one_wait =
    times 5 Turn.mover
    ++ times 5 (Turn.first Op.memcpy_async)
    ++ times 3 (Turn.first Op.dm_wait)
    ++ times 6 Turn.mover
    ++ Turn.engine ∷ []
    ++ times 5 (Turn.first Op.dm_wait)
    ++ times 8 Turn.mover
    ++ times 3 (Turn.first Op.dm_wait)

abbrev waited : Sys
waited = play one_wait start

waited-Reach : Reach 2 start waited
waited-Reach = play-Reach one_wait start start Reach.here

waited-returns : (waited.cores 0).phase ≡ Phase.returning Stat.wait_idle
unfolding core_step mover_step
waited-returns = refl

waited-done : ((waited.cores 0).last ≡ 1) × (waited.done ≡ 1)
unfolding core_step mover_step
waited-done = (refl, refl)

dm_wait_lem_example : (waited.cores 0).last ≤ waited.done
dm_wait_lem_example = dm_wait_lem 2 waited 0 (omega arith) waited-Reach (omega arith) waited-returns

-- Both wait for the data mover to be ready; the second one asks before it clears the first request.
abbrev two_asks : List Turn
two_asks =
    times 5 Turn.mover
    ++ times 6 (Turn.first Op.dm_wait_ready)
    ++ Turn.second Op.dm_wait_ready ∷ []
    ++ times 7 Turn.mover
    ++ times 2 (Turn.first Op.dm_wait_ready)
    ++ times 3 (Turn.second Op.dm_wait_ready)

abbrev asked : Sys
asked = play two_asks start

asked-Reach : Reach 2 start asked
asked-Reach = play-Reach two_asks start start Reach.here

asked-waits : Asks Stat.ready (asked.cores 1).phase
unfolding core_step mover_step
asked-waits = refl

asked-clearing : asked.mover ≡ Mover.clearing
unfolding core_step mover_step
asked-clearing = refl

asked-silent : asked.stat_pvalid ≡ 0
unfolding core_step mover_step
asked-silent = refl

abbrev after : Sys
after =
    play (times 4 Turn.mover ++ times 4 (Turn.second Op.dm_start)) (mover_step asked.mover asked)

after-Reach : Reach 2 (mover_step asked.mover asked) after
after-Reach =
    play-Reach (times 4 Turn.mover ++ times 4 (Turn.second Op.dm_start))
      (mover_step asked.mover asked) (mover_step asked.mover asked) Reach.here

request_lost_example : Asks Stat.ready (after.cores 1).phase × (after.stat_q ≡ Stat.no_request)
request_lost_example =
    request_lost 2 asked after 1 Stat.ready (omega arith) asked-Reach (omega arith) asked-waits
      asked-silent asked-clearing after-Reach
