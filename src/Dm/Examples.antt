-- ===== src/Dm/Examples.antt =====
-- A ring with no task, and one with three.
use many_rvdata.Base.{◌≡◌, refl, arith, List, [], ◌∷◌, ◌++◌}
use many_rvdata.Dm.{Task, Stat, Dm}
use many_rvdata.Dm.Laws.{IsRing, Op, perform_all, handed, accepted_all, perform_all-handed}

abbrev no_task : Task
no_task = record { src = 0; dst = 0; size = 0; sstrd = 0; dstrd = 0; nreps = 0; cfg = 0; twod = 0 }

abbrev blank : Dm
blank = record {
  queue = λ i. no_task;
  queue_back = 0;
  queue_front = 0;
  queue_fill = 0;
  stat_q = Stat.no_request;
  stat_pvalid = 0;
  started = [];
}

abbrev ops : List Op
ops =
    Op.copy 64 128 16
    ∷ Op.round 0
    ∷ Op.copy_2d 1 2 3 4 5 6 7
    ∷ Op.ask Stat.wait_idle
    ∷ Op.round 0
    ∷ []

perform_all-handed_example :
    IsRing (perform_all ops blank)
    × (handed (perform_all ops blank) ≡ handed blank ++ accepted_all ops blank)
perform_all-handed_example =
    perform_all-handed ops blank
      (record { back_in = omega arith; fill_in = omega arith; front_at = refl })
