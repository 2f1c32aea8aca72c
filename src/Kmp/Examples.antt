-- ===== src/Kmp/Examples.antt =====
-- Loops and parallel regions at concrete numbers.
use many_rvdata.Base.{ℕ, ◌≡◌, refl, arith, none, some, List, [], ◌∷◌, length}
use many_rvdata.Kmp.Static.{SchedType, Bounds, static_4, for_static_init_4u}
use many_rvdata.Kmp.Static.Laws.{IsSchedule, for_static_init_4u-IsSchedule}
use many_rvdata.Kmp.Dynamic.{Team, Chunk, dispatch_init_4u}
use many_rvdata.Kmp.Dynamic.Laws.{hand_out, Tiles, hand_out-Tiles, late_init-Tiles}
use many_rvdata.Kmp.Fork.{Call, fork_args, microtask_wrapper}
use many_rvdata.Kmp.Fork.Laws.{intended, microtask_wrapper-falls}

-- the bounds 10 to 20
abbrev ten_to_twenty : Bounds
ten_to_twenty = record { last = some 0; lower = 10; upper = 20; stride = 1 }

for_static_init_4u-IsSchedule_example :
    IsSchedule (some 0) 10 20 4 (λ t. for_static_init_4u 4 t SchedType.static 1 0 ten_to_twenty)
for_static_init_4u-IsSchedule_example =
    for_static_init_4u-IsSchedule 4 0 ten_to_twenty (omega arith) (omega arith) (omega arith)
      (omega arith)

-- An increment of 2 with iterations left over: of 0, 2, 4, 6, 8 thread 1 gets those from 5 on.
skewed_share : (static_4 2 1 2 (record { last = none; lower = 0; upper = 8; stride = 1 })).lower ≡ 5
unfolding static_4
skewed_share = refl

abbrev idle : Team
idle = record { loop_start = 0; loop_end = 0; loop_incr = 0; loop_chunk = 0; loop_is_setup = 0 }

abbrev caller : Chunk
caller = record { last = 0; lower = 0; upper = 0; stride = 0 }

hand_out-Tiles_example : Tiles 3 7 caller 0 (hand_out 9 (dispatch_init_4u 0 7 1 3 idle) caller).0
hand_out-Tiles_example =
    hand_out-Tiles 0 7 1 3 9 idle caller refl (omega arith) (omega arith) (omega arith)
      (omega arith)

late_init-Tiles_example :
    let done = (hand_out 9 (dispatch_init_4u 0 7 1 3 idle) caller).1 in
    Tiles 3 7 caller 0 (hand_out 9 (dispatch_init_4u 0 7 1 3 done) caller).0
late_init-Tiles_example =
    late_init-Tiles 0 7 1 3 9 idle caller refl (omega arith) (omega arith) (omega arith)
      (omega arith)

abbrev unset : ℕ → ℕ
unset a = 0

abbrev eleven : List ℕ
eleven = 1 ∷ 2 ∷ 3 ∷ 4 ∷ 5 ∷ 6 ∷ 7 ∷ 8 ∷ 9 ∷ 10 ∷ 11 ∷ []

microtask_wrapper-falls_example :
    (rest : List Call) × (microtask_wrapper (fork_args 77 eleven unset) 11 3
      ≡ some (intended 77 3 eleven ∷ rest))
    × (length rest ≡ 1)
microtask_wrapper-falls_example =
    microtask_wrapper-falls 77 3 eleven unset (omega arith) (omega arith)
