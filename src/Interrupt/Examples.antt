-- ===== src/Interrupt/Examples.antt =====
-- Harts 33 and 35, whose bits stand in the second word.
use many_rvdata.Base.{ℕ, ◌+◌, ◌*◌, ◌≡◌, refl, arith, ◌==◌, if◌then◌else◌, some, []}
use many_rvdata.Interrupt.{Clint, snrt_int_sw_clear, snrt_int_sw_set, snrt_int_sw_get, sw_poll}
use many_rvdata.Interrupt.Bits.{pending, others_keep, set-pending}
use many_rvdata.Interrupt.Poll.{higher, sw_bits, sw_poll-ends, sw_poll-early}

-- harts 33 and 35 pending, and hart 35 alone
abbrev two_pending : Clint
two_pending = record { words = λ a. if a == 1 then 10 else 0; stores = [] }

abbrev one_above : Clint
one_above = record { words = λ a. if a == 1 then 8 else 0; stores = [] }

sw_bits_example :
    (pending 35 (snrt_int_sw_set 33 two_pending) ≡ others_keep 33 1 35 two_pending)
    × (pending 35 (snrt_int_sw_clear 33 two_pending) ≡ others_keep 33 0 35 two_pending)
    × (snrt_int_sw_get 33 two_pending ≡ pending 33 two_pending + 2 * higher 33 two_pending)
sw_bits_example = sw_bits 33 35 two_pending (omega arith)

-- Another core sets the interrupt of hart 33 before the third round.
abbrev set_third : ℕ → Clint → Clint
set_third r c = if r == 2 then snrt_int_sw_set 33 c else c

set_comes : (d : Clint) → pending 33 (set_third (0 + 2) d) ≡ 1
set_comes d = set-pending 33 (omega arith) d 33

sw_poll-ends_example :
    (c' : Clint) × (sw_poll set_third 3 0 33 (record { words = λ a. 0; stores = [] }) ≡ some c')
    × (pending 33 c' ≡ 0)
sw_poll-ends_example =
    sw_poll-ends set_third 33 2 0 (record { words = λ a. 0; stores = [] }) (omega arith) set_comes

sw_poll-early_example : sw_poll (λ r d. d) 1 0 33 one_above ≡ some (snrt_int_sw_clear 33 one_above)
sw_poll-early_example = sw_poll-early 33 one_above (omega arith) refl (omega arith)
