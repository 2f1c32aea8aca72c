-- ===== src/Rlc/Examples.antt =====
-- Two consumers and two producers with one packet.
use many_rvdata.Base.{
  tally, ℕ, ◌+◌, ◌*◌, ◌==◌, ◌⊎◌, inr, ◌≤◌, ◌<◌, ◌≡◌, refl, arith, true, false, leb, ltb, Bool-cases,
  inl, if◌then◌else◌, List, [], ◌∷◌, length,
}
use many_rvdata.LinkedList.{
  Ptr, null, Heap, list_init, list_push_back, list_pop_front, set_prev, set_next,
}
use many_rvdata.LinkedList.Laws.{IsList, list_init-IsList}
use many_rvdata.Pages.{mm_init, mm_alloc}
use many_rvdata.DataMove.{Mem, Reg}
use many_rvdata.DataMove.Vector.{Vset}
use many_rvdata.Rlc.Context.{PdcpPkg, rlc_init, pdcp_receive_pkg, fill_node}
use many_rvdata.Rlc.Core.{Phase, Cluster, cluster_entry, step, run}
use many_rvdata.Rlc.Invariant.{numbered, acking}
use many_rvdata.Rlc.Orders.{start}
use many_rvdata.Rlc.Safety.{Conserved, run-Conserved, sequence_numbers, never_acknowledges}
use many_rvdata.Rlc.LeftBehind.{Produces, left_behind}
use many_rvdata.Rlc.Memdiff.{same_word, memdiff32, memdiff32_misses}

vset : Vset
vset = record {
  vl = λ vlmax avl. if leb avl vlmax then avl else vlmax;
  vl_fits = λ vlmax avl le. ground arith;
  vl_full = λ vlmax avl le. ground arith;
}

abbrev zeros : Reg
zeros b = 0

abbrev empty_pages : Heap
empty_pages a = record { prev = 0; next = 0; data_ = 0; tgt = 0; data_size = 0; lock = 0 }

abbrev packet : ℕ → PdcpPkg
packet i = record { user_id = 1; src_addr = 65536 + 2048 * i; tgt_addr = 131072; pkg_length = 1350 }

-- Core 2 takes the only packet; core 3 finds none and sets the flag; core 2 fills a node.
abbrev racing : Cluster
racing = run vset zeros 4096 1 packet (2 ∷ 3 ∷ 3 ∷ 2 ∷ 2 ∷ []) (start 4096 empty_pages zeros)

run-Conserved_example : Conserved 1 packet 4 racing
run-Conserved_example =
    run-Conserved vset zeros 4096 1 packet 4 empty_pages zeros (2 ∷ 3 ∷ 3 ∷ 2 ∷ 2 ∷ [])
      (omega arith) (omega arith)

-- two packets in the consumers' hands
abbrev both_moving : Cluster
both_moving =
    run vset zeros 4096 2 packet (2 ∷ 2 ∷ 2 ∷ 2 ∷ 3 ∷ 3 ∷ 3 ∷ 3 ∷ 0 ∷ 1 ∷ 0 ∷ 1 ∷ [])
      (start 4096 empty_pages zeros)

second_number : both_moving.phase 1 ≡ Phase.moving 4120 1
unfolding run step cluster_entry rlc_init mm_init mm_alloc list_init list_push_back list_pop_front
    set_prev set_next pdcp_receive_pkg fill_node
second_number = refl

sequence_numbers_example :
    ((a b : ℕ) (p q : Ptr) (sn : ℕ)
      → a < 4
      → b < 4
      → both_moving.phase a ≡ Phase.moving p sn
      → both_moving.phase b ≡ Phase.moving q sn
      → (a ≡ b) × (sn < both_moving.shared.ctx.vt_next))
    × ((ys : List Ptr) × IsList both_moving.shared.heap both_moving.shared.ctx.sent_list ys
        × (both_moving.shared.ctx.vt_next ≡ length ys + tally numbered 4 both_moving.phase))
sequence_numbers_example =
    sequence_numbers vset zeros 4096 2 packet 4 empty_pages zeros
      (2 ∷ 2 ∷ 2 ∷ 2 ∷ 3 ∷ 3 ∷ 3 ∷ 3 ∷ 0 ∷ 1 ∷ 0 ∷ 1 ∷ []) (omega arith) (omega arith)

never_acknowledges_example :
    ((a : ℕ) → a < 4 → acking (racing.phase a) ≡ false)
    × (racing.shared.ctx.sent_list.sdu_num ≤ 1024)
    × (racing.shared.ctx.mm_ctx.free_list ≡ null)
never_acknowledges_example =
    never_acknowledges vset zeros 4096 1 packet 4 empty_pages zeros (2 ∷ 3 ∷ 3 ∷ 2 ∷ 2 ∷ [])
      (omega arith) (omega arith)

racing_produce : (a : ℕ) → 2 ≤ a → Produces (racing.phase a)
unfolding run step cluster_entry rlc_init mm_init mm_alloc list_init pdcp_receive_pkg fill_node
racing_produce a two =
    let producer : ltb a 2 ≡ false = ground arith in
    elim (Bool-cases (a == 2)) [
      | inl e ↦ rw e (omega arith)
      | inr e ↦ elim (Bool-cases (a == 3)) [ inl d ↦ rw (e, d) tt | inr d ↦ rw (e, d, producer) tt ]
    ]

abbrev left_over : Cluster
left_over = run vset zeros 4096 1 packet (0 ∷ 0 ∷ 1 ∷ 1 ∷ 2 ∷ []) racing

abbrev much_later : Cluster
much_later = run vset zeros 4096 1 packet (3 ∷ 2 ∷ 0 ∷ 1 ∷ 2 ∷ []) left_over

left_behind_example :
    IsList left_over.shared.heap left_over.shared.ctx.list (4096 ∷ [])
    × (much_later.phase 0 ≡ Phase.finished)
    × (much_later.phase 1 ≡ Phase.finished)
    × (much_later.shared.ctx.list.head ≡ 4096)
    × (much_later.shared.ctx.sent_list ≡ racing.shared.ctx.sent_list)
    × (much_later.shared.ctx.vt_next ≡ racing.shared.ctx.vt_next)
unfolding run step cluster_entry rlc_init mm_init mm_alloc list_init list_push_back list_pop_front
    set_prev set_next pdcp_receive_pkg fill_node
left_behind_example =
    left_behind vset zeros 4096 1 packet racing 2 4096 (3 ∷ 2 ∷ 0 ∷ 1 ∷ 2 ∷ []) (omega arith) refl
      (omega arith) refl refl racing_produce refl (list_init-IsList racing.shared.heap)

-- one byte differs from 0, in the second of two words
abbrev one_byte : Mem
one_byte a = if a == 105 then 1 else 0

-- whatever word of the first range is not the second holds 0
one_byte_missed :
    (k : ℕ)
    → k < 2
    → (same_word one_byte (100 + 4 * k) (200 + 4 * k) ≡ true)
      ⊎ (same_word one_byte (100 + 16 * k) (200 + 16 * k) ≡ true)
one_byte_missed k lt = inr (ground arith)

memdiff32_misses_example : memdiff32 one_byte 100 200 8 ≡ 8
memdiff32_misses_example = memdiff32_misses one_byte 100 200 2 one_byte_missed refl refl
