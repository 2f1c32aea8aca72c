-- ===== src/Rlc/Core.antt =====
-- The two programs of kernel/rlc.c, `producer` and `consumer`, one step at a time, and the cores
-- that run them in any order.
use many_rvdata.Base.{at, ℕ, none, some, ltb, ◌==◌, if◌then◌else◌, List, [], ◌∷◌, add32, slt32}
use many_rvdata.LinkedList.{Ptr, null, list_push_back, list_pop_front}
use many_rvdata.Pages.{mm_alloc, mm_free}
use many_rvdata.DataMove.{Reg}
use many_rvdata.DataMove.Vector.{Vset}
use many_rvdata.DataMove.Fixed.{vector_memcpy32_1360B_opt_with_header}
use many_rvdata.Rlc.Context.{PdcpPkg, Shared, pdcp_receive_pkg, fill_node}

-- What a core does next.
pub data Phase : Type 0 where
  -- the producer
  receiving : Phase
  allocating : (pkg : ℕ) → Phase
  filling : (pkg : ℕ) (node : Ptr) → Phase
  pushing : (node : Ptr) → Phase
  setting_done : Phase
  -- the consumer
  popping : Phase
  checking_done : Phase
  numbering : (node : Ptr) → Phase
  moving : (node : Ptr) (sn : ℕ) → Phase
  counting_pdu : (node : Ptr) → Phase
  counting_bytes : (node : Ptr) → Phase
  pushing_sent : (node : Ptr) → Phase
  testing_sent : Phase
  loading_ack : Phase
  popping_ack : (ack_sn i : ℕ) → Phase
  freeing_ack : (ack_sn i : ℕ) (node : Ptr) → Phase
  storing_ack : (ack_sn : ℕ) → Phase
  -- past the program
  finished : Phase

-- one step of `producer`
unfoldable pub receive : (num_pkgs : ℕ) → Shared → Phase × Shared
receive num_pkgs s =
    let (pkg_ptr, s') = pdcp_receive_pkg num_pkgs s in
    (elim pkg_ptr [ some i ↦ Phase.allocating i | none ↦ Phase.setting_done ], s')

-- `if (!node) { delay(200); continue; }`
unfoldable pub allocate : (bulk_buffer : Ptr) (pkg : ℕ) → Shared → Phase × Shared
allocate bulk_buffer pkg s =
    let (node, mm) = mm_alloc bulk_buffer s.ctx.mm_ctx s.heap in
    (
      if node == null then Phase.allocating pkg else Phase.filling pkg node,
      record s { ctx = record s.ctx { mm_ctx = mm } },
    )

unfoldable pub push : (node : Ptr) → Shared → Shared
push node s =
    let (list, heap) = list_push_back node s.ctx.list s.heap in
    record s { ctx = record s.ctx { list = list }; heap = heap }

unfoldable pub push_sent : (node : Ptr) → Shared → Shared
push_sent node s =
    let (list, heap) = list_push_back node s.ctx.sent_list s.heap in
    record s { ctx = record s.ctx { sent_list = list }; heap = heap }

unfoldable pub pop : Shared → Phase × Shared
pop s =
    let (node, list, heap) = list_pop_front s.ctx.list s.heap in
    (
      if node == null then Phase.checking_done else Phase.numbering node,
      record s { ctx = record s.ctx { list = list }; heap = heap },
    )

-- the fetch-and-add of `vtNext` gives the number before it
unfoldable pub number : (node : Ptr) → Shared → Phase × Shared
number node s = (
  Phase.moving node s.ctx.vt_next,
  record s { ctx = record s.ctx { vt_next = add32 s.ctx.vt_next 1 } },
)

unfoldable pub move : (v : Vset) (old : Reg) (node : Ptr) (sn : ℕ) → Shared → Shared
move v old node sn s = record s {
  mem = vector_memcpy32_1360B_opt_with_header v old (s.heap node).tgt (s.heap node).data_ sn s.mem;
}

unfoldable pub count_pdu : Shared → Shared
count_pdu s = record s { ctx = record s.ctx { pdu_without_poll = add32 s.ctx.pdu_without_poll 1 } }

unfoldable pub count_bytes : (node : Ptr) → Shared → Shared
count_bytes node s = record s {
  ctx = record s.ctx { byte_without_poll = add32 s.ctx.byte_without_poll (s.heap node).data_size };
}

-- `for (int i = vtNextAck; i < ACK_SN; i++)`
unfoldable pub ack_round : (ack_sn i : ℕ) → Shared → Phase × Shared
ack_round ack_sn i s =
    if slt32 i ack_sn
    then (let (node, list, heap) = list_pop_front s.ctx.sent_list s.heap in
        (
          Phase.freeing_ack ack_sn i node,
          record s { ctx = record s.ctx { sent_list = list }; heap = heap },
        ))
    else (Phase.storing_ack ack_sn, s)

unfoldable pub ack_free : (node : Ptr) → Shared → Shared
ack_free node s =
    let (mm, heap) = mm_free node s.ctx.mm_ctx s.heap in
    record s { ctx = record s.ctx { mm_ctx = mm }; heap = heap }

pub record Cluster : Type 0 where
  pub phase : ℕ → Phase
  pub shared : Shared

-- `cluster_entry` by core number: cores 0 and 1 consume
unfoldable pub cluster_entry : (core_id : ℕ) → Phase
cluster_entry core_id = if ltb core_id 2 then Phase.popping else Phase.receiving

module _ (v : Vset) (old : Reg) (bulk_buffer : Ptr) (num_pkgs : ℕ) (pdcp_pkgs : ℕ → PdcpPkg) where
  unfoldable pub core_step : Phase → Shared → Phase × Shared
  unfolding receive allocate push push_sent pop number move count_pdu count_bytes ack_round ack_free
  core_step Phase.receiving s = receive num_pkgs s
  core_step (Phase.allocating pkg) s = allocate bulk_buffer pkg s
  core_step (Phase.filling pkg node) s =
      (Phase.pushing node, record s { heap = fill_node node (pdcp_pkgs pkg) s.heap })
  core_step (Phase.pushing node) s = (Phase.receiving, push node s)
  core_step Phase.setting_done s = (Phase.finished, record s { producer_done = 1 })
  core_step Phase.popping s = pop s
  core_step Phase.checking_done s =
      (if s.producer_done == 1 then Phase.finished else Phase.popping, s)
  core_step (Phase.numbering node) s = number node s
  core_step (Phase.moving node sn) s = (Phase.counting_pdu node, move v old node sn s)
  core_step (Phase.counting_pdu node) s = (Phase.counting_bytes node, count_pdu s)
  core_step (Phase.counting_bytes node) s = (Phase.pushing_sent node, count_bytes node s)
  core_step (Phase.pushing_sent node) s = (Phase.testing_sent, push_sent node s)
  core_step Phase.testing_sent s =
      (if slt32 s.ctx.sent_list.sdu_num 10000 then Phase.popping else Phase.loading_ack, s)
  core_step Phase.loading_ack s =
      (Phase.popping_ack (add32 s.ctx.vt_next_ack 2) s.ctx.vt_next_ack, s)
  core_step (Phase.popping_ack ack_sn i) s = ack_round ack_sn i s
  core_step (Phase.freeing_ack ack_sn i node) s =
      (Phase.popping_ack ack_sn (add32 i 1), ack_free node s)
  core_step (Phase.storing_ack ack_sn) s =
      (Phase.popping, record s { ctx = record s.ctx { vt_next_ack = ack_sn } })
  core_step Phase.finished s = (Phase.finished, s)

  unfoldable pub step : (core_id : ℕ) → Cluster → Cluster
  unfolding core_step
  step core_id c =
      let (p, s) = core_step (c.phase core_id) c.shared in
      record { phase = at c.phase core_id p; shared = s }

  -- The cores take steps in the order of the list.
  unfoldable pub run : List ℕ → Cluster → Cluster
  run [] c = c
  run (core_id ∷ cores) c = run cores (step core_id c)
