-- ===== src/Rlc/Context.antt =====
-- The shared state of kernel/rlc.c, and the operations on it that one lock or atomic access makes.
use many_rvdata.Base.{ℕ, ◌+◌, Option, none, some, ltb, if◌then◌else◌}
use many_rvdata.LinkedList.{Ptr, Heap, LinkedList, list_init, update}
use many_rvdata.Pages.{MmContext}
use many_rvdata.DataMove.{Mem}

-- `pdcp_pkg_t`, from the generated table of packets
pub record PdcpPkg : Type 0 where
  pub user_id : ℕ
  pub src_addr : ℕ
  pub tgt_addr : ℕ
  pub pkg_length : ℕ

-- `mm_ctx` points to the only pool, which stands in its place
pub record RlcContext : Type 0 where
  pub rlc_id : ℕ
  pub cell_id : ℕ
  pub poll_pdu : ℕ
  pub poll_byte : ℕ
  pub pdu_without_poll : ℕ
  pub byte_without_poll : ℕ
  pub list : LinkedList
  pub vt_next_ack : ℕ
  pub vt_next : ℕ
  pub sent_list : LinkedList
  pub mm_ctx : MmContext

-- The globals: the context, `pdcp_pkd_ptr` and `producer_done`, the nodes and the payload memory.
pub record Shared : Type 0 where
  pub ctx : RlcContext
  pub pdcp_pkd_ptr : ℕ
  pub producer_done : ℕ
  pub heap : Heap
  pub mem : Mem

unfoldable pub rlc_init : (rlc_id cell_id : ℕ) → MmContext → Heap → Mem → Shared
unfolding list_init
rlc_init rlc_id cell_id mm_ctx heap mem = record {
  ctx = record {
    rlc_id = rlc_id;
    cell_id = cell_id;
    poll_pdu = 32;
    poll_byte = 25000;
    pdu_without_poll = 0;
    byte_without_poll = 0;
    list = list_init;
    vt_next_ack = 0;
    vt_next = 0;
    sent_list = list_init;
    mm_ctx = mm_ctx;
  };
  pdcp_pkd_ptr = 0;
  producer_done = 0;
  heap = heap;
  mem = mem;
}

-- the section under `pdcp_pkd_ptr_lock`: `none` for -1
unfoldable pub pdcp_receive_pkg : (num_pkgs : ℕ) → Shared → Option ℕ × Shared
pdcp_receive_pkg num_pkgs s =
    if ltb s.pdcp_pkd_ptr num_pkgs
    then (some s.pdcp_pkd_ptr, record s { pdcp_pkd_ptr = s.pdcp_pkd_ptr + 1 })
    else (none, s)

-- the producer's stores to a fresh node
unfoldable pub fill_node : (node : Ptr) → PdcpPkg → Heap → Heap
fill_node node pkg h = update h node (record {
  lock = 0;
  prev = 0;
  next = 0;
  data_ = pkg.src_addr;
  tgt = pkg.tgt_addr;
  data_size = pkg.pkg_length;
})
