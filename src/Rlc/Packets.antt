-- ===== src/Rlc/Packets.antt =====
-- Which packet each node carries (kernel/rlc.c): a log of the nodes that producers have filled.
pub mod Steps
use many_rvdata.Base.{
  at, tally, tally-at, tally_member, ℕ, suc, ◌+◌, ◌*◌, ◌<◌, ◌≡◌, refl, ap, subst, sym, arith, true,
  false, ltb, ◌==◌, if◌then◌else◌, List, [], ◌∷◌, ◌++◌, Bool-cases, inl, inr, dec_lt, slt32,
}
use many_rvdata.LinkedList.{Ptr, null, Heap, list_pop_front}
use many_rvdata.LinkedList.Laws.{SamePayload, push_back-SamePayload, pop_front-SamePayload}
use many_rvdata.Pages.{page_size, mm_alloc}
use many_rvdata.Pages.Laws.{is_page, mm_alloc-fresh, mm_alloc-Allocated}
use many_rvdata.DataMove.{Reg}
use many_rvdata.DataMove.Vector.{Vset}
use many_rvdata.Rlc.Context.{PdcpPkg, Shared, pdcp_receive_pkg, fill_node}
use many_rvdata.Rlc.Core.{
  Phase, receive, allocate, push, push_sent, pop, number, move, count_pdu, count_bytes, core_step,
}
use many_rvdata.Rlc.Tally.{held}
use many_rvdata.Rlc.Invariant.{IsRun}

-- a packet's index and the node that was filled from it
abbrev pub Log : Type 0
Log = List (ℕ × Ptr)

-- packet `i` is in the core's hands, and no node is filled from it yet
abbrev pub names : ℕ → Phase → ℕ
names i (Phase.allocating pkg) = if i == pkg then 1 else 0
names i (Phase.filling pkg node) = if i == pkg then 1 else 0
names i _ = 0

-- node `a` is in the core's hands, and is not filled yet
abbrev pub fills : Ptr → Phase → ℕ
fills a (Phase.filling pkg node) = if a == node then 1 else 0
fills a _ = 0

abbrev pub of_packet : ℕ → Log → ℕ
of_packet i [] = 0
of_packet i ((j, b) ∷ log) = (if i == j then 1 else 0) + of_packet i log

abbrev pub in_node : Ptr → Log → ℕ
in_node a [] = 0
in_node a ((j, b) ∷ log) = (if a == b then 1 else 0) + in_node a log

-- each node of the log has the addresses and the length of its packet
abbrev pub Carried : (pdcp_pkgs : ℕ → PdcpPkg) → Heap → Log → Type 0
Carried pdcp_pkgs h [] = Unit {0}
Carried pdcp_pkgs h ((i, a) ∷ log) =
    ((h a).data_ ≡ (pdcp_pkgs i).src_addr)
    × ((h a).tgt ≡ (pdcp_pkgs i).tgt_addr)
    × ((h a).data_size ≡ (pdcp_pkgs i).pkg_length)
    × Carried pdcp_pkgs h log

pub record IsLogged (buffer : Ptr) (n : ℕ) (pdcp_pkgs : ℕ → PdcpPkg) (f : ℕ → Phase) (s : Shared)
    (k : ℕ) (log : Log) : Type 0 where
  pub offset : s.ctx.mm_ctx.alloc_offset ≡ page_size * k
  pub packets :
      (i : ℕ) → tally (names i) n f + of_packet i log ≡ (if ltb i s.pdcp_pkd_ptr then 1 else 0)
  pub nodes :
      (a : Ptr) → in_node a log + tally (fills a) n f ≡ (if is_page buffer k a then 1 else 0)
  pub carried : Carried pdcp_pkgs s.heap log

pub Carried-same :
    (pdcp_pkgs : ℕ → PdcpPkg) (h g : Heap) (log : Log)
    → SamePayload h g
    → Carried pdcp_pkgs h log
    → Carried pdcp_pkgs g log
Carried-same pdcp_pkgs h g [] same c = tt
Carried-same pdcp_pkgs h g ((i, a) ∷ log) same (d, t, z, c) =
    rw (same.same_data a, same.same_tgt a, same.same_size a)
      (d, t, z, Carried-same pdcp_pkgs h g log same c)

pub fill_node-Carried :
    (pdcp_pkgs : ℕ → PdcpPkg) (h : Heap) (node : Ptr) (pkg : PdcpPkg) (log : Log)
    → in_node node log ≡ 0
    → Carried pdcp_pkgs h log
    → Carried pdcp_pkgs (fill_node node pkg h) log
unfolding fill_node
fill_node-Carried pdcp_pkgs h node pkg [] out c = tt
fill_node-Carried pdcp_pkgs h node pkg ((i, a) ∷ log) out (d, t, z, c) =
    let other : (a == node) ≡ false = ground arith in
    rw other (d, t, z, fill_node-Carried pdcp_pkgs h node pkg log (omega arith) c)

pub same_heap : (h : Heap) → SamePayload h h
same_heap h = record {
  same_data = λ a. refl;
  same_tgt = λ a. refl;
  same_size = λ a. refl;
  same_lock = λ a. refl;
}

-- some log fits the cores with core `c` at `p` and the state `s`
abbrev pub Logs :
    (buffer : Ptr) (n : ℕ) (pdcp_pkgs : ℕ → PdcpPkg) (f : ℕ → Phase) (c : ℕ)
    → Phase × Shared
    → Type 0
Logs buffer n pdcp_pkgs f c (p, s) =
    (k : ℕ) × (log : Log) × IsLogged buffer n pdcp_pkgs (at f c p) s k log
