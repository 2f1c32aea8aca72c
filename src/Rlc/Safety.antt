-- ===== src/Rlc/Safety.antt =====
-- What holds of the RLC test in every order of steps of its cores.
use many_rvdata.Base.{
  tally, ℕ, ◌+◌, ◌≤◌, ◌<◌, ◌≡◌, ◌≢◌, arith, false, ltb, if◌then◌else◌, List, length,
}
use many_rvdata.LinkedList.{Ptr, null, Heap}
use many_rvdata.LinkedList.Laws.{IsList}
use many_rvdata.Pages.Laws.{count}
use many_rvdata.DataMove.{Mem, Reg}
use many_rvdata.DataMove.Vector.{Vset}
use many_rvdata.Rlc.Context.{PdcpPkg}
use many_rvdata.Rlc.Core.{Phase, Cluster, run}
use many_rvdata.Rlc.Tally.{holds, hands}
use many_rvdata.Rlc.Invariant.{waits, numbered, acking, once, accounted}
use many_rvdata.Rlc.Packets.{Log, names, fills, of_packet, in_node, Carried}
use many_rvdata.Rlc.Orders.{
  start, AllBelow, start-Runs, start-Logged, run-Runs, run-Logged, IsLogged-nodes,
}

-- Some lists are those of the context, and with the nodes in the cores' hands they hold each node
-- once at most. A log pairs packets with the nodes filled from them: a packet received waits in a
-- core's hands or stands in the log, once, and no other does; the nodes of the log are those on the
-- lists and those in the cores' hands once they are filled; each carries what its packet says.
abbrev pub Conserved : (num_pkgs : ℕ) (pdcp_pkgs : ℕ → PdcpPkg) (n : ℕ) → Cluster → Type 0
Conserved num_pkgs pdcp_pkgs n c =
    (xs : List Ptr) × (ys : List Ptr) × (log : Log) × IsList c.shared.heap c.shared.ctx.list xs
    × IsList c.shared.heap c.shared.ctx.sent_list ys
    × ((a : Ptr) → count a xs + count a ys + tally (holds a) n c.phase ≤ 1)
    × ((i : ℕ)
        → tally (names i) n c.phase + of_packet i log
          ≡ (if ltb i c.shared.pdcp_pkd_ptr then 1 else 0))
    × ((a : Ptr)
        → in_node a log + tally (fills a) n c.phase
          ≡ count a xs + count a ys + tally (holds a) n c.phase)
    × Carried pdcp_pkgs c.shared.heap log
    × (c.shared.pdcp_pkd_ptr
        ≡ tally waits n c.phase + length xs + length ys + tally hands n c.phase)
    × (c.shared.pdcp_pkd_ptr ≤ num_pkgs)

-- In every order of steps of `n` cores from the start, the to-send and the sent list are well
-- linked with correct counters, and no node stands twice on them and in the cores' hands. At most
-- all packets of the table are received, and their number is that of the packets without a node and
-- the nodes on the lists and in the cores' hands. Each packet received, and no other, is either in the hands
-- of one core that has not filled a node from it, or in one node; the nodes filled so are those on the
-- lists and in the hands of cores past the filling, and each has its packet's addresses and length.
pub run-Conserved :
    (v : Vset) (old : Reg) (buffer : Ptr) (num_pkgs : ℕ) (pdcp_pkgs : ℕ → PdcpPkg) (n : ℕ)
    (heap : Heap) (mem : Mem) (cores : List ℕ)
    → buffer ≢ null
    → AllBelow n cores
    → Conserved num_pkgs pdcp_pkgs n
        (run v old buffer num_pkgs pdcp_pkgs cores (start buffer heap mem))
run-Conserved v old buffer num_pkgs pdcp_pkgs n heap mem cores ne all =
    let ((k, xs, ys, inv), (k', log, is)) =
      run-Logged v old buffer num_pkgs pdcp_pkgs n cores (start buffer heap mem) all
        (start-Runs v old buffer num_pkgs pdcp_pkgs n heap mem ne)
        (start-Logged v old buffer num_pkgs pdcp_pkgs n heap mem) in
    (
      xs,
      ys,
      log,
      inv.tosend,
      inv.sent,
      once inv,
      is.packets,
      IsLogged-nodes inv is,
      is.carried,
      omega (arith, inv.received, accounted inv),
      inv.within,
    )

-- In every order of steps of `n` cores from the start, two cores that move packets under the same
-- sequence number are the same core, every number in use is below `vtNext`, and `vtNext` counts the
-- packets on the sent list and those numbered and not yet there.
pub sequence_numbers :
    (v : Vset) (old : Reg) (buffer : Ptr) (num_pkgs : ℕ) (pdcp_pkgs : ℕ → PdcpPkg) (n : ℕ)
    (heap : Heap) (mem : Mem) (cores : List ℕ)
    → buffer ≢ null
    → AllBelow n cores
    → let c = run v old buffer num_pkgs pdcp_pkgs cores (start buffer heap mem) in
      ((a b : ℕ) (p q : Ptr) (sn : ℕ)
        → a < n
        → b < n
        → c.phase a ≡ Phase.moving p sn
        → c.phase b ≡ Phase.moving q sn
        → (a ≡ b) × (sn < c.shared.ctx.vt_next))
      × ((ys : List Ptr) × IsList c.shared.heap c.shared.ctx.sent_list ys
          × (c.shared.ctx.vt_next ≡ length ys + tally numbered n c.phase))
sequence_numbers v old buffer num_pkgs pdcp_pkgs n heap mem cores ne all =
    let (k, xs, ys, inv) =
      run-Runs v old buffer num_pkgs pdcp_pkgs n cores (start buffer heap mem) all
        (start-Runs v old buffer num_pkgs pdcp_pkgs n heap mem ne) in
    (
      λ a b p q sn la lb ea eb. (inv.unique a b p q sn la lb ea eb, inv.below a p sn la ea),
      (ys, inv.sent, inv.numbers),
    )

-- In every order of steps of `n` cores from the start, no core is in the code for acknowledgements,
-- the sent list holds at most 1024 nodes, and no page is ever freed.
pub never_acknowledges :
    (v : Vset) (old : Reg) (buffer : Ptr) (num_pkgs : ℕ) (pdcp_pkgs : ℕ → PdcpPkg) (n : ℕ)
    (heap : Heap) (mem : Mem) (cores : List ℕ)
    → buffer ≢ null
    → AllBelow n cores
    → let c = run v old buffer num_pkgs pdcp_pkgs cores (start buffer heap mem) in
      ((a : ℕ) → a < n → acking (c.phase a) ≡ false)
      × (c.shared.ctx.sent_list.sdu_num ≤ 1024)
      × (c.shared.ctx.mm_ctx.free_list ≡ null)
never_acknowledges v old buffer num_pkgs pdcp_pkgs n heap mem cores ne all =
    let (k, xs, ys, inv) =
      run-Runs v old buffer num_pkgs pdcp_pkgs n cores (start buffer heap mem) all
        (start-Runs v old buffer num_pkgs pdcp_pkgs n heap mem ne) in
    (inv.no_ack, omega (arith, inv.sent.counted, accounted inv), inv.pool.chain)
