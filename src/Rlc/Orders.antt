-- ===== src/Rlc/Orders.antt =====
-- The invariants of the RLC test hold in every order of steps of its cores.
use many_rvdata.Base.{
  at, tally, ℕ, zero, suc, ◌+◌, ◌<◌, ◌≡◌, ◌≢◌, refl, arith, false, ltb, ◌==◌, if◌then◌else◌, List,
  [], ◌∷◌, Bool-cases, inl, inr, subst,
}
use many_rvdata.LinkedList.{Ptr, null, Heap}
use many_rvdata.LinkedList.Laws.{list_init-IsList}
use many_rvdata.Pages.{mm_init}
use many_rvdata.Pages.Laws.{count, is_page, mm_init-IsPool}
use many_rvdata.DataMove.{Mem, Reg}
use many_rvdata.DataMove.Vector.{Vset}
use many_rvdata.Rlc.Context.{PdcpPkg, Shared, rlc_init}
use many_rvdata.Rlc.Core.{
  Phase, Cluster, cluster_entry, move, count_pdu, count_bytes, core_step, step, run,
}
use many_rvdata.Rlc.Tally.{node_of, held, holds}
use many_rvdata.Rlc.Invariant.{waits, numbered, acking, IsRun, count_live}
use many_rvdata.Rlc.Packets.Steps.{core_step-Logs}
use many_rvdata.Rlc.Packets.{Log, names, fills, in_node, IsLogged}
use many_rvdata.Rlc.Steps.{Keeps, arrive, quiet}
use many_rvdata.Rlc.Steps.Producer.{receive-Keeps, allocate-Keeps, fill-Keeps, push-Keeps}
use many_rvdata.Rlc.Steps.Consumer.{number-Keeps, push_sent-Keeps, test_sent-Keeps, pop-Keeps}

-- the cluster after `main`'s initialisation
abbrev pub start : (buffer : Ptr) (heap : Heap) (mem : Mem) → Cluster
start buffer heap mem = record {
  phase = cluster_entry;
  shared = rlc_init 0 0 (mm_init buffer) heap mem;
}

-- every core number in the list is below `n`
abbrev pub AllBelow : ℕ → List ℕ → Type 0
AllBelow n [] = Unit {0}
AllBelow n (c ∷ cs) = (c < n) × AllBelow n cs

idle_tally :
    (w : Phase → ℕ) (n : ℕ)
    → w Phase.popping ≡ 0
    → w Phase.receiving ≡ 0
    → tally w n cluster_entry ≡ 0
unfolding cluster_entry
idle_tally w zero p r = refl
idle_tally w (suc n) p r = ground (arith, idle_tally w n p r)

idle_held : (n : ℕ) → held n cluster_entry ≡ []
unfolding cluster_entry
idle_held zero = refl
idle_held (suc n) = elim (Bool-cases (ltb n 2)) [
  | inl e ↦ rw e (idle_held n)
  | inr e ↦ rw e (idle_held n)
]

module _ (v : Vset) (old : Reg) (buffer : Ptr) (num_pkgs : ℕ) (pdcp_pkgs : ℕ → PdcpPkg)
    (n : ℕ) where
  -- a step that changes none of what the invariant reads
  plain :
      {f : ℕ → Phase} {s : Shared} {k : ℕ} {xs ys : List Ptr}
      → IsRun buffer num_pkgs n f s k xs ys
      → (c : ℕ) → c < n
      → (p : Phase) (t : Shared) → t.heap ≡ s.heap
      → t.ctx.list ≡ s.ctx.list
      → t.ctx.sent_list ≡ s.ctx.sent_list
      → t.ctx.mm_ctx ≡ s.ctx.mm_ctx
      → t.pdcp_pkd_ptr ≡ s.pdcp_pkd_ptr
      → t.ctx.vt_next ≡ s.ctx.vt_next
      → node_of p ≡ node_of (f c)
      → waits p ≡ waits (f c)
      → numbered p ≡ numbered (f c)
      → ((node : Ptr) (sn : ℕ) → p ≢ Phase.moving node sn)
      → acking p ≡ false
      → IsRun buffer num_pkgs n (at f c p) t k xs ys
  plain inv c lt p t eh el es em ep ev hand wait number other no_ack =
      quiet inv c lt p t eh el es em hand (omega arith) (rw ep inv.within) (omega arith)
        (omega arith) (λ q sn h. absurd (other q sn h)) no_ack

  core_step-Keeps :
      {f : ℕ → Phase} {s : Shared} {k : ℕ} {xs ys : List Ptr} (p : Phase)
      → IsRun buffer num_pkgs n f s k xs ys
      → (c : ℕ) → c < n
      → f c ≡ p
      → Keeps buffer num_pkgs n f c (core_step v old buffer num_pkgs pdcp_pkgs p s)
  unfolding core_step
  core_step-Keeps Phase.receiving inv c lt e = receive-Keeps inv c lt e
  core_step-Keeps (Phase.allocating pkg) inv c lt e = allocate-Keeps inv c lt pkg e
  core_step-Keeps (Phase.filling pkg node) inv c lt e =
      fill-Keeps inv c lt (pdcp_pkgs pkg) pkg node e
  core_step-Keeps (Phase.pushing node) inv c lt e = push-Keeps inv c lt node e
  core_step-Keeps {f} {s} Phase.setting_done inv c lt e = arrive f c refl (
      plain inv c lt Phase.finished (record s { producer_done = 1 }) refl refl refl refl refl refl
        (rw e refl) (rw e refl) (rw e refl) (λ q sn h. ground arith) refl)
  core_step-Keeps {xs = xs} Phase.popping inv c lt e = pop-Keeps xs inv c lt e
  core_step-Keeps {f} {s} Phase.checking_done inv c lt e = arrive f c refl (
      plain inv c lt (if s.producer_done == 1 then Phase.finished else Phase.popping) s refl refl
        refl refl refl refl (rw e (ground arith)) (rw e (ground arith)) (rw e (ground arith))
        (λ q sn h. ground arith) (ground arith))
  core_step-Keeps (Phase.numbering node) inv c lt e = number-Keeps inv c lt node e
  core_step-Keeps {f} {s} (Phase.moving node sn) inv c lt e = arrive f c refl (
      plain inv c lt (Phase.counting_pdu node) (move v old node sn s) refl refl refl refl refl refl
        (rw e refl) (rw e refl) (rw e refl) (λ q r h. ground arith) refl)
  core_step-Keeps {f} {s} (Phase.counting_pdu node) inv c lt e = arrive f c refl (
      plain inv c lt (Phase.counting_bytes node) (count_pdu s) refl refl refl refl refl refl
        (rw e refl) (rw e refl) (rw e refl) (λ q sn h. ground arith) refl)
  core_step-Keeps {f} {s} (Phase.counting_bytes node) inv c lt e = arrive f c refl (
      plain inv c lt (Phase.pushing_sent node) (count_bytes node s) refl refl refl refl refl refl
        (rw e refl) (rw e refl) (rw e refl) (λ q sn h. ground arith) refl)
  core_step-Keeps (Phase.pushing_sent node) inv c lt e = push_sent-Keeps inv c lt node e
  core_step-Keeps Phase.testing_sent inv c lt e = test_sent-Keeps inv c lt e
  core_step-Keeps {f} {s} Phase.finished inv c lt e = arrive f c refl (
      plain inv c lt Phase.finished s refl refl refl refl refl refl (rw e refl) (rw e refl)
        (rw e refl) (λ q sn h. ground arith) refl)
  core_step-Keeps p inv c lt e = absurd (ground (arith, inv.no_ack c lt))

  -- some lists and counts satisfy the invariant
  abbrev pub Runs : Cluster → Type 0
  Runs c =
      (k : ℕ) × (xs : List Ptr) × (ys : List Ptr) × IsRun buffer num_pkgs n c.phase c.shared k xs ys

  pub start-Runs : (heap : Heap) (mem : Mem) → buffer ≢ null → Runs (start buffer heap mem)
  unfolding rlc_init cluster_entry
  start-Runs heap mem ne = (
    0,
    [],
    [],
    record {
      tosend = list_init-IsList heap;
      sent = list_init-IsList heap;
      pool = rw (idle_held n) (mm_init-IsPool buffer heap ne);
      received = omega (arith, idle_tally waits n refl refl);
      within = omega arith;
      numbers = omega (arith, idle_tally numbered n refl refl);
      below = λ c node sn lt e. ground arith;
      unique = λ a b p q sn la lb ea eb. ground arith;
      no_ack = λ c lt. ground arith;
    },
  )

  pub run-Runs :
      (cores : List ℕ) (c : Cluster)
      → AllBelow n cores
      → Runs c
      → Runs (run v old buffer num_pkgs pdcp_pkgs cores c)
  unfolding run step
  run-Runs [] c all r = r
  run-Runs (core_id ∷ cores) c (lt, all) (k, xs, ys, inv) =
      run-Runs cores (step v old buffer num_pkgs pdcp_pkgs core_id c) all
        (core_step-Keeps (c.phase core_id) inv core_id lt refl)

  -- some log fits
  abbrev pub Logged : Cluster → Type 0
  Logged c = (k : ℕ) × (log : Log) × IsLogged buffer n pdcp_pkgs c.phase c.shared k log

  pub start-Logged : (heap : Heap) (mem : Mem) → Logged (start buffer heap mem)
  unfolding rlc_init cluster_entry mm_init
  start-Logged heap mem = (
    0,
    [],
    record {
      offset = refl;
      packets = λ i. ground (arith, idle_tally (names i) n refl refl);
      nodes = λ a. ground (arith, idle_tally (fills a) n refl refl);
      carried = tt;
    },
  )

  pub run-Logged :
      (cores : List ℕ) (c : Cluster)
      → AllBelow n cores
      → Runs c
      → Logged c
      → let c' = run v old buffer num_pkgs pdcp_pkgs cores c in Runs c' × Logged c'
  unfolding run step
  run-Logged [] c all r logged = (r, logged)
  run-Logged (core_id ∷ cores) c (lt, all) (k, xs, ys, inv) (k', log, is) =
      run-Logged cores (step v old buffer num_pkgs pdcp_pkgs core_id c) all
        (core_step-Keeps (c.phase core_id) inv core_id lt refl)
        (core_step-Logs v old buffer num_pkgs pdcp_pkgs n inv is core_id lt (c.phase core_id) refl)

-- The filled nodes are those on the lists and in the hands of cores past the filling.
pub IsLogged-nodes :
    {buffer : Ptr} {num_pkgs n : ℕ} {pdcp_pkgs : ℕ → PdcpPkg} {f : ℕ → Phase} {s : Shared}
    {k k' : ℕ} {xs ys : List Ptr} {log : Log}
    → IsRun buffer num_pkgs n f s k xs ys
    → IsLogged buffer n pdcp_pkgs f s k' log
    → (a : Ptr)
    → in_node a log + tally (fills a) n f ≡ count a xs + count a ys + tally (holds a) n f
IsLogged-nodes {buffer} {n = n} {f = f} {k = k} {k' = k'} {xs = xs} {ys = ys} {log = log} inv is a =
    let same_k : k' ≡ k = omega (arith, is.offset, inv.pool.offset) in
    let pages : in_node a log + tally (fills a) n f ≡ (if is_page buffer k a then 1 else 0) =
      subst (λ z. in_node a log + tally (fills a) n f ≡ (if is_page buffer z a then 1 else 0))
        same_k (is.nodes a) in
    omega (arith, pages, inv.pool.once a, count_live n f xs ys a)
