-- ===== src/Rlc/Packets/Steps.antt =====
-- Each step of a core keeps the log of filled nodes.
use many_rvdata.Base.{
  at, tally, tally-at, tally_member, ℕ, suc, ◌+◌, ◌<◌, ◌≡◌, refl, ap, subst, sym, arith, true,
  false, ltb, ◌==◌, if◌then◌else◌, List, [], ◌∷◌, ◌++◌, Bool-cases, inl, inr, dec_lt, slt32,
}
use many_rvdata.LinkedList.{Ptr, null, list_pop_front}
use many_rvdata.LinkedList.Laws.{SamePayload, push_back-SamePayload, pop_front-SamePayload}
use many_rvdata.Pages.{mm_alloc}
use many_rvdata.Pages.Laws.{is_page, mm_alloc-fresh, mm_alloc-Allocated}
use many_rvdata.DataMove.{Reg}
use many_rvdata.DataMove.Vector.{Vset}
use many_rvdata.Rlc.Context.{PdcpPkg, Shared, pdcp_receive_pkg, fill_node}
use many_rvdata.Rlc.Core.{
  Phase, receive, allocate, push, push_sent, pop, number, move, count_pdu, count_bytes, core_step,
}
use many_rvdata.Rlc.Tally.{held}
use many_rvdata.Rlc.Invariant.{IsRun}
use many_rvdata.Rlc.Packets.{
  Log, names, fills, in_node, Carried-same, fill_node-Carried, same_heap, IsLogged, Logs,
}

module _ {buffer : Ptr} {n : ℕ} {pdcp_pkgs : ℕ → PdcpPkg} {f : ℕ → Phase} {s : Shared} {k : ℕ}
    {log : Log} (is : IsLogged buffer n pdcp_pkgs f s k log) (c : ℕ) (lt : c < n) where
  arrive :
      {r : Phase × Shared} {p : Phase} {t : Shared} {k' : ℕ} {log' : Log}
      → r ≡ (p, t)
      → IsLogged buffer n pdcp_pkgs (at f c p) t k' log'
      → Logs buffer n pdcp_pkgs f c r
  arrive {k' = k'} {log' = log'} e new =
      subst (λ r. Logs buffer n pdcp_pkgs f c r) (sym e) (k', log', new)

  -- a step that neither takes a packet nor fills a node
  still :
      (p : Phase) (t : Shared)
      → SamePayload s.heap t.heap
      → t.ctx.mm_ctx ≡ s.ctx.mm_ctx
      → t.pdcp_pkd_ptr ≡ s.pdcp_pkd_ptr
      → ((i : ℕ) → names i p ≡ names i (f c))
      → ((a : Ptr) → fills a p ≡ fills a (f c))
      → IsLogged buffer n pdcp_pkgs (at f c p) t k log
  still p t same em ep name fill = record {
    offset = rw em is.offset;
    packets = λ i. rw ep (omega (arith, is.packets i, name i, tally-at (names i) n f c p lt));
    nodes = λ a. omega (arith, is.nodes a, fill a, tally-at (fills a) n f c p lt);
    carried = Carried-same pdcp_pkgs s.heap t.heap log same is.carried;
  }

  receive-Logs :
      (num_pkgs : ℕ) → f c ≡ Phase.receiving → Logs buffer n pdcp_pkgs f c (receive num_pkgs s)
  unfolding receive pdcp_receive_pkg
  receive-Logs num_pkgs e = elim (Bool-cases (ltb s.pdcp_pkd_ptr num_pkgs)) [
    | inl more ↦
        let p = Phase.allocating s.pdcp_pkd_ptr in
        arrive {p = p} {t = record s { pdcp_pkd_ptr = s.pdcp_pkd_ptr + 1 }} (ground arith) (record {
          offset = is.offset;
          packets =
              λ i. ground (arith, is.packets i, ap (names i) e, tally-at (names i) n f c p lt);
          nodes = λ a. omega (arith, is.nodes a, ap (fills a) e, tally-at (fills a) n f c p lt);
          carried = is.carried;
        })
    | inr over ↦
        arrive {p = Phase.setting_done} {t = s} (ground arith) (
          still Phase.setting_done s (same_heap s.heap) refl refl (λ i. rw e refl) (λ a. rw e refl))
  ]

  fill-Logs :
      (i : ℕ) (node : Ptr)
      → f c ≡ Phase.filling i node
      → Logs buffer n pdcp_pkgs f c
          (Phase.pushing node, record s { heap = fill_node node (pdcp_pkgs i) s.heap })
  unfolding fill_node
  fill-Logs i node e =
      let p = Phase.pushing node in
      let hand : fills node (f c) ≡ 1 = rw e (ground arith) in
      let out : in_node node log ≡ 0 =
        ground (arith, is.nodes node, tally_member (fills node) n f c lt) in
      let own : (node == node) ≡ true = ground arith in
      let rest = fill_node-Carried pdcp_pkgs s.heap node (pdcp_pkgs i) log out is.carried in
      (
        k,
        (i, node) ∷ log,
        record {
          offset = is.offset;
          packets = λ j. omega (arith, is.packets j, ap (names j) e, tally-at (names j) n f c p lt);
          nodes = λ a. omega (arith, is.nodes a, ap (fills a) e, tally-at (fills a) n f c p lt);
          carried = (rw own refl, rw own refl, rw own refl, rest);
        },
      )

  allocate-Logs :
      {num_pkgs k' : ℕ} {xs ys : List Ptr}
      → IsRun buffer num_pkgs n f s k' xs ys
      → (pkg : ℕ) → f c ≡ Phase.allocating pkg
      → Logs buffer n pdcp_pkgs f c (allocate buffer pkg s)
  unfolding allocate
  allocate-Logs {k' = k'} {xs = xs} {ys = ys} inv pkg e =
      let same_k : k ≡ k' = omega (arith, is.offset, inv.pool.offset) in
      elim (dec_lt k' 1024) [
        | yes more ↦
            let (ne, unused, page, pool') =
              mm_alloc-fresh buffer s.ctx.mm_ctx s.heap k' (xs ++ (ys ++ held n f)) [] inv.pool
                more in
            let (page, mm) = mm_alloc buffer s.ctx.mm_ctx s.heap in
            let nonnull : (page == null) ≡ false = ground arith in
            let p = Phase.filling pkg page in
            arrive {p = p} {t = record s { ctx = record s.ctx { mm_ctx = mm } }} {k' = suc k'}
              {log' = log} (rw nonnull refl)
              (record {
                offset = pool'.offset;
                packets =
                    λ i. omega (arith, is.packets i, ap (names i) e, tally-at (names i) n f c p lt);
                nodes = λ a.
                    let before =
                      subst
                        (λ z.
                          in_node a log + tally (fills a) n f
                          ≡ (if is_page buffer z a then 1 else 0))
                        same_k (is.nodes a) in
                    omega (
                      arith,
                      before,
                      inv.pool.once a,
                      pool'.once a,
                      ap (fills a) e,
                      tally-at (fills a) n f c p lt,
                    );
                carried = is.carried;
              })
        | no all ↦
            elim (mm_alloc-Allocated buffer s.ctx.mm_ctx s.heap k' [] (xs ++ (ys ++ held n f))
              inv.pool) [
                | inl (none_left, same, full) ↦
                    let null_page : ((mm_alloc buffer s.ctx.mm_ctx s.heap).0 == null) ≡ true =
                      ground arith in
                    arrive {p = Phase.allocating pkg} {t = s} (rw (null_page, same) refl) (
                      still (Phase.allocating pkg) s (same_heap s.heap) refl refl (λ i. rw e refl)
                        (λ a. rw e refl))
                | inr (ne, room, unused, page, rest) ↦
                    absurd (omega (arith, inv.pool.total, inv.pool.few))
              ]
      ]

  pop-Logs : f c ≡ Phase.popping → Logs buffer n pdcp_pkgs f c (pop s)
  unfolding pop
  pop-Logs e =
      let same = pop_front-SamePayload s.ctx.list s.heap in
      let (node, list, heap) = list_pop_front s.ctx.list s.heap in
      let t = record s { ctx = record s.ctx { list = list }; heap = heap } in
      elim (Bool-cases (node == null)) [
        | inl z ↦
            arrive {p = Phase.checking_done} {t = t} (rw z refl)
              (still Phase.checking_done t same refl refl (λ i. rw e refl) (λ a. rw e refl))
        | inr z ↦
            arrive {p = Phase.numbering node} {t = t} (rw z refl)
              (still (Phase.numbering node) t same refl refl (λ i. rw e refl) (λ a. rw e refl))
      ]

module _ (v : Vset) (old : Reg) (buffer : Ptr) (num_pkgs : ℕ) (pdcp_pkgs : ℕ → PdcpPkg) (n : ℕ)
    {f : ℕ → Phase} {s : Shared} {k' : ℕ} {xs ys : List Ptr}
    (inv : IsRun buffer num_pkgs n f s k' xs ys) {k : ℕ} {log : Log}
    (is : IsLogged buffer n pdcp_pkgs f s k log) (c : ℕ) (lt : c < n) where
  -- a step that keeps the nodes' payload, between phases that neither name a packet nor fill a node
  pass :
      (p : Phase) (t : Shared)
      → SamePayload s.heap t.heap
      → t.ctx.mm_ctx ≡ s.ctx.mm_ctx
      → t.pdcp_pkd_ptr ≡ s.pdcp_pkd_ptr
      → ((i : ℕ) → names i p ≡ names i (f c))
      → ((a : Ptr) → fills a p ≡ fills a (f c))
      → Logs buffer n pdcp_pkgs f c (p, t)
  pass p t same em ep name fill = (k, log, still is c lt p t same em ep name fill)

  pub core_step-Logs :
      (p : Phase)
      → f c ≡ p
      → Logs buffer n pdcp_pkgs f c (core_step v old buffer num_pkgs pdcp_pkgs p s)
  unfolding core_step push push_sent number move count_pdu count_bytes
  core_step-Logs Phase.receiving e = receive-Logs is c lt num_pkgs e
  core_step-Logs (Phase.allocating pkg) e = allocate-Logs is c lt inv pkg e
  core_step-Logs (Phase.filling pkg node) e = fill-Logs is c lt pkg node e
  core_step-Logs (Phase.pushing node) e =
      pass Phase.receiving (push node s) (push_back-SamePayload node s.ctx.list s.heap) refl refl
        (λ i. rw e refl) (λ a. rw e refl)
  core_step-Logs Phase.setting_done e =
      pass Phase.finished (record s { producer_done = 1 }) (same_heap s.heap) refl refl
        (λ i. rw e refl) (λ a. rw e refl)
  core_step-Logs Phase.popping e = pop-Logs is c lt e
  core_step-Logs Phase.checking_done e =
      pass (if s.producer_done == 1 then Phase.finished else Phase.popping) s (same_heap s.heap)
        refl refl (λ i. rw e (ground arith)) (λ a. rw e (ground arith))
  core_step-Logs (Phase.numbering node) e =
      pass (number node s).0 (number node s).1 (same_heap s.heap) refl refl (λ i. rw e refl)
        (λ a. rw e refl)
  core_step-Logs (Phase.moving node sn) e =
      pass (Phase.counting_pdu node) (move v old node sn s) (same_heap s.heap) refl refl
        (λ i. rw e refl) (λ a. rw e refl)
  core_step-Logs (Phase.counting_pdu node) e =
      pass (Phase.counting_bytes node) (count_pdu s) (same_heap s.heap) refl refl (λ i. rw e refl)
        (λ a. rw e refl)
  core_step-Logs (Phase.counting_bytes node) e =
      pass (Phase.pushing_sent node) (count_bytes node s) (same_heap s.heap) refl refl
        (λ i. rw e refl) (λ a. rw e refl)
  core_step-Logs (Phase.pushing_sent node) e =
      pass Phase.testing_sent (push_sent node s) (push_back-SamePayload node s.ctx.sent_list s.heap)
        refl refl (λ i. rw e refl) (λ a. rw e refl)
  core_step-Logs Phase.testing_sent e =
      pass (if slt32 s.ctx.sent_list.sdu_num 10000 then Phase.popping else Phase.loading_ack) s
        (same_heap s.heap) refl refl (λ i. rw e (ground arith)) (λ a. rw e (ground arith))
  core_step-Logs Phase.finished e =
      pass Phase.finished s (same_heap s.heap) refl refl (λ i. rw e refl) (λ a. rw e refl)
  core_step-Logs p e = absurd (ground (arith, inv.no_ack c lt))
