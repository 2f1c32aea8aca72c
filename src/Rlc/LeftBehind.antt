-- ===== src/Rlc/LeftBehind.antt =====
-- How the consumers can stop too early.
use many_rvdata.Base.{
  ap, sym, subst, ◌∙◌, ℕ, ◌+◌, ◌≤◌, ◌≡◌, ◌≢◌, refl, arith, false, ◌==◌, ltb, List, [], ◌∷◌,
  Bool-cases, inl, inr,
}
use many_rvdata.LinkedList.{Ptr, null, list_push_back}
use many_rvdata.Pages.{mm_alloc}
use many_rvdata.LinkedList.Laws.{IsList}
use many_rvdata.DataMove.{Reg}
use many_rvdata.DataMove.Vector.{Vset}
use many_rvdata.Rlc.Context.{PdcpPkg, Shared, pdcp_receive_pkg}
use many_rvdata.Rlc.Core.{Phase, Cluster, receive, allocate, push, core_step, step, run}
use many_rvdata.Rlc.Stopping.{left, settled}

-- A core in `producer`, or past its program; the nodes in its hands are not NULL.
abbrev pub Produces : Phase → Type 0
Produces Phase.receiving = Unit {0}
Produces (Phase.allocating pkg) = Unit {0}
Produces (Phase.filling pkg node) = node ≢ null
Produces (Phase.pushing node) = node ≢ null
Produces Phase.setting_done = Unit {0}
Produces Phase.finished = Unit {0}
Produces _ = ⊥

module _ (v : Vset) (old : Reg) (buffer : Ptr) (num_pkgs : ℕ) (pdcp_pkgs : ℕ → PdcpPkg) where
  -- `node` stands first on the to-send list, and nothing was sent since `before`.
  abbrev Unsent : (node : Ptr) (before : Shared) → Shared → Type 0
  Unsent node before s =
      (s.ctx.list.head ≡ node)
      × (s.ctx.list.tail ≢ null)
      × (s.ctx.sent_list ≡ before.ctx.sent_list)
      × (s.ctx.vt_next ≡ before.ctx.vt_next)

  abbrev Goes : (node : Ptr) (before : Shared) → Phase → Phase × Shared → Type 0
  Goes node before p (p', s') =
      Produces p' × Unsent node before s' × (p ≡ Phase.finished → p' ≡ Phase.finished)

  receives :
      (node : Ptr) (before s : Shared)
      → Unsent node before s
      → Goes node before Phase.receiving (receive num_pkgs s)
  unfolding receive pdcp_receive_pkg
  receives node before s u = elim (Bool-cases (ltb s.pdcp_pkd_ptr num_pkgs)) [
    | inl more ↦
        let t = record s { pdcp_pkd_ptr = s.pdcp_pkd_ptr + 1 } in
        let e : receive num_pkgs s ≡ (Phase.allocating s.pdcp_pkd_ptr, t) = ground arith in
        subst (Goes node before Phase.receiving) (sym e) (tt, u, λ z. ground arith)
    | inr over ↦
        let e : receive num_pkgs s ≡ (Phase.setting_done, s) = ground arith in
        subst (Goes node before Phase.receiving) (sym e) (tt, u, λ z. ground arith)
  ]

  allocates :
      (node : Ptr) (before s : Shared) (pkg : ℕ)
      → Unsent node before s
      → Goes node before (Phase.allocating pkg) (allocate buffer pkg s)
  unfolding allocate
  allocates node before s pkg u =
      let (page, mm) = mm_alloc buffer s.ctx.mm_ctx s.heap in
      let t : Shared = record s { ctx = record s.ctx { mm_ctx = mm } } in
      elim (Bool-cases (page == null)) [
        | inl e ↦
            let out : allocate buffer pkg s ≡ (Phase.allocating pkg, t) = rw e refl in
            subst (Goes node before (Phase.allocating pkg)) (sym out) (tt, u, λ z. ground arith)
        | inr e ↦
            let out : allocate buffer pkg s ≡ (Phase.filling pkg page, t) = rw e refl in
            subst (Goes node before (Phase.allocating pkg)) (sym out)
              (ground arith, u, λ z. ground arith)
      ]

  Produces-kept :
      (node : Ptr) (before s : Shared) (p : Phase)
      → Produces p
      → Unsent node before s
      → Goes node before p (core_step v old buffer num_pkgs pdcp_pkgs p s)
  unfolding core_step push list_push_back
  Produces-kept node before s Phase.receiving h u = receives node before s u
  Produces-kept node before s (Phase.allocating pkg) h u = allocates node before s pkg u
  Produces-kept node before s (Phase.filling pkg page) h u = (h, u, λ z. ground arith)
  Produces-kept node before s (Phase.pushing page) h (head, tail, sent, vt) =
      let some_tail : (s.ctx.list.tail == null) ≡ false = ground arith in
      (tt, (rw some_tail head, h, sent, vt), λ z. ground arith)
  Produces-kept node before s Phase.setting_done h u = (tt, u, λ z. refl)
  Produces-kept node before s Phase.finished h u = (tt, u, λ z. refl)
  Produces-kept node before s _ h u = elim h [ ]

  run_on :
      (node : Ptr) (before : Shared) (later : List ℕ) (c : Cluster)
      → ((a : ℕ) → Produces (c.phase a))
      → Unsent node before c.shared
      → let c' = run v old buffer num_pkgs pdcp_pkgs later c in
        Unsent node before c'.shared
        × ((a : ℕ) → c.phase a ≡ Phase.finished → c'.phase a ≡ Phase.finished)
  unfolding run step
  run_on node before [] c all u = (u, λ a e. e)
  run_on node before (i ∷ later) c all u =
      let (made, u', ends) = Produces-kept node before c.shared (c.phase i) (all i) u in
      let c1 = step v old buffer num_pkgs pdcp_pkgs i c in
      let (u'', rest) =
        run_on node before later c1
          (λ a. elim (Bool-cases (a == i)) [ inl e ↦ rw e made | inr e ↦ rw e (all a) ]) u' in
      (
        u'',
        λ a e. rest a (elim (Bool-cases (a == i)) [
          | inl q ↦ let same : i ≡ a = ground arith in rw q (ends (ap c.phase same ∙ e))
          | inr q ↦ rw q e
        ]),
      )

  left-Produces :
      (c : Cluster) (producer : ℕ) (node : Ptr)
      → ((a : ℕ) → 2 ≤ a → Produces (c.phase a))
      → (a : ℕ) → Produces ((left v old buffer num_pkgs pdcp_pkgs c producer node).phase a)
  left-Produces c producer node others a = elim (Bool-cases (a == producer)) [
    | inl e ↦ rw e tt
    | inr e ↦ elim (Bool-cases (a == 1)) [
      | inl one ↦ rw (e, one) tt
      | inr not_one ↦ elim (Bool-cases (a == 0)) [
        | inl zero ↦ rw (e, not_one, zero) tt
        | inr not_zero ↦ rw (e, not_one, not_zero) (others a (ground arith))
      ]
    ]
  ]

  after :
      (c : Cluster) (producer : ℕ) (node : Ptr) (later : List ℕ)
      → 2 ≤ producer
      → node ≢ null
      → ((a : ℕ) → 2 ≤ a → Produces (c.phase a))
      → IsList (push node c.shared).heap (push node c.shared).ctx.list (node ∷ [])
      → let c'' =
          run v old buffer num_pkgs pdcp_pkgs later
            (left v old buffer num_pkgs pdcp_pkgs c producer node) in
        IsList (push node c.shared).heap (push node c.shared).ctx.list (node ∷ [])
        × (c''.phase 0 ≡ Phase.finished)
        × (c''.phase 1 ≡ Phase.finished)
        × (c''.shared.ctx.list.head ≡ node)
        × (c''.shared.ctx.sent_list ≡ c.shared.ctx.sent_list)
        × (c''.shared.ctx.vt_next ≡ c.shared.ctx.vt_next)
  unfolding push list_push_back
  after c producer node later two ne others list =
      let both : Unsent node c.shared
            (run v old buffer num_pkgs pdcp_pkgs later
              (left v old buffer num_pkgs pdcp_pkgs c producer node)).shared
          × ((a : ℕ)
              → (left v old buffer num_pkgs pdcp_pkgs c producer node).phase a ≡ Phase.finished
              → (run v old buffer num_pkgs pdcp_pkgs later
                    (left v old buffer num_pkgs pdcp_pkgs c producer node)).phase
                  a
                ≡ Phase.finished) =
        run_on node c.shared later (left v old buffer num_pkgs pdcp_pkgs c producer node)
          (left-Produces c producer node others) (list.links.chain.0, ne, refl, refl) in
      (list, both.1 0 (ground arith), both.1 1 (ground arith), both.0.0, both.0.2, both.0.3)

-- Core 0 and core 1 are consumers about to take a node, `producer_done` is set and the to-send list is
-- empty, while a producer is about to push a node; all other cores produce or are through. When the
-- two consumers look first, they finish, and the node goes to the to-send list. Whatever steps the
-- cores take afterwards, the consumers stay finished, the node stays first on the to-send list, and
-- neither the sent list nor `vtNext` changes: it is never sent.
pub left_behind :
    (v : Vset) (old : Reg) (buffer : Ptr) (num_pkgs : ℕ) (pdcp_pkgs : ℕ → PdcpPkg) (c : Cluster)
    (producer : ℕ) (node : Ptr) (later : List ℕ)
    → 2 ≤ producer
    → c.phase producer ≡ Phase.pushing node
    → node ≢ null
    → c.phase 0 ≡ Phase.popping
    → c.phase 1 ≡ Phase.popping
    → ((a : ℕ) → 2 ≤ a → Produces (c.phase a))
    → c.shared.producer_done ≡ 1
    → IsList c.shared.heap c.shared.ctx.list []
    → let c' = run v old buffer num_pkgs pdcp_pkgs (0 ∷ 0 ∷ 1 ∷ 1 ∷ producer ∷ []) c in
      let c'' = run v old buffer num_pkgs pdcp_pkgs later c' in
      IsList c'.shared.heap c'.shared.ctx.list (node ∷ [])
      × (c''.phase 0 ≡ Phase.finished)
      × (c''.phase 1 ≡ Phase.finished)
      × (c''.shared.ctx.list.head ≡ node)
      × (c''.shared.ctx.sent_list ≡ c.shared.ctx.sent_list)
      × (c''.shared.ctx.vt_next ≡ c.shared.ctx.vt_next)
left_behind v old buffer num_pkgs pdcp_pkgs c producer node later two pushing ne first second others
      done empty =
    let (e, list) =
      settled v old buffer num_pkgs pdcp_pkgs c producer node two pushing ne first second done
        empty in
    subst
      (λ c'.
        let c'' = run v old buffer num_pkgs pdcp_pkgs later c' in
        IsList c'.shared.heap c'.shared.ctx.list (node ∷ [])
        × (c''.phase 0 ≡ Phase.finished)
        × (c''.phase 1 ≡ Phase.finished)
        × (c''.shared.ctx.list.head ≡ node)
        × (c''.shared.ctx.sent_list ≡ c.shared.ctx.sent_list)
        × (c''.shared.ctx.vt_next ≡ c.shared.ctx.vt_next))
      (sym e) (after v old buffer num_pkgs pdcp_pkgs c producer node later two ne others list)
