-- ===== src/Rlc/Steps/Producer.antt =====
-- The steps of `producer` keep the invariant.
use many_rvdata.Base.{
  at, tally-at, ℕ, suc, ◌+◌, ◌<◌, ◌≡◌, refl, ap, arith, true, false, ltb, ◌==◌, List, [], ◌∷◌, ◌++◌,
  length-append, Bool-cases, inl, inr, dec_lt,
}
use many_rvdata.LinkedList.{Ptr, null}
use many_rvdata.LinkedList.Seg.{ne_of_has}
use many_rvdata.LinkedList.Laws.{push_back-IsList}
use many_rvdata.LinkedList.Frame.{IsList-frame, push_back-other}
use many_rvdata.Pages.{mm_alloc}
use many_rvdata.Pages.Laws.{count-append, mm_alloc-fresh, mm_alloc-Allocated}
use many_rvdata.Rlc.Context.{PdcpPkg, Shared, pdcp_receive_pkg, fill_node}
use many_rvdata.Rlc.Core.{Phase, receive, allocate, push}
use many_rvdata.Rlc.Tally.{held, holds, hands}
use many_rvdata.Rlc.Invariant.{
  IsRun, has-count, IsPool-recount, count_live, length_live, once, in_hand,
}
use many_rvdata.Rlc.Steps.{Keeps, arrive, settle, IsPool-kept, quiet}

module _ {buffer : Ptr} {num_pkgs n : ℕ} {f : ℕ → Phase} {s : Shared} {k : ℕ} {xs ys : List Ptr}
    (inv : IsRun buffer num_pkgs n f s k xs ys) (c : ℕ) (lt : c < n) where
  pub receive-Keeps : f c ≡ Phase.receiving → Keeps buffer num_pkgs n f c (receive num_pkgs s)
  unfolding receive pdcp_receive_pkg
  receive-Keeps e = elim (Bool-cases (ltb s.pdcp_pkd_ptr num_pkgs)) [
    | inl more ↦ arrive f c (ground arith) (
        quiet inv c lt (Phase.allocating s.pdcp_pkd_ptr)
          (record s { pdcp_pkd_ptr = s.pdcp_pkd_ptr + 1 }) refl refl refl refl (rw e refl)
          (rw e (omega arith)) (ground arith) (rw e refl) (omega arith) (λ node sn h. ground arith)
          refl)
    | inr over ↦ arrive f c (ground arith) (
        quiet inv c lt Phase.setting_done s refl refl refl refl (rw e refl) (rw e refl) inv.within
          (rw e refl) (omega arith) (λ node sn h. ground arith) refl)
  ]

  pub fill-Keeps :
      (pkg : PdcpPkg) (i : ℕ) (node : Ptr)
      → f c ≡ Phase.filling i node
      → Keeps buffer num_pkgs n f c
          (Phase.pushing node, record s { heap = fill_node node pkg s.heap })
  unfolding fill_node
  fill-Keeps pkg i node e =
      let (ne, out, out', one) = in_hand inv c node lt (rw e refl) in
      (
        k,
        xs,
        ys,
        settle inv c lt (Phase.pushing node) (record s { heap = fill_node node pkg s.heap }) k xs ys
            (IsList-frame s.heap (fill_node node pkg s.heap) s.ctx.list xs inv.tosend
              (λ a m. ground (arith, ne_of_has node a xs out m)))
            (IsList-frame s.heap (fill_node node pkg s.heap) s.ctx.sent_list ys inv.sent
              (λ a m. ground (arith, ne_of_has node a ys out' m)))
            (IsPool-kept inv c lt (Phase.pushing node) (fill_node node pkg s.heap) xs ys (rw e refl)
              (λ a. rw e refl))
            (rw e refl) inv.within (rw e refl) (omega arith) (λ q sn h. ground arith) refl,
      )

  pub push-Keeps :
      (node : Ptr)
      → f c ≡ Phase.pushing node
      → Keeps buffer num_pkgs n f c (Phase.receiving, push node s)
  unfolding push
  push-Keeps node e =
      let (ne, out, out', one) = in_hand inv c node lt (rw e refl) in
      let t = push node s in
      let (tosend', same) = push_back-IsList node s.ctx.list s.heap xs inv.tosend ne out in
      (
        k,
        xs ++ node ∷ [],
        ys,
        settle inv c lt Phase.receiving t k (xs ++ node ∷ []) ys tosend'
            (IsList-frame s.heap t.heap s.ctx.sent_list ys inv.sent (λ a m.
              push_back-other node s.ctx.list s.heap xs a inv.tosend
                (ground (arith, once inv a, has-count a xs, has-count a ys))
                (λ z. ground (arith, ne_of_has node a ys out' m))))
            (IsPool-kept inv c lt Phase.receiving t.heap (xs ++ node ∷ []) ys
              (rw e (omega (arith, length-append xs (node ∷ []))))
              (λ a. rw e (omega (arith, count-append a xs (node ∷ [])))))
            (rw e refl) inv.within (rw e refl) (omega arith) (λ q sn h. ground arith) refl,
      )

  pub allocate-Keeps :
      (pkg : ℕ) → f c ≡ Phase.allocating pkg → Keeps buffer num_pkgs n f c (allocate buffer pkg s)
  unfolding allocate
  allocate-Keeps pkg e = elim (dec_lt k 1024) [
    | yes more ↦
        let (ne, unused, page, pool') =
          mm_alloc-fresh buffer s.ctx.mm_ctx s.heap k (xs ++ (ys ++ held n f)) [] inv.pool more in
        let (page, mm) = mm_alloc buffer s.ctx.mm_ctx s.heap in
        let nonnull : (page == null) ≡ false = ground arith in
        let p = Phase.filling pkg page in
        arrive f c (rw nonnull refl) (
          settle inv c lt p (record s { ctx = record s.ctx { mm_ctx = mm } }) (suc k) xs ys
            inv.tosend inv.sent
            (IsPool-recount buffer mm s.heap s.heap (suc k) (page ∷ (xs ++ (ys ++ held n f)))
              (xs ++ (ys ++ held n (at f c p))) pool'
              (omega (
                arith,
                length_live n f xs ys,
                length_live n (at f c p) xs ys,
                tally-at hands n f c p lt,
                ap hands e,
              ))
              (λ a. ground (
                arith,
                count_live n f xs ys a,
                count_live n (at f c p) xs ys a,
                tally-at (holds a) n f c p lt,
                ap (holds a) e,
              )))
            (rw e (omega arith)) inv.within (rw e refl) (omega arith) (λ q sn h. ground arith) refl)
    | no all ↦
        elim (mm_alloc-Allocated buffer s.ctx.mm_ctx s.heap k [] (xs ++ (ys ++ held n f))
          inv.pool) [
            | inl (none_left, same, full) ↦
                let null_page : ((mm_alloc buffer s.ctx.mm_ctx s.heap).0 == null) ≡ true =
                  ground arith in
                arrive f c (rw (null_page, same) refl) (
                  quiet inv c lt (Phase.allocating pkg) s refl refl refl refl (rw e refl)
                    (rw e refl) inv.within (rw e refl) (omega arith) (λ q sn h. ground arith) refl)
            | inr (ne, room, unused, page, rest) ↦
                absurd (omega (arith, inv.pool.total, inv.pool.few))
          ]
  ]
