-- ===== src/Rlc/Steps.antt =====
-- Each step of a core keeps the invariant: the frame that all steps share.
pub mod Producer
pub mod Consumer
use many_rvdata.Base.{
  at, tally, tally-at, tally_le, tally_member, ℕ, zero, suc, ◌+◌, ◌%◌, ◌^◌, ◌≤◌, ◌<◌, ◌≡◌, ◌≢◌,
  refl, ap, subst, sym, arith, Bool, true, false, ◌||◌, leb, ltb, ◌==◌, if◌then◌else◌, List, [],
  ◌∷◌, ◌++◌, length, length-append, Bool-cases, inl, inr, dec_lt, slt32, add32,
}
use many_rvdata.LinkedList.{Ptr, null, Heap, Node, list_push_back, list_pop_front}
use many_rvdata.LinkedList.Seg.{has}
use many_rvdata.LinkedList.Laws.{IsList, push_back-IsList, pop_front-nil, pop_front-cons}
use many_rvdata.LinkedList.Frame.{IsList-frame, push_back-other, pop_front-other}
use many_rvdata.Pages.{MmContext, mm_alloc}
use many_rvdata.Pages.Laws.{
  count, count-append, IsPool, Allocated, mm_alloc-fresh, mm_alloc-Allocated,
}
use many_rvdata.DataMove.{Reg}
use many_rvdata.DataMove.Vector.{Vset}
use many_rvdata.Rlc.Context.{PdcpPkg, Shared, pdcp_receive_pkg, fill_node}
use many_rvdata.Rlc.Core.{
  Phase, receive, allocate, push, push_sent, pop, number, move, count_pdu, count_bytes, core_step,
}
use many_rvdata.Rlc.Tally.{node_of, held, holds, hands, count-held, length-held}
use many_rvdata.Rlc.Invariant.{
  waits, numbered, acking, IsRun, has-count, IsPool-recount, count_live, length_live, once,
  accounted, in_hand,
}

-- The invariant holds of the cores with core `c` at `p` and of the state `s`, for some lists.
abbrev pub Keeps : (buffer : Ptr) (num_pkgs n : ℕ) (f : ℕ → Phase) (c : ℕ) → Phase × Shared → Type 0
Keeps buffer num_pkgs n f c (p, s) =
    (k : ℕ) × (xs : List Ptr) × (ys : List Ptr) × IsRun buffer num_pkgs n (at f c p) s k xs ys

pub arrive :
    {buffer : Ptr} {num_pkgs n : ℕ} (f : ℕ → Phase) (c : ℕ) {r : Phase × Shared} {p : Phase}
    {t : Shared} {k : ℕ} {xs ys : List Ptr}
    → r ≡ (p, t)
    → IsRun buffer num_pkgs n (at f c p) t k xs ys
    → Keeps buffer num_pkgs n f c r
arrive {buffer} {num_pkgs} {n} f c {k = k} {xs = xs} {ys = ys} e run =
    subst (λ r. Keeps buffer num_pkgs n f c r) (sym e) (k, xs, ys, run)

module _ {buffer : Ptr} {num_pkgs n : ℕ} {f : ℕ → Phase} {s : Shared} {k : ℕ} {xs ys : List Ptr}
    (inv : IsRun buffer num_pkgs n f s k xs ys) (c : ℕ) (lt : c < n) where
  -- The facts of the invariant, from what a step changes.
  pub settle :
      (p : Phase) (t : Shared) (k' : ℕ) (xs' ys' : List Ptr)
      → IsList t.heap t.ctx.list xs'
      → IsList t.heap t.ctx.sent_list ys'
      → IsPool buffer t.ctx.mm_ctx t.heap k' [] (xs' ++ (ys' ++ held n (at f c p)))
      → t.pdcp_pkd_ptr + waits (f c) + k ≡ s.pdcp_pkd_ptr + waits p + k'
      → t.pdcp_pkd_ptr ≤ num_pkgs
      → t.ctx.vt_next + numbered (f c) + length ys ≡ s.ctx.vt_next + numbered p + length ys'
      → s.ctx.vt_next ≤ t.ctx.vt_next
      → ((node : Ptr) (sn : ℕ)
          → p ≡ Phase.moving node sn
          → (sn ≡ s.ctx.vt_next) × (sn < t.ctx.vt_next))
      → acking p ≡ false
      → IsRun buffer num_pkgs n (at f c p) t k' xs' ys'
  settle p t k' xs' ys' tosend sent pool received within numbers grows new no_ack = record {
    tosend = tosend;
    sent = sent;
    pool = pool;
    received = omega (arith, inv.received, tally-at waits n f c p lt);
    within = within;
    numbers = omega (arith, inv.numbers, tally-at numbered n f c p lt);
    below = λ a node sn la e. ground (arith, inv.below a node sn, new node sn);
    unique = λ a b q r sn la lb ea eb.
        ground
          (arith, inv.unique a b q r sn, inv.below a q sn, inv.below b r sn, new q sn, new r sn);
    no_ack = λ a la. ground (arith, inv.no_ack a la);
  }

  -- The pool after a step that moves a node between the lists and the core's hands.
  pub IsPool-kept :
      (p : Phase) (h : Heap) (xs' ys' : List Ptr)
      → length xs' + length ys' + hands p ≡ length xs + length ys + hands (f c)
      → ((a : Ptr)
          → count a xs' + count a ys' + holds a p ≡ count a xs + count a ys + holds a (f c))
      → IsPool buffer s.ctx.mm_ctx h k [] (xs' ++ (ys' ++ held n (at f c p)))
  IsPool-kept p h xs' ys' len same =
      IsPool-recount buffer s.ctx.mm_ctx s.heap h k (xs ++ (ys ++ held n f))
        (xs' ++ (ys' ++ held n (at f c p))) inv.pool
        (omega (
          arith,
          len,
          length_live n f xs ys,
          length_live n (at f c p) xs' ys',
          tally-at hands n f c p lt,
        ))
        (λ a. omega (
          arith,
          same a,
          count_live n f xs ys a,
          count_live n (at f c p) xs' ys' a,
          tally-at (holds a) n f c p lt,
        ))

  -- a step that leaves lists, pool, counts and hands as they are
  pub quiet :
      (p : Phase) (t : Shared)
      → t.heap ≡ s.heap
      → t.ctx.list ≡ s.ctx.list
      → t.ctx.sent_list ≡ s.ctx.sent_list
      → t.ctx.mm_ctx ≡ s.ctx.mm_ctx
      → node_of p ≡ node_of (f c)
      → t.pdcp_pkd_ptr + waits (f c) ≡ s.pdcp_pkd_ptr + waits p
      → t.pdcp_pkd_ptr ≤ num_pkgs
      → t.ctx.vt_next + numbered (f c) ≡ s.ctx.vt_next + numbered p
      → s.ctx.vt_next ≤ t.ctx.vt_next
      → ((node : Ptr) (sn : ℕ)
          → p ≡ Phase.moving node sn
          → (sn ≡ s.ctx.vt_next) × (sn < t.ctx.vt_next))
      → acking p ≡ false
      → IsRun buffer num_pkgs n (at f c p) t k xs ys
  quiet p t eh el es em hand ptr within vt grows new no_ack =
      settle p t k xs ys (rw (eh, el) inv.tosend) (rw (eh, es) inv.sent)
        (rw em (
          IsPool-kept p t.heap xs ys (omega (arith, ap (λ l. length l) hand))
            (λ a. omega (arith, ap (λ l. count a l) hand))))
        (omega arith) within (omega arith) grows new no_ack
