-- ===== src/Rlc/Steps/Consumer.antt =====
-- The steps of `consumer` keep the invariant.
use many_rvdata.Base.{
  tally_le, ℕ, ◌≤◌, ◌<◌, ◌≡◌, refl, arith, true, false, ◌==◌, if◌then◌else◌, List, [], ◌∷◌, ◌++◌,
  length-append, slt32, add32,
}
use many_rvdata.LinkedList.{Ptr, null, list_pop_front}
use many_rvdata.LinkedList.Seg.{ne_of_has}
use many_rvdata.LinkedList.Laws.{push_back-IsList, pop_front-nil, pop_front-cons}
use many_rvdata.LinkedList.Frame.{IsList-frame, push_back-other, pop_front-other}
use many_rvdata.Pages.Laws.{count-append}
use many_rvdata.Rlc.Context.{Shared}
use many_rvdata.Rlc.Core.{Phase, push_sent, pop, number}
use many_rvdata.Rlc.Tally.{hands}
use many_rvdata.Rlc.Invariant.{numbered, IsRun, has-count, once, accounted, in_hand}
use many_rvdata.Rlc.Steps.{Keeps, arrive, settle, IsPool-kept, quiet}

numbered-le-hands : (p : Phase) → numbered p ≤ hands p
numbered-le-hands Phase.receiving = omega arith
numbered-le-hands p = ground arith

module _ {buffer : Ptr} {num_pkgs n : ℕ} {f : ℕ → Phase} {s : Shared} {k : ℕ} {xs ys : List Ptr}
    (inv : IsRun buffer num_pkgs n f s k xs ys) (c : ℕ) (lt : c < n) where
  -- fewer than 2 ^ 32 numbers are given out
  pub few_numbers : s.ctx.vt_next ≤ 1024
  few_numbers =
      omega (arith, accounted inv, inv.numbers, tally_le numbered hands n f numbered-le-hands)

  pub number-Keeps :
      (node : Ptr) → f c ≡ Phase.numbering node → Keeps buffer num_pkgs n f c (number node s)
  unfolding number
  number-Keeps node e = arrive f c refl (
      quiet inv c lt (Phase.moving node s.ctx.vt_next)
        (record s { ctx = record s.ctx { vt_next = add32 s.ctx.vt_next 1 } }) refl refl refl refl
        (rw e refl) (rw e refl) inv.within (rw e (omega (arith, few_numbers)))
        (omega (arith, few_numbers)) (λ q sn h. ground (arith, few_numbers)) refl)

  pub push_sent-Keeps :
      (node : Ptr)
      → f c ≡ Phase.pushing_sent node
      → Keeps buffer num_pkgs n f c (Phase.testing_sent, push_sent node s)
  unfolding push_sent
  push_sent-Keeps node e =
      let (ne, out, out', one) = in_hand inv c node lt (rw e refl) in
      let t = push_sent node s in
      let (sent', same) = push_back-IsList node s.ctx.sent_list s.heap ys inv.sent ne out' in
      arrive f c refl (
        settle inv c lt Phase.testing_sent t k xs (ys ++ node ∷ [])
          (IsList-frame s.heap t.heap s.ctx.list xs inv.tosend (λ a m.
            push_back-other node s.ctx.sent_list s.heap ys a inv.sent
              (ground (arith, once inv a, has-count a xs, has-count a ys))
              (λ z. ground (arith, ne_of_has node a xs out m))))
          sent'
          (IsPool-kept inv c lt Phase.testing_sent t.heap xs (ys ++ node ∷ [])
            (rw e (omega (arith, length-append ys (node ∷ []))))
            (λ a. rw e (omega (arith, count-append a ys (node ∷ [])))))
          (rw e refl) inv.within (rw e (omega (arith, length-append ys (node ∷ [])))) (omega arith)
          (λ q sn h. ground arith) refl)

  test_sent_lem : slt32 s.ctx.sent_list.sdu_num 10000 ≡ true
  test_sent_lem = ground (arith, accounted inv, inv.sent.counted)

  pub test_sent-Keeps :
      f c ≡ Phase.testing_sent
      → Keeps buffer num_pkgs n f c
          (if slt32 s.ctx.sent_list.sdu_num 10000 then Phase.popping else Phase.loading_ack, s)
  test_sent-Keeps e = arrive f c (rw test_sent_lem refl) (
      quiet inv c lt Phase.popping s refl refl refl refl (rw e refl) (rw e refl) inv.within
        (rw e refl) (omega arith) (λ q sn h. ground arith) refl)

-- `pop` splits on the list, a variable of the invariant.
pub pop-Keeps :
    {buffer : Ptr} {num_pkgs n : ℕ} {f : ℕ → Phase} {s : Shared} {k : ℕ} (xs : List Ptr)
    {ys : List Ptr}
    → IsRun buffer num_pkgs n f s k xs ys
    → (c : ℕ) → c < n
    → f c ≡ Phase.popping
    → Keeps buffer num_pkgs n f c (pop s)
unfolding pop
pop-Keeps {f = f} {s = s} [] inv c lt e =
    arrive f c (rw (pop_front-nil s.ctx.list s.heap inv.tosend) refl) (
      quiet inv c lt Phase.checking_done s refl refl refl refl (rw e refl) (rw e refl) inv.within
        (rw e refl) (omega arith) (λ q sn h. ground arith) refl)
pop-Keeps {f = f} {s = s} {k = k} (x ∷ xs) {ys = ys} inv c lt e =
    let (first, tosend', same, nxt, prv) = pop_front-cons s.ctx.list s.heap x xs inv.tosend in
    let (node, list, heap) = list_pop_front s.ctx.list s.heap in
    let some_first : (node == null) ≡ false = ground (arith, inv.tosend.links.chain.1) in
    arrive f c (rw (some_first, first) refl) (
      settle inv c lt (Phase.numbering x)
        (record s { ctx = record s.ctx { list = list }; heap = heap }) k xs ys tosend'
        (IsList-frame s.heap heap s.ctx.sent_list ys inv.sent (λ a m.
          pop_front-other s.ctx.list s.heap x xs a inv.tosend
            (ground (arith, once inv a, has-count a (x ∷ xs), has-count a ys))))
        (IsPool-kept inv c lt (Phase.numbering x) heap xs ys (rw e (omega arith))
          (λ a. rw e (omega arith)))
        (rw e refl) inv.within (rw e refl) (omega arith) (λ q sn h. ground arith) refl)
