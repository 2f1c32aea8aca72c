-- ===== src/Rlc/Invariant.antt =====
-- What every order of steps keeps: each node taken from the pool is on one list, or in one core's
-- hands, once, and the counts of the protocol agree.
use many_rvdata.Base.{
  tally, tally_member, ℕ, ◌+◌, ◌≤◌, ◌<◌, ◌≡◌, ◌≢◌, refl, arith, Bool, true, false, leb, List, [],
  ◌∷◌, ◌++◌, length, length-append,
}
use many_rvdata.LinkedList.{Ptr, null, Heap}
use many_rvdata.LinkedList.Seg.{has}
use many_rvdata.LinkedList.Laws.{IsList}
use many_rvdata.Pages.{MmContext}
use many_rvdata.Pages.Laws.{count, count-append, IsPool}
use many_rvdata.Rlc.Context.{Shared}
use many_rvdata.Rlc.Core.{Phase}
use many_rvdata.Rlc.Tally.{node_of, held, holds, hands, count-held, length-held}

-- a packet received that has no node yet
abbrev pub waits : Phase → ℕ
waits (Phase.allocating pkg) = 1
waits _ = 0

-- a packet with a number that is not yet on the sent list
abbrev pub numbered : Phase → ℕ
numbered (Phase.moving node sn) = 1
numbered (Phase.counting_pdu node) = 1
numbered (Phase.counting_bytes node) = 1
numbered (Phase.pushing_sent node) = 1
numbered _ = 0

-- the code behind `sent_list.sduNum >= 10000`
abbrev pub acking : Phase → Bool
acking Phase.loading_ack = true
acking (Phase.popping_ack ack_sn i) = true
acking (Phase.freeing_ack ack_sn i node) = true
acking (Phase.storing_ack ack_sn) = true
acking _ = false

-- `n` cores; `xs` are to send, `ys` are sent, and `k` pages are taken from the pool.
pub record IsRun (buffer : Ptr) (num_pkgs n : ℕ) (f : ℕ → Phase) (s : Shared) (k : ℕ)
    (xs ys : List Ptr) : Type 0 where
  pub tosend : IsList s.heap s.ctx.list xs
  pub sent : IsList s.heap s.ctx.sent_list ys
  pub pool : IsPool buffer s.ctx.mm_ctx s.heap k [] (xs ++ (ys ++ held n f))
  pub received : s.pdcp_pkd_ptr ≡ tally waits n f + k
  pub within : s.pdcp_pkd_ptr ≤ num_pkgs
  pub numbers : s.ctx.vt_next ≡ length ys + tally numbered n f
  pub below :
      (c : ℕ) (node : Ptr) (sn : ℕ) → c < n → f c ≡ Phase.moving node sn → sn < s.ctx.vt_next
  pub unique :
      (a b : ℕ) (p q : Ptr) (sn : ℕ)
      → a < n
      → b < n
      → f a ≡ Phase.moving p sn
      → f b ≡ Phase.moving q sn
      → a ≡ b
  pub no_ack : (c : ℕ) → c < n → acking (f c) ≡ false

pub has-count : (a : Ptr) (xs : List Ptr) → has a xs ≡ leb 1 (count a xs)
has-count a [] = refl
has-count a (x ∷ xs) = ground (arith, has-count a xs)

-- The pool depends on the nodes in use by their counts only, and not on their contents.
pub IsPool-recount :
    (buffer : Ptr) (mm : MmContext) (h g : Heap) (k : ℕ) (live live' : List Ptr)
    → IsPool buffer mm h k [] live
    → length live' ≡ length live
    → ((a : Ptr) → count a live' ≡ count a live)
    → IsPool buffer mm g k [] live'
IsPool-recount buffer mm h g k live live' pool len same = record {
  aligned = pool.aligned;
  offset = pool.offset;
  few = pool.few;
  chain = pool.chain;
  total = omega (arith, pool.total);
  once = λ a. omega (arith, pool.once a, same a);
}

module _ (n : ℕ) (f : ℕ → Phase) (xs ys : List Ptr) where
  pub count_live :
      (a : Ptr) → count a (xs ++ (ys ++ held n f)) ≡ count a xs + count a ys + tally (holds a) n f
  count_live a =
      omega
        (arith, count-append a xs (ys ++ held n f), count-append a ys (held n f), count-held a n f)

  pub length_live : length (xs ++ (ys ++ held n f)) ≡ length xs + length ys + tally hands n f
  length_live =
      omega (arith, length-append xs (ys ++ held n f), length-append ys (held n f), length-held n f)

-- The facts that the steps use.
module _ {buffer : Ptr} {num_pkgs n : ℕ} {f : ℕ → Phase} {s : Shared} {k : ℕ} {xs ys : List Ptr}
    (inv : IsRun buffer num_pkgs n f s k xs ys) where
  pub once : (a : Ptr) → count a xs + count a ys + tally (holds a) n f ≤ 1
  once a = ground (arith, inv.pool.once a, count_live n f xs ys a)

  pub accounted : (length xs + length ys + tally hands n f ≡ k) × (k ≤ 1024)
  accounted = (omega (arith, inv.pool.total, length_live n f xs ys), inv.pool.few)

  -- A node in a core's hands is on neither list, and in no other core's hands.
  pub in_hand :
      (c : ℕ) (node : Ptr)
      → c < n
      → node_of (f c) ≡ node ∷ []
      → (node ≢ null) × (has node xs ≡ false) × (has node ys ≡ false) × (tally (holds node) n f ≡ 1)
  in_hand c node lt e =
      let one : 1 ≤ tally (holds node) n f =
        let alone : holds node (f c) ≡ 1 = rw e (ground arith) in
        omega (arith, tally_member (holds node) n f c lt) in
      (
        ground (arith, inv.pool.aligned, inv.pool.once node, count_live n f xs ys node),
        ground (arith, has-count node xs, once node),
        ground (arith, has-count node ys, once node),
        omega (arith, once node),
      )
