-- ===== src/Rlc/Tally.antt =====
-- The nodes in the cores' hands, and how often each is there.
use many_rvdata.Base.{
  tally, ℕ, zero, suc, ◌≡◌, refl, arith, List, [], ◌∷◌, ◌++◌, length, length-append,
}
use many_rvdata.LinkedList.{Ptr}
use many_rvdata.Pages.Laws.{count, count-append}
use many_rvdata.Rlc.Core.{Phase}

-- the node that a core has taken from one list and not yet put on another
abbrev pub node_of : Phase → List Ptr
node_of (Phase.filling pkg node) = node ∷ []
node_of (Phase.pushing node) = node ∷ []
node_of (Phase.numbering node) = node ∷ []
node_of (Phase.moving node sn) = node ∷ []
node_of (Phase.counting_pdu node) = node ∷ []
node_of (Phase.counting_bytes node) = node ∷ []
node_of (Phase.pushing_sent node) = node ∷ []
node_of _ = []

abbrev pub held : ℕ → (ℕ → Phase) → List Ptr
held zero f = []
held (suc n) f = node_of (f n) ++ held n f

abbrev pub holds : Ptr → Phase → ℕ
holds a p = count a (node_of p)

abbrev pub hands : Phase → ℕ
hands p = length (node_of p)

pub count-held : (a : Ptr) (n : ℕ) (f : ℕ → Phase) → count a (held n f) ≡ tally (holds a) n f
count-held a zero f = refl
count-held a (suc n) f = omega (arith, count-append a (node_of (f n)) (held n f), count-held a n f)

pub length-held : (n : ℕ) (f : ℕ → Phase) → length (held n f) ≡ tally hands n f
length-held zero f = refl
length-held (suc n) f = omega (arith, length-append (node_of (f n)) (held n f), length-held n f)
