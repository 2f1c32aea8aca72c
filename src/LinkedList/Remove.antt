-- ===== src/LinkedList/Remove.antt =====
-- `list_remove` of a node anywhere in a list.
use many_rvdata.Base.{
  ◌≡◌, refl, subst, ◌∙◌, true, false, List, [], ◌∷◌, ◌++◌, arith, ◌==◌, if◌then◌else◌, Bool-cases,
  inl, inr,
}
use many_rvdata.LinkedList.{Ptr, null, Heap, LinkedList, set_prev, set_next, list_remove}
use many_rvdata.LinkedList.Seg.{
  has, ne_of_has, has-append, Distinct, Seg, append, split, frame-set_next, frame-set_prev,
  last_mem, set_next_last, set_prev_first, set_next-prev, set_next-next_ne,
}
use many_rvdata.LinkedList.Laws.{IsLinked, SamePayload}

-- What distinctness says of the parts of a list around a node.
record Around (node : Ptr) (xs ys : List Ptr) : Type 0 where
  before : has node xs ≡ false
  after : has node ys ≡ false
  apart : (a : Ptr) → has a xs ≡ true → has a ys ≡ false
  first_part : Distinct xs
  second_part : Distinct ys
  joined : Distinct (xs ++ ys)

around : (node : Ptr) (xs ys : List Ptr) → Distinct (xs ++ node ∷ ys) → Around node xs ys
around node [] ys (out, d) = record {
  before = refl;
  after = out;
  apart = λ a m. ground arith;
  first_part = tt;
  second_part = d;
  joined = d;
}
around node (x ∷ xs) ys (out, d) =
    let r = around node xs ys d in
    record {
      before = ground (arith, r.before, has-append x xs (node ∷ ys));
      after = r.after;
      apart = λ a m. elim (Bool-cases (a == x)) [
        | inl e ↦
            let same : x ≡ a = ground arith in
            subst (λ b. has b ys ≡ false) same (ground (arith, has-append x xs (node ∷ ys)))
        | inr e ↦ r.apart a (ground arith)
      ];
      first_part = (ground (arith, has-append x xs (node ∷ ys)), r.first_part);
      second_part = r.second_part;
      joined = (ground (arith, has-append x xs (node ∷ ys), has-append x xs ys), r.joined);
    }

-- after the first test: the heap and the new head
abbrev cut_before : Ptr → Heap → Heap
cut_before node h = if (h node).prev == null then h else set_next h (h node).prev (h node).next

abbrev cut_head : Ptr → LinkedList → Heap → Ptr
cut_head node l h = if (h node).prev == null then (h node).next else l.head

-- What the first test establishes, about the heap `g` and the head `p`.
abbrev CutBefore : (node : Ptr) (h : Heap) (mid tail : Ptr) (xs ys : List Ptr) → Heap → Ptr → Type 0
CutBefore node h mid tail xs ys g p =
    Seg g null p xs mid (h node).next
    × Seg g node (h node).next ys tail null
    × ((g node).next ≡ (h node).next)
    × ((g node).prev ≡ mid)

module _ (node : Ptr) (l : LinkedList) (h : Heap) (mid : Ptr) (back : (h node).prev ≡ mid) where
  cut_lem :
      (xs ys : List Ptr)
      → Around node xs ys
      → Seg h null l.head xs mid node
      → Seg h node (h node).next ys l.tail null
      → CutBefore node h mid l.tail xs ys (cut_before node h) (cut_head node l h)
  cut_lem [] ys r (e, f) t =
      let at_head : ((h node).prev == null) ≡ true = ground arith in
      rw at_head ((refl, f), t, refl, back)
  cut_lem (x ∷ xs) ys r s t =
      let (m, some_last) = last_mem h null l.head x xs mid node s in
      let inner : ((h node).prev == null) ≡ false = ground arith in
      let other : (node == mid) ≡ false = ne_of_has node mid (x ∷ xs) r.before m in
      let heap : set_next h mid (h node).next ≡ cut_before node h = rw (inner, back) refl in
      let head : l.head ≡ cut_head node l h = rw inner refl in
      subst (λ g. CutBefore node h mid l.tail (x ∷ xs) ys g (cut_head node l h)) heap
        (subst (λ p. CutBefore node h mid l.tail (x ∷ xs) ys (set_next h mid (h node).next) p) head
          (
            set_next_last h (h node).next null l.head x xs mid node s r.first_part,
            frame-set_next h mid (h node).next node (h node).next ys l.tail null t (r.apart mid m),
            set_next-next_ne h mid (h node).next node other,
            set_next-prev h mid (h node).next node ∙ back,
          ))

-- after the second test: the heap and the new tail
abbrev cut_after : Ptr → Heap → Heap
cut_after node h = if (h node).next == null then h else set_prev h (h node).next (h node).prev

abbrev cut_tail : Ptr → LinkedList → Heap → Ptr
cut_tail node l h = if (h node).next == null then (h node).prev else l.tail

joined_lem :
    (node : Ptr) (l : LinkedList) (g : Heap) (head mid next : Ptr) (xs ys : List Ptr)
    → Around node xs ys
    → Seg g null head xs mid next
    → Seg g node next ys l.tail null
    → (g node).next ≡ next
    → (g node).prev ≡ mid
    → Seg (cut_after node g) null head (xs ++ ys) (cut_tail node l g) null
joined_lem node l g head mid next xs [] r s (e, f) nxt back =
    let at_tail : ((g node).next == null) ≡ true = ground arith in
    rw (at_tail, back) (append g null head xs [] mid next mid null s (e, refl))
joined_lem node l g head mid next xs (y ∷ ys) r s (e, ne, b, rest) nxt back =
    let inner : ((g node).next == null) ≡ false = ground arith in
    let out : has y xs ≡ false = elim (Bool-cases (has y xs)) [
      | inl m ↦ ground (arith, r.apart y m)
      | inr o ↦ o
    ] in
    let left = frame-set_prev g y mid null head xs mid next s out in
    let right = set_prev_first g mid node next y ys l.tail null (e, ne, b, rest) r.second_part.0 in
    rw (inner, back, nxt, e)
      (append (set_prev g y mid) null head xs (y ∷ ys) mid y l.tail null
        (subst (λ q. Seg (set_prev g y mid) null head xs mid q) e left)
        (subst (λ q. Seg (set_prev g y mid) mid q (y ∷ ys) l.tail null) e right))

-- `list_remove` of a node takes it out of the sequence, which stays in order, clears its links, and
-- changes nothing but links in the heap; the counters `sduNum` and `sduBytes` keep their values.
pub list_remove-IsLinked :
    (node : Ptr) (l : LinkedList) (h : Heap) (xs ys : List Ptr)
    → IsLinked h l.head l.tail (xs ++ node ∷ ys)
    → let (l', h') = list_remove node l h in
      IsLinked h' l'.head l'.tail (xs ++ ys)
      × SamePayload h h'
      × ((h' node).next ≡ null)
      × ((h' node).prev ≡ null)
      × (l'.sdu_num ≡ l.sdu_num)
      × (l'.sdu_bytes ≡ l.sdu_bytes)
unfolding list_remove set_next set_prev
list_remove-IsLinked node l h xs ys links =
    let r = around node xs ys links.distinct in
    let (mid, q, s, (e, ne, back, t)) =
      split h null l.head xs (node ∷ ys) l.tail null links.chain in
    let (s', t', nxt, back') =
      cut_lem node l h mid back xs ys r (subst (λ z. Seg h null l.head xs mid z) e s) t in
    let g = cut_before node h in
    let j = joined_lem node l g (cut_head node l h) mid (h node).next xs ys r s' t' nxt back' in
    let gone : has node (xs ++ ys) ≡ false =
      ground (arith, has-append node xs ys, r.before, r.after) in
    (
      record {
        chain =
            frame-set_next (set_prev (cut_after node g) node null) node null null
              (cut_head node l h) (xs ++ ys) (cut_tail node l g) null
              (frame-set_prev (cut_after node g) node null null (cut_head node l h) (xs ++ ys)
                (cut_tail node l g) null j gone)
              gone;
        distinct = r.joined;
      },
      record {
        same_data = λ a. ground arith;
        same_tgt = λ a. ground arith;
        same_size = λ a. ground arith;
        same_lock = λ a. ground arith;
      },
      ground arith,
      ground arith,
      refl,
      refl,
    )
