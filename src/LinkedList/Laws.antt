-- ===== src/LinkedList/Laws.antt =====
-- The operations of kernel/llist.c on a list that stands for a sequence of nodes.
use many_rvdata.Base.{
  ℕ, ◌+◌, ◌%◌, ◌^◌, ◌≡◌, ◌≢◌, refl, ap, sym, subst, ◌∙◌, true, false, List, [], ◌∷◌, ◌++◌, arith,
  ◌==◌, length, length-append, add32, sub32,
}
use many_rvdata.LinkedList.{
  Ptr, null, Heap, LinkedList, set_prev, set_next, list_init, list_push_back, unlink_front,
  list_pop_front,
}
use many_rvdata.LinkedList.Seg.{
  has, ne_of_has, has-append, Distinct, Seg, append, frame-set_next, frame-set_prev, last_mem,
  set_next_last, set_prev_first, set_prev-prev, set_prev-next, set_next-prev, set_next-next,
  set_next-next_ne,
}

-- the bytes of the payloads of `xs`
abbrev pub total_size : Heap → List Ptr → ℕ
total_size h [] = 0
total_size h (x ∷ xs) = (h x).data_size + total_size h xs

-- The links of a list that holds the nodes `xs`, front first.
pub record IsLinked (h : Heap) (head tail : Ptr) (xs : List Ptr) : Type 0 where
  pub chain : Seg h null head xs tail null
  pub distinct : Distinct xs

-- The list holds the nodes `xs`, and its two counters say so, modulo 2 ^ 32.
pub record IsList (h : Heap) (l : LinkedList) (xs : List Ptr) : Type 0 where
  pub links : IsLinked h l.head l.tail xs
  pub counted : l.sdu_num ≡ length xs % 2 ^ 32
  pub sized : l.sdu_bytes ≡ total_size h xs % 2 ^ 32

-- Nothing but links differs.
pub record SamePayload (h g : Heap) : Type 0 where
  pub same_data : (a : Ptr) → (g a).data_ ≡ (h a).data_
  pub same_tgt : (a : Ptr) → (g a).tgt ≡ (h a).tgt
  pub same_size : (a : Ptr) → (g a).data_size ≡ (h a).data_size
  pub same_lock : (a : Ptr) → (g a).lock ≡ (h a).lock

-- An initialised list is empty.
pub list_init-IsList : (h : Heap) → IsList h list_init []
unfolding list_init
list_init-IsList h = record {
  links = record { chain = (refl, refl); distinct = tt };
  counted = refl;
  sized = refl;
}

Distinct-snoc : (x : Ptr) (xs : List Ptr) → Distinct xs → has x xs ≡ false → Distinct (xs ++ x ∷ [])
Distinct-snoc x [] d out = (refl, tt)
Distinct-snoc x (y ∷ ys) (o, d) out =
    (ground (arith, has-append y ys (x ∷ [])), Distinct-snoc x ys d (ground arith))

total_size-append :
    (h : Heap) (xs ys : List Ptr) → total_size h (xs ++ ys) ≡ total_size h xs + total_size h ys
total_size-append h [] ys = omega arith
total_size-append h (x ∷ xs) ys = omega (arith, total_size-append h xs ys)

total_size-same : (h g : Heap) (xs : List Ptr) → SamePayload h g → total_size g xs ≡ total_size h xs
total_size-same h g [] same = refl
total_size-same h g (x ∷ xs) same = omega (arith, same.same_size x, total_size-same h g xs same)

pub push_back-SamePayload :
    (node : Ptr) (l : LinkedList) (h : Heap) → SamePayload h (list_push_back node l h).1
unfolding list_push_back set_prev set_next
push_back-SamePayload node l h = record {
  same_data = λ a. ground arith;
  same_tgt = λ a. ground arith;
  same_size = λ a. ground arith;
  same_lock = λ a. ground arith;
}

pub pop_front-SamePayload : (l : LinkedList) (h : Heap) → SamePayload h (list_pop_front l h).2
unfolding list_pop_front set_prev set_next
pop_front-SamePayload l h = record {
  same_data = λ a. ground arith;
  same_tgt = λ a. ground arith;
  same_size = λ a. ground arith;
  same_lock = λ a. ground arith;
}

cleared :
    (node : Ptr) (h : Heap) (v : Ptr) → (set_prev (set_next h node null) node v node).next ≡ null
cleared node h v = set_prev-next (set_next h node null) node v node ∙ set_next-next h node null

-- The links that `list_push_back` leaves.
push_back-IsLinked :
    (node : Ptr) (l : LinkedList) (h : Heap) (xs : List Ptr)
    → IsLinked h l.head l.tail xs
    → node ≢ null
    → has node xs ≡ false
    → let (l', h') = list_push_back node l h in IsLinked h' l'.head l'.tail (xs ++ node ∷ [])
unfolding list_push_back
push_back-IsLinked node l h [] links ne out =
    let empty : (l.tail == null) ≡ true = ground (arith, links.chain.1) in
    rw (empty, links.chain.1)
      (record {
        chain =
            (refl, ne, set_prev-prev (set_next h node null) node null, (cleared node h null, refl));
        distinct = (refl, tt);
      })
push_back-IsLinked node l h (x ∷ xs) links ne out =
    let (m, some_last) = last_mem h null l.head x xs l.tail null links.chain in
    let nonempty : (l.tail == null) ≡ false = ground arith in
    let apart : (node == l.tail) ≡ false = ne_of_has node l.tail (x ∷ xs) out m in
    let h0 = set_next h node null in
    let h1 = set_prev h0 node l.tail in
    let s0 = frame-set_next h node null null l.head (x ∷ xs) l.tail null links.chain out in
    let s1 = frame-set_prev h0 node l.tail null l.head (x ∷ xs) l.tail null s0 out in
    let s2 = set_next_last h1 node null l.head x xs l.tail null s1 links.distinct in
    rw nonempty (record {
      chain =
          append (set_next h1 l.tail node) null l.head (x ∷ xs) (node ∷ []) l.tail node node null s2
            (
              refl,
              ne,
              set_next-prev h1 l.tail node node ∙ set_prev-prev h0 node l.tail,
              (set_next-next_ne h1 l.tail node node apart ∙ cleared node h l.tail, refl),
            );
      distinct = Distinct-snoc node (x ∷ xs) links.distinct out;
    })

push_back_counters :
    (node : Ptr) (l : LinkedList) (h : Heap)
    → let (l', h') = list_push_back node l h in
      (l'.sdu_num ≡ add32 l.sdu_num 1) × (l'.sdu_bytes ≡ add32 l.sdu_bytes (h node).data_size)
unfolding list_push_back
push_back_counters node l h =
    (refl, ap (add32 l.sdu_bytes) ((push_back-SamePayload node l h).same_size node))

-- `list_push_back` of a node that is not in the list appends it, counts it and its bytes, and
-- changes nothing but links.
pub push_back-IsList :
    (node : Ptr) (l : LinkedList) (h : Heap) (xs : List Ptr)
    → IsList h l xs
    → node ≢ null
    → has node xs ≡ false
    → let (l', h') = list_push_back node l h in IsList h' l' (xs ++ node ∷ []) × SamePayload h h'
push_back-IsList node l h xs is ne out = (
  record {
    links = push_back-IsLinked node l h xs is.links ne out;
    counted = omega (arith, (push_back_counters node l h).0, length-append xs (node ∷ []));
    sized = omega (
      arith,
      (push_back_counters node l h).1,
      total_size-same h _ (xs ++ node ∷ []) (push_back-SamePayload node l h),
      total_size-append h xs (node ∷ []),
    );
  },
  push_back-SamePayload node l h,
)

-- The links that `unlink_front` leaves, in terms of the front node's own address.
unlink_front-IsLinked :
    (l : LinkedList) (h : Heap) (xs : List Ptr)
    → IsLinked h l.head l.tail (l.head ∷ xs)
    → IsLinked (unlink_front l h).1 (unlink_front l h).0.head (unlink_front l h).0.tail xs
unfolding unlink_front
unlink_front-IsLinked l h [] links =
    let (e, ne, back, (f, g)) = links.chain in rw f (record { chain = (refl, refl); distinct = tt })
unlink_front-IsLinked l h (y ∷ ys) links =
    let (e, ne, back, (f, ne', back', rest)) = links.chain in
    let out : has l.head (y ∷ ys) ≡ false = links.distinct.0 in
    let nonnull : (y == null) ≡ false = ground arith in
    let s0 =
      set_prev_first h null l.head y y ys l.tail null (refl, ne', back', rest) links.distinct.1.0 in
    let s1 = frame-set_next (set_prev h y null) l.head null null y (y ∷ ys) l.tail null s0 out in
    rw (f, nonnull)
      (record {
        chain = frame-set_prev _ l.head null null y (y ∷ ys) l.tail null s1 out;
        distinct = links.distinct.1;
      })

-- On an empty list `list_pop_front` returns NULL and changes nothing.
pub pop_front-nil : (l : LinkedList) (h : Heap) → IsList h l [] → list_pop_front l h ≡ (null, l, h)
unfolding list_pop_front
pop_front-nil l h is = rw is.links.chain.0

-- `list_pop_front` on a list with a first node: the result, by its parts.
pop_front-front :
    (l : LinkedList) (h : Heap)
    → l.head ≢ null
    → list_pop_front l h ≡ (l.head, (unlink_front l h).0, (unlink_front l h).1)
unfolding list_pop_front
pop_front-front l h ne = let nonnull : (l.head == null) ≡ false = ground arith in rw nonnull

unlink_front_counters :
    (l : LinkedList) (h : Heap)
    → let (l', h') = unlink_front l h in
      (l'.sdu_num ≡ sub32 l.sdu_num 1)
      × (l'.sdu_bytes ≡ sub32 l.sdu_bytes (h l.head).data_size)
      × SamePayload h h'
      × ((h' l.head).next ≡ null)
      × ((h' l.head).prev ≡ null)
unfolding unlink_front set_prev set_next
unlink_front_counters l h = (
  refl,
  ground arith,
  record {
    same_data = λ a. ground arith;
    same_tgt = λ a. ground arith;
    same_size = λ a. ground arith;
    same_lock = λ a. ground arith;
  },
  ground arith,
  ground arith,
)

-- `list_pop_front` returns the first node, unlinked; the rest stays in order, with the counters
-- of the rest, and nothing but links changes.
pub pop_front-cons :
    (l : LinkedList) (h : Heap) (x : Ptr) (xs : List Ptr)
    → IsList h l (x ∷ xs)
    → let (node, l', h') = list_pop_front l h in
      (node ≡ x) × IsList h' l' xs × SamePayload h h' × ((h' x).next ≡ null) × ((h' x).prev ≡ null)
pop_front-cons l h x xs is =
    let e : l.head ≡ x = is.links.chain.0 in
    let links = subst (λ z. IsLinked h l.head l.tail (z ∷ xs)) (sym e) is.links in
    let (num, bytes, same, nxt, back) = unlink_front_counters l h in
    rw (pop_front-front l h links.chain.1) (
      e,
      record {
        links = unlink_front-IsLinked l h xs links;
        counted = omega arith;
        sized = omega (arith, total_size-same h _ xs same, ap (λ z. (h z).data_size) e);
      },
      same,
      subst (λ z. ((unlink_front l h).1 z).next ≡ null) e nxt,
      subst (λ z. ((unlink_front l h).1 z).prev ≡ null) e back,
    )
