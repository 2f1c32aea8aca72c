-- ===== src/LinkedList/Frame.antt =====
-- The operations on one list leave the nodes of another list alone.
use many_rvdata.Base.{◌≡◌, ◌≢◌, refl, ap, true, false, List, [], ◌∷◌, arith, ◌==◌}
use many_rvdata.LinkedList.{
  Ptr, null, Heap, LinkedList, set_prev, set_next, list_push_back, list_pop_front,
}
use many_rvdata.LinkedList.Seg.{has, ne_of_has, frame, last_mem}
use many_rvdata.LinkedList.Laws.{IsList, total_size}

total_size-frame :
    (h g : Heap) (xs : List Ptr)
    → ((a : Ptr) → has a xs ≡ true → g a ≡ h a)
    → total_size g xs ≡ total_size h xs
total_size-frame h g [] same = refl
total_size-frame h g (x ∷ xs) same = omega (
  arith,
  ap (λ n. n.data_size) (same x (ground arith)),
  total_size-frame h g xs (λ a m. same a (ground arith)),
)

pub IsList-frame :
    (h g : Heap) (l : LinkedList) (xs : List Ptr)
    → IsList h l xs
    → ((a : Ptr) → has a xs ≡ true → g a ≡ h a)
    → IsList g l xs
IsList-frame h g l xs is same = record {
  links = record {
    chain = frame h g null l.head xs l.tail null is.links.chain same;
    distinct = is.links.distinct;
  };
  counted = is.counted;
  sized = omega (arith, is.sized, total_size-frame h g xs same);
}

pub push_back-other :
    (node : Ptr) (l : LinkedList) (h : Heap) (xs : List Ptr) (a : Ptr)
    → IsList h l xs
    → has a xs ≡ false
    → a ≢ node
    → (list_push_back node l h).1 a ≡ h a
unfolding list_push_back set_prev set_next
push_back-other node l h [] a is out ne = ground (arith, is.links.chain.1)
push_back-other node l h (x ∷ xs) a is out ne =
    let (m, some_last) = last_mem h null l.head x xs l.tail null is.links.chain in
    let apart : (a == l.tail) ≡ false = ne_of_has a l.tail (x ∷ xs) out m in
    let nonempty : (l.tail == null) ≡ false = ground arith in rw nonempty (ground arith)

pub pop_front-other :
    (l : LinkedList) (h : Heap) (x : Ptr) (xs : List Ptr) (a : Ptr)
    → IsList h l (x ∷ xs)
    → has a (x ∷ xs) ≡ false
    → (list_pop_front l h).2 a ≡ h a
unfolding list_pop_front set_prev set_next
pop_front-other l h x [] a is out = let (e, ne, back, (f, g)) = is.links.chain in ground arith
pop_front-other l h x (y ∷ ys) a is out =
    let (e, ne, back, (f, ne', back', rest)) = is.links.chain in
    ground (arith, ap (λ z. (h z).next) e)
