-- ===== src/LinkedList/Seg.antt =====
-- Segments of a doubly linked list, and the facts by which the operations keep them.
use many_rvdata.Base.{
  ◌≡◌, ◌≢◌, refl, ap, Bool, true, false, ◌||◌, List, [], ◌∷◌, ◌++◌, arith, ◌==◌, Bool-cases, inl,
  inr,
}
use many_rvdata.LinkedList.{Ptr, null, Heap, set_prev, set_next}

abbrev pub has : Ptr → List Ptr → Bool
has a [] = false
has a (x ∷ xs) = (a == x) || has a xs

pub has-append : (a : Ptr) (xs ys : List Ptr) → has a (xs ++ ys) ≡ (has a xs || has a ys)
has-append a [] ys = refl
has-append a (x ∷ xs) ys = ground (arith, has-append a xs ys)

abbrev pub Distinct : List Ptr → Type 0
Distinct [] = Unit {0}
Distinct (x ∷ xs) = (has x xs ≡ false) × Distinct xs

-- From `p`, whose back pointer is `prev`, the nodes `xs` lead to `last`, whose successor is `next`.
abbrev pub Seg : Heap → (prev p : Ptr) → List Ptr → (last next : Ptr) → Type 0
Seg h prev p [] last next = (p ≡ next) × (last ≡ prev)
Seg h prev p (x ∷ xs) last next =
    (p ≡ x) × (x ≢ null) × ((h x).prev ≡ prev) × Seg h x (h x).next xs last next

-- A segment reads the heap at its own nodes only.
pub frame :
    (h g : Heap) (prev p : Ptr) (xs : List Ptr) (last next : Ptr)
    → Seg h prev p xs last next
    → ((a : Ptr) → has a xs ≡ true → g a ≡ h a)
    → Seg g prev p xs last next
frame h g prev p [] last next s same = s
frame h g prev p (x ∷ xs) last next (e, ne, back, rest) same =
    let here : g x ≡ h x = same x (ground arith) in
    (
      e,
      ne,
      rw here back,
      rw here (frame h g x (h x).next xs last next rest (λ a m. same a (ground arith))),
    )

-- Two segments that meet make one, and a segment comes apart at any place.
pub append :
    (h : Heap) (prev p : Ptr) (xs ys : List Ptr) (mid q last next : Ptr)
    → Seg h prev p xs mid q
    → Seg h mid q ys last next
    → Seg h prev p (xs ++ ys) last next
append h prev p [] ys mid q last next (e, f) t = rw (e, ← f) t
append h prev p (x ∷ xs) ys mid q last next (e, ne, back, rest) t =
    (e, ne, back, append h x (h x).next xs ys mid q last next rest t)

pub split :
    (h : Heap) (prev p : Ptr) (xs ys : List Ptr) (last next : Ptr)
    → Seg h prev p (xs ++ ys) last next
    → (mid : Ptr) × (q : Ptr) × Seg h prev p xs mid q × Seg h mid q ys last next
split h prev p [] ys last next s = (prev, p, (refl, refl), s)
split h prev p (x ∷ xs) ys last next (e, ne, back, rest) =
    let (mid, q, s, t) = split h x (h x).next xs ys last next rest in (mid, q, (e, ne, back, s), t)

pub set_prev-prev : (h : Heap) (a v : Ptr) → (set_prev h a v a).prev ≡ v
unfolding set_prev
set_prev-prev h a v = ground arith

pub set_prev-next : (h : Heap) (a v b : Ptr) → (set_prev h a v b).next ≡ (h b).next
unfolding set_prev
set_prev-next h a v b = ground arith

pub set_next-prev : (h : Heap) (a v b : Ptr) → (set_next h a v b).prev ≡ (h b).prev
unfolding set_next
set_next-prev h a v b = ground arith

pub set_next-next : (h : Heap) (a v : Ptr) → (set_next h a v a).next ≡ v
unfolding set_next
set_next-next h a v = ground arith

pub set_next-next_ne :
    (h : Heap) (a v b : Ptr) → (b == a) ≡ false → (set_next h a v b).next ≡ (h b).next
unfolding set_next
set_next-next_ne h a v b ne = ground arith

-- Writes elsewhere leave a segment as it is.
pub frame-set_next :
    (h : Heap) (a v prev p : Ptr) (xs : List Ptr) (last next : Ptr)
    → Seg h prev p xs last next
    → has a xs ≡ false
    → Seg (set_next h a v) prev p xs last next
unfolding set_next
frame-set_next h a v prev p xs last next s out =
    frame h (set_next h a v) prev p xs last next s (λ b m. ground arith)

pub frame-set_prev :
    (h : Heap) (a v prev p : Ptr) (xs : List Ptr) (last next : Ptr)
    → Seg h prev p xs last next
    → has a xs ≡ false
    → Seg (set_prev h a v) prev p xs last next
unfolding set_prev
frame-set_prev h a v prev p xs last next s out =
    frame h (set_prev h a v) prev p xs last next s (λ b m. ground arith)

-- The last node of a segment that has one is among its nodes, and is not NULL.
pub last_mem :
    (h : Heap) (prev p x : Ptr) (xs : List Ptr) (last next : Ptr)
    → Seg h prev p (x ∷ xs) last next
    → (has last (x ∷ xs) ≡ true) × (last ≢ null)
last_mem h prev p x [] last next (e, ne, back, (f, g)) = (ground arith, rw g ne)
last_mem h prev p x (y ∷ ys) last next (e, ne, back, rest) =
    let (m, n) = last_mem h x (h x).next y ys last next rest in (ground arith, n)

pub ne_of_has : (a b : Ptr) (xs : List Ptr) → has a xs ≡ false → has b xs ≡ true → (a == b) ≡ false
ne_of_has a b xs out m = elim (Bool-cases (a == b)) [
  | inl e ↦ let same : a ≡ b = ground arith in cc (out, m, ap (λ c. has c xs) same)
  | inr e ↦ e
]

-- Writing the successor of the last node moves the end of the segment.
pub set_next_last :
    (h : Heap) (v prev p x : Ptr) (xs : List Ptr) (last next : Ptr)
    → Seg h prev p (x ∷ xs) last next
    → Distinct (x ∷ xs)
    → Seg (set_next h last v) prev p (x ∷ xs) last v
unfolding set_next
set_next_last h v prev p x [] last next (e, ne, back, (f, g)) d =
    (e, ne, ground arith, (ground arith, g))
set_next_last h v prev p x (y ∷ ys) last next (e, ne, back, rest) (out, d) =
    let (m, n) = last_mem h x (h x).next y ys last next rest in
    let differs : (x == last) ≡ false = ne_of_has x last (y ∷ ys) out m in
    (e, ne, rw differs back, rw differs (set_next_last h v x (h x).next y ys last next rest d))

-- Writing the back pointer of the first node moves the start of the segment.
pub set_prev_first :
    (h : Heap) (v prev p x : Ptr) (xs : List Ptr) (last next : Ptr)
    → Seg h prev p (x ∷ xs) last next
    → has x xs ≡ false
    → Seg (set_prev h x v) v p (x ∷ xs) last next
set_prev_first h v prev p x xs last next (e, ne, back, rest) out = (
  e,
  ne,
  set_prev-prev h x v,
  rw (set_prev-next h x v x) (frame-set_prev h x v x (h x).next xs last next rest out),
)
