-- ===== src/LinkedList/Examples.antt =====
-- The list operations on two packets, and their theorems there.
use many_rvdata.Base.{◌≡◌, refl, [], ◌∷◌, arith}
use many_rvdata.LinkedList.{
  null, Heap, LinkedList, list_init, list_push_back, list_pop_front, list_remove, set_prev,
  set_next,
}
use many_rvdata.LinkedList.Laws.{
  IsLinked, IsList, SamePayload, list_init-IsList, push_back-IsList, pop_front-cons,
}
use many_rvdata.LinkedList.Remove.{list_remove-IsLinked}

-- every page holds an unlinked packet of 1350 bytes
abbrev packets : Heap
packets a = record { prev = 0; next = 0; data_ = 0; tgt = 0; data_size = 1350; lock = 0 }

one : LinkedList × Heap
one = list_push_back 24 list_init packets

one-IsList : IsList one.1 one.0 (24 ∷ [])
unfolding one
one-IsList =
    (push_back-IsList 24 list_init packets [] (list_init-IsList packets) (omega arith) refl).0

two : LinkedList × Heap
two = list_push_back 48 one.0 one.1

two_counters :
    (two.0.sdu_num ≡ 2) × (two.0.sdu_bytes ≡ 2700) × (two.0.head ≡ 24) × (two.0.tail ≡ 48)
unfolding two one list_init list_push_back set_prev set_next
two_counters = (refl, refl, refl, refl)

two-IsList : IsList two.1 two.0 (24 ∷ 48 ∷ [])
unfolding two
two-IsList = (push_back-IsList 48 one.0 one.1 (24 ∷ []) one-IsList (omega arith) refl).0

push_back-IsList_example : IsList two.1 two.0 (24 ∷ 48 ∷ []) × SamePayload one.1 two.1
unfolding two
push_back-IsList_example = push_back-IsList 48 one.0 one.1 (24 ∷ []) one-IsList (omega arith) refl

pop_front-cons_example :
    let (node, l', h') = list_pop_front two.0 two.1 in
    (node ≡ 24)
    × IsList h' l' (48 ∷ [])
    × SamePayload two.1 h'
    × ((h' 24).next ≡ null)
    × ((h' 24).prev ≡ null)
pop_front-cons_example = pop_front-cons two.0 two.1 24 (48 ∷ []) two-IsList

list_remove-IsLinked_example :
    let (l', h') = list_remove 24 two.0 two.1 in
    IsLinked h' l'.head l'.tail (48 ∷ [])
    × SamePayload two.1 h'
    × ((h' 24).next ≡ null)
    × ((h' 24).prev ≡ null)
    × (l'.sdu_num ≡ two.0.sdu_num)
    × (l'.sdu_bytes ≡ two.0.sdu_bytes)
list_remove-IsLinked_example = list_remove-IsLinked 24 two.0 two.1 [] (48 ∷ []) two-IsList.links
