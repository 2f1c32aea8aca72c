-- ===== src/LinkedList.antt =====
-- kernel/llist.c and kernel/llist.h of the RLC test (software/tests/
-- multi_producer_single_consumer_double_linked_list): a doubly linked list of packet nodes.
-- The heap maps an address to the node there, and 0 is NULL. Each operation is the body between
-- its `spin_lock` and its `spin_unlock`: `SpinLock` shows that no other core runs meanwhile.
pub mod Seg
pub mod Laws
pub mod Frame
pub mod Remove
mod Examples
use many_rvdata.Base.{ℕ, ◌+◌, ◌≡◌, ◌==◌, not, if◌then◌else◌, add32, sub32}

abbrev pub Ptr : Type 0
Ptr = ℕ

abbrev pub null : Ptr
null = 0

-- `size_t` and pointers have 32 bits: a node has six words
pub record Node : Type 0 where
  pub prev : Ptr
  pub next : Ptr
  pub data_ : Ptr
  pub tgt : Ptr
  pub data_size : ℕ
  pub lock : ℕ

abbrev pub Heap : Type 0
Heap = Ptr → Node

pub record LinkedList : Type 0 where
  pub head : Ptr
  pub tail : Ptr
  pub sdu_num : ℕ
  pub sdu_bytes : ℕ
  pub lock : ℕ

abbrev pub update : Heap → Ptr → Node → Heap
update h p n a = if a == p then n else h a

-- `p->prev = q` and `p->next = q`
unfoldable pub set_prev : Heap → Ptr → Ptr → Heap
set_prev h p q = update h p (record (h p) { prev = q })

unfoldable pub set_next : Heap → Ptr → Ptr → Heap
set_next h p q = update h p (record (h p) { next = q })

unfoldable pub list_init : LinkedList
list_init = record { head = null; tail = null; sdu_num = 0; sdu_bytes = 0; lock = 0 }

unfoldable pub list_push_back : Ptr → LinkedList → Heap → LinkedList × Heap
list_push_back node l h =
    let h1 = set_prev (set_next h node null) node l.tail in
    let h2 = if l.tail == null then h1 else set_next h1 l.tail node in
    let head' = if l.tail == null then node else l.head in
    (
      record l {
        head = head';
        tail = node;
        sdu_num = add32 l.sdu_num 1;
        sdu_bytes = add32 l.sdu_bytes (h2 node).data_size;
      },
      h2,
    )

-- the branch of `list_pop_front` on a list with a first node
unfoldable pub unlink_front : LinkedList → Heap → LinkedList × Heap
unlink_front l h =
    let node = l.head in
    let head' = (h node).next in
    let h1 = if head' == null then h else set_prev h head' null in
    let tail' = if head' == null then null else l.tail in
    let h2 = set_prev (set_next h1 node null) node null in
    (
      record l {
        head = head';
        tail = tail';
        sdu_num = sub32 l.sdu_num 1;
        sdu_bytes = sub32 l.sdu_bytes (h2 node).data_size;
      },
      h2,
    )

-- the node that was in front, or NULL
unfoldable pub list_pop_front : LinkedList → Heap → Ptr × LinkedList × Heap
unfolding unlink_front
list_pop_front l h =
    if l.head == null then (null, l, h) else (l.head, (unlink_front l h).0, (unlink_front l h).1)

-- `list_remove` leaves the two counters as they are
unfoldable pub list_remove : Ptr → LinkedList → Heap → LinkedList × Heap
list_remove node l h =
    let before = (h node).prev in
    let h1 = if before == null then h else set_next h before (h node).next in
    let head' = if before == null then (h node).next else l.head in
    let after = (h1 node).next in
    let h2 = if after == null then h1 else set_prev h1 after (h1 node).prev in
    let tail' = if after == null then (h1 node).prev else l.tail in
    (record l { head = head'; tail = tail' }, set_next (set_prev h2 node null) node null)
