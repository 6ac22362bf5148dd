-- ===== src/Links.antt =====
-- The circular doubly linked lists of segments (template/link.h, template/link.c) over an explicit
-- heap of links. A list is named by its base pointer, 0 for the empty one.
use transactional_memory.Base.{
  ℕ, Bool, true, false, Option, none, some, Run, ok, fault, ◌>>=◌, ◌>>◌, ◌==◌, if◌then◌else◌,
}
pub mod Ring
pub mod Insert
pub mod Remove
pub mod Transfer
pub mod Discard
pub mod Tests

abbrev pub Ptr : Type 0
Ptr = ℕ

abbrev pub null : Ptr
null = 0

-- `link_t`
pub record Link : Type 0 where
  pub seg : Ptr
  pub prev : Ptr
  pub next : Ptr

abbrev pub Heap : Type 0
Heap = Ptr → Option Link

unfoldable pub store : Ptr → Option Link → Heap → Heap
store p l h q = if q == p then l else h q

-- A read through a pointer faults where no link is.
unfoldable pub load : Ptr → Heap → Run Link
load p h = elim (h p) [ none ↦ fault | some l ↦ ok l ]

-- `p->prev = q` and `p->next = q`
unfoldable pub set_prev : (p q : Ptr) → Heap → Run Heap
set_prev p q h = load p h >>= λ l. ok (store p (some (record l { prev = q })) h)

unfoldable pub set_next : (p q : Ptr) → Heap → Run Heap
set_next p q h = load p h >>= λ l. ok (store p (some (record l { next = q })) h)

-- `_link_insert(base, link)`: the new base pointer and heap. The test of `(*base)->prev` for `NULL`
-- is made only where `*base` is not.
unfoldable pub insert_alone : (link : Ptr) → Heap → Run (Ptr × Heap)
insert_alone link h = do h ← set_prev link link h; h ← set_next link link h; ok (link, h)

unfoldable pub insert_last : (base link : Ptr) → Heap → Run (Ptr × Heap)
insert_last base link h = do
  b ← load base h
  h ← set_prev link b.prev h
  h ← set_next link base h
  h ← set_prev base link h
  h ← set_next b.prev link h
  ok (base, h)

unfoldable pub _link_insert : (base link : Ptr) → Heap → Run (Ptr × Heap)
_link_insert base link h =
    if base == null
    then insert_alone link h
    else (load base h >>= λ b.
        if b.prev == null then insert_alone link h else insert_last base link h)

-- `link_remove(base, &link, lock_taken, discard)`: the new base pointer, the new value of the
-- variable that held the link, and the heap. The lock is the caller's.
unfoldable pub link_remove : (base link : Ptr) → (discard : Bool) → Heap → Run (Ptr × Ptr × Heap)
link_remove base link discard h = do
  l ← load link h
  h ← set_next l.prev l.next h
  h ← set_prev l.next l.prev h
  let base' = if link == base then l.next else base
  let base'' = if l.prev == link then null else base'
  if discard then ok (base'', null, store link none h) else ok (base'', link, h)

-- `link_remove(&from, &link, true, false); _link_insert(&to, link);`: the new base pointers, and the
-- heap.
unfoldable pub transfer : (from to link : Ptr) → Heap → Run (Ptr × Ptr × Heap)
transfer from to link h = do
  x ← link_remove from link false h
  y ← _link_insert to link x.2
  ok (x.0, y.0, y.1)
