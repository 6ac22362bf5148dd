-- ===== src/Reference.antt =====
-- The reference implementation (reference/tm.c): one global lock, and segments in a circular list
-- through `region->allocs`. The store holds the links, the bytes and the blocks that `malloc` and
-- `posix_memalign` gave and that are not freed. What these give is an argument, `none` for a
-- failure, and so is whether the lock could be initialised or acquired. The lock is the one that
-- the file configures, USE_RW_LOCK.
use transactional_memory.Base.{
  ℕ, zero, suc, ◌+◌, ◌-◌, ◌*◌, ◌/◌, ◌^◌, Bool, true, false, ◌&&◌, Option, none, some, Run, ok,
  fault, out_of_fuel, ◌>>=◌, ltb, leb, ◌==◌, if◌then◌else◌,
}
use transactional_memory.Words.{add64, sub64}
pub mod Layout
pub mod Allocs
pub mod Destroy
pub mod Owned
pub mod Create
pub mod Tests

abbrev pub Ptr : Type 0
Ptr = ℕ

-- `struct link`
pub record Link : Type 0 where
  pub prev : Ptr
  pub next : Ptr

pub record Store : Type 0 where
  pub links : Ptr → Option Link
  pub bytes : ℕ → ℕ
  pub blocks : Ptr → Bool

abbrev pub put_link : Ptr → Option Link → (Ptr → Option Link) → Ptr → Option Link
put_link p l f q = if q == p then l else f q

unfoldable pub load : Ptr → Store → Run Link
load p s = elim (s.links p) [ none ↦ fault | some l ↦ ok l ]

abbrev pub set_link : Ptr → Option Link → Store → Store
set_link p l s = record s { links = put_link p l s.links }

-- `p->prev = q` and `p->next = q`
unfoldable pub set_prev : (p q : Ptr) → Store → Run Store
set_prev p q s = load p s >>= λ l. ok (set_link p (some (record l { prev = q })) s)

unfoldable pub set_next : (p q : Ptr) → Store → Run Store
set_next p q s = load p s >>= λ l. ok (set_link p (some (record l { next = q })) s)

unfoldable pub link_ref_reset : (link : Ptr) → Store → Run Store
link_ref_reset link s = do s ← set_prev link link s; set_next link link s

unfoldable pub link_ref_insert : (link base : Ptr) → Store → Run Store
link_ref_insert link base s = do
  b ← load base s
  s ← set_prev link b.prev s
  s ← set_next link base s
  s ← set_prev base link s
  set_next b.prev link s

unfoldable pub link_ref_remove : (link : Ptr) → Store → Run Store
link_ref_remove link s = do l ← load link s; s ← set_next l.prev l.next s; set_prev l.next l.prev s

-- A block from the allocator. A block that is to hold a link holds it at `link`, with its fields not
-- set.
abbrev pub mark_block : Ptr → Bool → Store → Store
mark_block p b s = record s { blocks = λ q. if q == p then b else s.blocks q }

abbrev pub take_block : (p link : Ptr) → Store → Store
take_block p link s = set_link link (some (record { prev = 0; next = 0 })) (mark_block p true s)

-- `free`, of a block that may hold a link. Of what is no block it is undefined.
unfoldable pub free_block : (p link : Ptr) → Store → Run Store
free_block p link s = if s.blocks p then ok (set_link link none (mark_block p false s)) else fault

-- `memset(p, 0, size)` and `memcpy(target, source, size)`
abbrev pub in_range : (start size address : ℕ) → Bool
in_range start size address = leb start address && ltb address (start + size)

abbrev pub memset_zero : (start size : ℕ) → Store → Store
memset_zero start size s = record s { bytes = λ a. if in_range start size a then 0 else s.bytes a }

abbrev pub memcpy : (target source size : ℕ) → Store → Store
memcpy target source size s = record s {
  bytes = λ a. if in_range target size a then s.bytes (source + (a - target)) else s.bytes a;
}

-- `struct region`, but for its lock and `allocs`; `region` is its address.
pub record Region : Type 0 where
  pub region : Ptr
  pub start : Ptr
  pub size : ℕ
  pub align : ℕ
  pub align_alloc : ℕ
  pub delta_alloc : ℕ

-- `sizeof(void*)` and `sizeof(struct link)`
abbrev pub pointer_size : ℕ
pointer_size = 8

abbrev pub link_size : ℕ
link_size = 16

unfoldable pub align_alloc_of : (align : ℕ) → ℕ
align_alloc_of align = if ltb align pointer_size then pointer_size else align

-- `(sizeof(struct link) + align_alloc - 1) / align_alloc * align_alloc`
unfoldable pub delta_alloc_of : (align_alloc : ℕ) → ℕ
delta_alloc_of align_alloc = sub64 (add64 link_size align_alloc) 1 / align_alloc * align_alloc

-- `sizeof(struct lock_t)`: that of `pthread_rwlock_t` on x86-64 with glibc.
abbrev pub lock_size : ℕ
lock_size = 56

-- `&(region->allocs)`, behind the lock and `start`.
abbrev pub allocs_of : Ptr → Ptr
allocs_of region = region + (lock_size + pointer_size)

-- Past the checks.
unfoldable pub new_region : (size align : ℕ) → (region start : Ptr) → Store → Run (Region × Store)
new_region size align region start s = do
  s ← link_ref_reset (allocs_of region) (memset_zero start size s)
  ok (
    record {
      region = region;
      start = start;
      size = size;
      align = align;
      align_alloc = align_alloc_of align;
      delta_alloc = delta_alloc_of (align_alloc_of align);
    },
    s,
  )

-- `tm_create`: `none` is `invalid_shared`.
unfoldable pub tm_create :
    (size align : ℕ)
    → (region start : Option Ptr) → (lock_init : Bool) → Store
    → Run (Option Region × Store)
tm_create size align none start lock_init s = ok (none, s)
tm_create size align (some region) none lock_init s =
    free_block region (allocs_of region) (take_block region (allocs_of region) s) >>= λ s'.
    ok (none, s')
tm_create size align (some region) (some start) false s =
    free_block start start (mark_block start true (take_block region (allocs_of region) s))
    >>= λ s'. free_block region (allocs_of region) s' >>= λ s''. ok (none, s'')
tm_create size align (some region) (some start) true s =
    new_region size align region start
      (mark_block start true (take_block region (allocs_of region) s))
    >>= λ r. ok (some r.0, r.1)

-- The loop of `tm_destroy`.
unfoldable pub free_allocs : (fuel : ℕ) → (allocs : Ptr) → Store → Run Store
free_allocs zero allocs s = out_of_fuel
free_allocs (suc fuel) allocs s = load allocs s >>= λ b. elim (b.next == allocs) [
  | true ↦ ok s
  | false ↦ link_ref_remove b.next s >>= λ s'.
      free_block b.next b.next s' >>= λ s''. free_allocs fuel allocs s''
]

-- `tm_destroy` up to the release of the region.
unfoldable pub free_region : (fuel : ℕ) → Region → Store → Run Store
free_region fuel r s = do
  s ← free_allocs fuel (allocs_of r.region) s
  s ← free_block r.start r.start s
  free_block r.region (allocs_of r.region) s

-- `lock_cleanup(&(region->lock))`: `pthread_rwlock_destroy` of a lock in a block that is freed is a
-- fault.
unfoldable pub lock_cleanup : (region : Ptr) → Store → Run Store
lock_cleanup region s = if s.blocks region then ok s else fault

unfoldable pub tm_destroy : (fuel : ℕ) → Region → Store → Run Store
tm_destroy fuel r s = free_region fuel r s >>= lock_cleanup r.region

abbrev pub tm_start : Region → Ptr
tm_start r = r.start

abbrev pub tm_size : Region → ℕ
tm_size r = r.size

abbrev pub tm_align : Region → ℕ
tm_align r = r.align

-- `UINTPTR_MAX - 10` and `UINTPTR_MAX - 11`
abbrev pub read_only_ref_tx : ℕ
read_only_ref_tx = 2 ^ 64 - 11

abbrev pub read_write_tx : ℕ
read_write_tx = 2 ^ 64 - 12

abbrev pub invalid_tx : ℕ
invalid_tx = 2 ^ 64 - 1

-- `tm_begin`; `acquired` is what `lock_acquire_shared` and `lock_acquire` give.
unfoldable pub tm_begin : (acquired is_ro : Bool) → ℕ
tm_begin acquired is_ro =
    if acquired then (if is_ro then read_only_ref_tx else read_write_tx) else invalid_tx

-- Which release `tm_end` calls.
pub data Release : Type 0 where
  shared : Release
  exclusive : Release

unfoldable pub tm_end : (tx : ℕ) → Release × Bool
tm_end tx = (if tx == read_only_ref_tx then shared else exclusive, true)

unfoldable pub tm_read : (source size target : ℕ) → Store → Bool × Store
tm_read source size target s = (true, memcpy target source size s)

unfoldable pub tm_write : (source size target : ℕ) → Store → Bool × Store
tm_write source size target s = (true, memcpy target source size s)

-- `tm_alloc`: `none` is `nomem_alloc`, else it is the address that `*target` gets.
unfoldable pub tm_alloc :
    (size : ℕ) → (segment : Option Ptr) → Region → Store → Run (Option Ptr × Store)
tm_alloc size none r s = ok (none, s)
tm_alloc size (some segment) r s =
    link_ref_insert segment (allocs_of r.region) (take_block segment segment s) >>= λ s'.
    ok (some (add64 segment r.delta_alloc), memset_zero (add64 segment r.delta_alloc) size s')

unfoldable pub tm_free : (segment : Ptr) → Region → Store → Run Store
tm_free segment r s = do
  s ← link_ref_remove (sub64 segment r.delta_alloc) s
  free_block (sub64 segment r.delta_alloc) (sub64 segment r.delta_alloc) s
