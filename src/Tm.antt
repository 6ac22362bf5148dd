-- ===== src/Tm.antt =====
-- The interface of the library (template/tm.c). A call runs as one step; `fuel` bounds the loops
-- over the dirty segments, and their number is enough. A function that mallocs takes the address.
use Prim.Native.Nat.{bit_or}
use transactional_memory.Base.{
  ℕ, zero, suc, ◌+◌, ◌-◌, ◌%◌, ◌^◌, Bool, true, false, not, ◌&&◌, Option, none, some, Run, ok,
  fault, out_of_fuel, ◌>>=◌, ltb, leb, ◌==◌, if◌then◌else◌,
}
use transactional_memory.Opaque.{
  get_opaque_ptr_word, get_opaque_ptr_seg_word, get_opaque_ptr_seg, get_word_seg_offset,
  read_only_tx, is_tx_readonly,
}
use transactional_memory.Segment.{
  Bytes, Segment, memcpy, cons_opaque_ptr_for_seg, _tm_read, _tm_write,
}
use transactional_memory.Segment.Alloc.{alloc_segment}
use transactional_memory.Links.{Ptr, null, Heap, load, link_remove}
use transactional_memory.Batcher.{init_batcher, enter_batcher}
use transactional_memory.Region.{
  Segs, store_seg, load_seg, Region, move_to_dirty, link_insert, rollback_transaction,
  leave_batcher,
}
pub mod Begin
pub mod Access
pub mod Memory
pub mod Create
pub mod Tests

-- `alloc_t`
abbrev pub success_alloc : ℕ
success_alloc = 0

abbrev pub nomem_alloc : ℕ
nomem_alloc = 2

-- The conversion of `trans_counter`, an `int`, to `tx_t`: a negative number is sign-extended.
unfoldable pub int_to_tx : ℕ → ℕ
int_to_tx c = if ltb c (2 ^ 31) then c else c + (2 ^ 64 - 2 ^ 32)

unfoldable pub next_tx : (trans_counter : ℕ) → (is_ro : Bool) → ℕ
next_tx c is_ro = if is_ro then bit_or (int_to_tx c) read_only_tx else int_to_tx c

-- `tm_begin`: the transaction, the counter, whether the caller goes on at once, and the region.
unfoldable pub tm_begin : (trans_counter : ℕ) → (is_ro : Bool) → Region → ℕ × ℕ × Bool × Region
tm_begin c is_ro r =
    let x = enter_batcher r.batcher in
    (next_tx c is_ro, (c + 1) % 2 ^ 32, x.0, record r { batcher = x.1 })

unfoldable pub tm_end : (fuel : ℕ) → Region → Run (Bool × Region)
tm_end fuel r = leave_batcher fuel r >>= λ r'. ok (true, r')

unfoldable pub tm_start : Region → Run ℕ
tm_start r = load_seg r.start r.segs >>= λ seg. ok (cons_opaque_ptr_for_seg seg)

unfoldable pub tm_size : Region → Run ℕ
tm_size r = do l ← load r.seg_links r.links; seg ← load_seg l.seg r.segs; ok seg.size

abbrev pub tm_align : Region → ℕ
tm_align r = r.align

-- The address of the segment of an opaque pointer. A shift that is undefined is a fault.
unfoldable pub find_seg : ℕ → Run Ptr
find_seg ptr = elim (get_opaque_ptr_seg_word ptr (get_opaque_ptr_word ptr)) [
  | none ↦ fault
  | some p ↦ ok p
]

-- A call that was refused aborts its transaction.
unfoldable pub abort : (fuel tx : ℕ) → Region → Run Region
abort fuel tx r = rollback_transaction fuel tx r >>= leave_batcher fuel

-- `tm_read`, once the segment is found: the answer, the private buffer, and the region.
unfoldable pub read_seg :
    (fuel tx size : ℕ)
    → (target : Bytes) → (p : Ptr) → Segment
    → (read_offset : ℕ) → Region
    → Run (Bool × Bytes × Region)
read_seg fuel tx size target p seg read_offset r = do
  x ← _tm_read r.align tx size target seg read_offset
  let r' = record r { segs = store_seg p (some x.1) r.segs }
  r'' ←
      if x.0
      then (if is_tx_readonly tx
          then ok r'
          else (if leb (read_offset + size) seg.size then move_to_dirty p r' else fault))
      else abort fuel tx r'
  let copied = x.0 && not (is_tx_readonly tx)
  ok (x.0, if copied then memcpy x.2 0 x.1.write read_offset size else x.2, r'')

unfoldable pub tm_read :
    (fuel tx : ℕ) → (source size : ℕ) → (target : Bytes) → Region → Run (Bool × Bytes × Region)
tm_read fuel tx source size target r = do
  p ← find_seg source
  seg ← load_seg p r.segs
  read_seg fuel tx size target p seg (get_word_seg_offset (get_opaque_ptr_word source) seg.read_at)
      r

-- `tm_write`, once the segment is found.
unfoldable pub write_seg :
    (fuel tx : ℕ)
    → (source : Bytes) → (size : ℕ) → (p : Ptr) → Segment
    → (write_offset : ℕ) → Region
    → Run (Bool × Region)
write_seg fuel tx source size p seg write_offset r = do
  x ← _tm_write r.align tx source size seg write_offset
  let r' = record r { segs = store_seg p (some x.1) r.segs }
  r'' ← if x.0 then move_to_dirty p r' else abort fuel tx r'
  ok (x.0, r'')

unfoldable pub tm_write :
    (fuel tx : ℕ) → (source : Bytes) → (size target : ℕ) → Region → Run (Bool × Region)
tm_write fuel tx source size target r = do
  p ← find_seg target
  seg ← load_seg p r.segs
  write_seg fuel tx source size p seg (get_word_seg_offset (get_opaque_ptr_word target) seg.read_at)
      r

-- `tm_alloc`: the result, `*target` where it is set, and the region. `link` is the address of the
-- new link.
unfoldable pub tm_alloc :
    (memalign : ℕ → ℕ → Option ℕ) → (link tx size : ℕ) → Region → Run (ℕ × Option ℕ × Region)
tm_alloc memalign link tx size r = alloc_segment memalign r.align size tx >>= λ o. elim o [
  | none ↦ ok (nomem_alloc, none, r)
  | some (p, seg) ↦
      link_insert r.dirty_seg_links p link r.links (store_seg p (some seg) r.segs) >>= λ x. ok (
        success_alloc,
        some (cons_opaque_ptr_for_seg seg),
        record r { dirty_seg_links = x.0; links = x.1; segs = x.2 },
      )
]

unfoldable pub tm_free : (tx target : ℕ) → Region → Run (Bool × Region)
tm_free tx target r = do
  p ← elim (get_opaque_ptr_seg target) [ none ↦ fault | some p ↦ ok p ]
  seg ← load_seg p r.segs
  let seg' = record seg { should_free = true; owner = tx }
  r' ← move_to_dirty p (record r { segs = store_seg p (some seg') r.segs })
  ok (true, r')

-- `tm_create`, on an empty memory of links and segments, with what `malloc` gives for the region and
-- the batcher; `none` is `invalid_shared`. The code writes to both before its test of `region`, so
-- that where either is NULL it is a fault, and the test never succeeds.
unfoldable pub tm_create :
    (memalign : ℕ → ℕ → Option ℕ)
    → (region batcher : Option Ptr) → (link size align : ℕ) → Run (Option Region)
tm_create memalign none batcher link size align = fault
tm_create memalign (some region) none link size align = fault
tm_create memalign (some region) (some batcher) link size align =
    alloc_segment memalign align size 0 >>= λ o. elim o [
      | none ↦ ok none
      | some (p, seg) ↦
          let seg' = record seg { dirty = false; newly_alloc = false } in
          link_insert null p link (λ _. none) (store_seg p (some seg') (λ _. none)) >>= λ x. ok (
            some (record {
              align = align;
              batcher = init_batcher;
              seg_links = x.0;
              dirty_seg_links = null;
              start = p;
              links = x.1;
              segs = x.2;
            }))
    ]

-- The loop of `tm_destroy`: it frees the segments behind the base, and the base's last.
unfoldable pub destroy_links : (fuel : ℕ) → (link : Ptr) → Region → Run Region
destroy_links zero link r = out_of_fuel
destroy_links (suc fuel) link r = do
  let is_last = link == r.seg_links
  l ← load link r.links
  x ← link_remove r.seg_links link true r.links
  let r' = record r { seg_links = x.0; links = x.2; segs = store_seg l.seg none r.segs }
  if is_last then ok r' else destroy_links fuel l.next r'

unfoldable pub tm_destroy : (fuel : ℕ) → Region → Run Region
tm_destroy fuel r = load r.seg_links r.links >>= λ b. destroy_links fuel b.next r
