-- ===== src/Region.antt =====
-- The shared memory region (template/tm.h: `region_t`), with the memory that it reaches: the links
-- and the segments, each by its address. Its two lists of segments are those that no transaction
-- has touched in this epoch and the dirty ones (template/link.c). `region_t.size` is never set.
use transactional_memory.Base.{
  ℕ, zero, suc, Bool, true, false, not, ◌&&◌, ◌||◌, Option, none, some, Run, ok, fault, out_of_fuel,
  ◌>>=◌, ◌==◌, if◌then◌else◌,
}
use transactional_memory.Segment.{Segment, rollback_segment, publish, reset, is_released}
use transactional_memory.Links.{
  Ptr, null, Link, Heap, load, store, transfer, _link_insert, link_remove,
}
use transactional_memory.Batcher.{Batcher, count_out, next_epoch}
pub mod Lists
pub mod Move
pub mod Settle
pub mod Rollback
pub mod Cleaned
pub mod Cleanup
pub mod Leave
pub mod Insert
pub mod Tests

abbrev pub Segs : Type 0
Segs = Ptr → Option Segment

unfoldable pub store_seg : Ptr → Option Segment → Segs → Segs
store_seg p s m q = if q == p then s else m q

unfoldable pub load_seg : Ptr → Segs → Run Segment
load_seg p m = elim (m p) [ none ↦ fault | some s ↦ ok s ]

pub record Region : Type 0 where
  pub align : ℕ
  pub batcher : Batcher
  pub seg_links : Ptr
  pub dirty_seg_links : Ptr
  pub start : Ptr
  pub links : Heap
  pub segs : Segs

-- `move_to_dirty` and `move_to_clean`, past the `CAS` of `dirty`.
unfoldable pub put_dirty : Ptr → Segment → Region → Run Region
put_dirty p seg r = do
  x ← transfer r.seg_links r.dirty_seg_links seg.link r.links
  ok (record r {
    seg_links = x.0;
    dirty_seg_links = x.1;
    links = x.2;
    segs = store_seg p (some (record seg { dirty = true })) r.segs;
  })

unfoldable pub put_clean : Ptr → Segment → Region → Run Region
put_clean p seg r = do
  x ← transfer r.dirty_seg_links r.seg_links seg.link r.links
  ok (record r {
    dirty_seg_links = x.0;
    seg_links = x.1;
    links = x.2;
    segs = store_seg p (some (record seg { dirty = false })) r.segs;
  })

unfoldable pub move_to_dirty : Ptr → Region → Run Region
move_to_dirty p r = do seg ← load_seg p r.segs; if seg.dirty then ok r else put_dirty p seg r

unfoldable pub move_to_clean : Ptr → Region → Run Region
move_to_clean p r = do seg ← load_seg p r.segs; if seg.dirty then put_clean p seg r else ok r

-- `link_insert` of segment `p` into the list at `base`; `link` is the address that `malloc` gives.
-- What it leaves of the base pointer, the links and the segments.
unfoldable pub link_insert : (base p link : Ptr) → Heap → Segs → Run (Ptr × Heap × Segs)
link_insert base p link h m = do
  seg ← load_seg p m
  x ← _link_insert base link (store link (some (record { seg = p; prev = null; next = null })) h)
  ok (x.0, x.1, store_seg p (some (record seg { link = link })) m)

-- The loop of `rollback_transaction`, from `link` round to `base`.
unfoldable pub rollback_links : (fuel : ℕ) → (tx : ℕ) → (base link : Ptr) → Region → Run Region
rollback_links zero tx base link r = out_of_fuel
rollback_links (suc fuel) tx base link r = do
  l ← load link r.links
  seg ← load_seg l.seg r.segs
  let r' = record r { segs = store_seg l.seg (some (rollback_segment r.align tx seg)) r.segs }
  if link == base then ok r' else rollback_links fuel tx base l.next r'

unfoldable pub rollback_transaction : (fuel : ℕ) → (tx : ℕ) → Region → Run Region
rollback_transaction fuel tx r =
    if r.dirty_seg_links == null
    then ok r
    else (load r.dirty_seg_links r.links >>= λ b. rollback_links fuel tx r.dirty_seg_links b.next r)

-- The two branches of `epoch_cleanup` for the segment `p`.
unfoldable pub release : (p : Ptr) → Segment → Region → Run Region
release p seg r = do
  x ← link_remove r.dirty_seg_links seg.link true r.links
  ok (record r { dirty_seg_links = x.0; links = x.2; segs = store_seg p none r.segs })

unfoldable pub commit : (p : Ptr) → Segment → Region → Run Region
commit p seg r = do
  r ← move_to_clean p (record r { segs = store_seg p (some (publish r.align seg)) r.segs })
  seg ← load_seg p r.segs
  ok (record r { segs = store_seg p (some (reset seg)) r.segs })

unfoldable pub cleanup_segment : (p : Ptr) → Region → Run Region
cleanup_segment p r = do
  seg ← load_seg p r.segs
  if is_released seg then release p seg r else commit p seg r

-- The loop of `epoch_cleanup`. The assertions on a link that is not the last are faults.
unfoldable pub cleanup_links : (fuel : ℕ) → (link : Ptr) → Region → Run Region
cleanup_links zero link r = out_of_fuel
cleanup_links (suc fuel) link r = do
  let is_last = link == r.dirty_seg_links
  l ← load link r.links
  r' ← if not is_last && (l.prev == link || l.next == link) then fault else cleanup_segment l.seg r
  if is_last then ok r' else cleanup_links fuel l.next r'

unfoldable pub epoch_cleanup : (fuel : ℕ) → Region → Run Region
epoch_cleanup fuel r =
    if r.dirty_seg_links == null
    then ok r
    else (load r.dirty_seg_links r.links >>= λ b. cleanup_links fuel b.next r)

-- `leave_batcher`
unfoldable pub leave_batcher : (fuel : ℕ) → Region → Run Region
leave_batcher fuel r =
    let x = count_out r.batcher in
    let r' = record r { batcher = x.1 } in
    if x.0
    then (epoch_cleanup fuel r' >>= λ r''. ok (record r'' { batcher = next_epoch r''.batcher }))
    else ok r'
