-- ===== src/Tm/Memory.antt =====
-- `tm_alloc` and `tm_create` (template/tm.c): what a region looks like once memory is taken.
use transactional_memory.Base.{
  ℕ, ◌^◌, ◌≤◌, ◌<◌, ◌≡◌, refl, sym, ◌⊎◌, inl, inr, true, false, Option, none, some, List, [], ◌∷◌,
  ◌++◌, Run, ok, ◌>>=◌, Ensures, Ensures-bind, ◌==◌, Bool-cases, ==_iff, arith,
}
use transactional_memory.Words.{pow2_exp}
use transactional_memory.Segment.{Segment, cons_opaque_ptr_for_seg}
use transactional_memory.Segment.Alloc.{seg_size, new_segment}
use transactional_memory.Segment.Alloc.Layout.{IsBlock}
use transactional_memory.Segment.Alloc.Allocate.{IsMemalign, Allocated, alloc_segment-Allocated}
use transactional_memory.Links.{Ptr, Heap}
use transactional_memory.Links.Ring.{has, has-append, has-ne}
use transactional_memory.Region.{Segs, store_seg, Region, link_insert}
use transactional_memory.Region.Lists.{Held, IsRegion}
use transactional_memory.Region.Insert.{IsFresh, linked_segs, Entered, link_insert-Entered}
use transactional_memory.Tm.{success_alloc, nomem_alloc, tm_alloc}

-- A region whose dirty list has a new link, of a dirty segment.
module _ (r : Region) (cs ds : List Ptr) (v : IsRegion r cs ds) (x p : Ptr) (s : Segment)
    (new : IsFresh r.links r.segs x p ds cs) (y : Ptr × Heap × Segs)
    (done : Entered r.links r.segs x p s ds cs r.seg_links y) where
  abbrev pub grown_region : Region
  grown_region = record r { dirty_seg_links = y.0; links = y.1; segs = y.2 }

  grown_dirty : s.dirty ≡ true → (z : Ptr) → has z (ds ++ x ∷ []) ≡ true → Held y.1 y.2 true z
  grown_dirty flag z m = elim (Bool-cases (z == x)) [
    | inl e ↦ rw ((==_iff z x).0 e, sym flag) done.held_new
    | inr ne ↦ done.held_old true z ne (v.dirty_held z (ground (arith, has-append z ds (x ∷ []))))
  ]

  grown-IsRegion : s.dirty ≡ true → IsRegion grown_region cs (ds ++ x ∷ [])
  grown-IsRegion flag = record {
    clean = done.other;
    dirty = done.grown;
    apart = λ q m.
        let ne = has-ne q x cs m new.not_dirty in
        ground (arith, has-append q ds (x ∷ []), v.apart q m);
    clean_held = λ z m.
        let ne = has-ne z x cs m new.not_dirty in
        done.held_old false z (ground arith) (v.clean_held z m);
    dirty_held = grown_dirty flag;
  }

-- What `tm_alloc` gives: no memory and the region as it was, or an opaque pointer to a block with a
-- new segment of transaction `tx`, whose link is the last of the dirty list.
pub record IsAlloc (tx size link : ℕ) (r : Region) (cs ds : List Ptr) (p : Ptr)
    (y : ℕ × Option ℕ × Region) : Type 0 where
  pub success : y.0 ≡ success_alloc
  pub pointer : y.1 ≡ some (cons_opaque_ptr_for_seg (new_segment r.align size tx p))
  pub block : IsBlock r.align size p
  pub view : IsRegion y.2 cs (ds ++ link ∷ [])
  pub segs : y.2.segs ≡ linked_segs r.links r.segs link p (new_segment r.align size tx p)

abbrev pub AllocDone :
    (memalign : ℕ → ℕ → Option ℕ)
    → (tx size link : ℕ) → Region
    → (cs ds : List Ptr) → ℕ × Option ℕ × Region
    → Type 0
AllocDone memalign tx size link r cs ds y =
    let asked = 2 ^ pow2_exp (seg_size r.align size) in
    ((memalign asked asked ≡ none) × (y.0 ≡ nomem_alloc) × (y.1 ≡ none) × (y.2 ≡ r))
    ⊎ ((p : Ptr) × (memalign asked asked ≡ some p) × IsAlloc tx size link r cs ds p y)

new_segment-dirty : (align size tx p : ℕ) → (new_segment align size tx p).dirty ≡ true
unfolding new_segment
new_segment-dirty align size tx p = refl

module _ (memalign : ℕ → ℕ → Option ℕ) (link tx size : ℕ) (r : Region) (cs ds : List Ptr)
    (v : IsRegion r cs ds) (doc : IsMemalign memalign) (pos : 0 < r.align)
    (small : seg_size r.align size ≤ 2 ^ 30)
    (new : (p : Ptr)
      → memalign (2 ^ pow2_exp (seg_size r.align size)) (2 ^ pow2_exp (seg_size r.align size))
        ≡ some p
      → IsFresh r.links r.segs link p ds cs) where
  alloc_rest : Option (Ptr × Segment) → Run (ℕ × Option ℕ × Region)
  alloc_rest o = elim o [
    | none ↦ ok (nomem_alloc, none, r)
    | some (p, seg) ↦
        link_insert r.dirty_seg_links p link r.links (store_seg p (some seg) r.segs) >>= λ x. ok (
          success_alloc,
          some (cons_opaque_ptr_for_seg seg),
          record r { dirty_seg_links = x.0; links = x.1; segs = x.2 },
        )
  ]

  alloc_inserts :
      (p : Ptr) (block : IsBlock r.align size p)
      → memalign (2 ^ pow2_exp (seg_size r.align size)) (2 ^ pow2_exp (seg_size r.align size))
        ≡ some p
      → Ensures
          (AllocDone memalign tx size link r cs ds)
          (alloc_rest (some (p, new_segment r.align size tx p)))
  unfolding alloc_rest
  alloc_inserts p block given =
      let s = new_segment r.align size tx p in
      let (y, e, done) =
        link_insert-Entered r.links r.segs link p s r.dirty_seg_links r.seg_links ds cs v.dirty
          v.clean v.apart (new p given) in
      rw e (
        inr (
          p,
          given,
          record {
            success = refl;
            pointer = refl;
            block = block;
            view =
                grown-IsRegion r cs ds v link p s (new p given) y done
                  (new_segment-dirty r.align size tx p);
            segs = done.segs;
          },
        ))

  alloc_continues :
      (o : Option (Ptr × Segment))
      → Allocated memalign r.align size tx o
      → Ensures (AllocDone memalign tx size link r cs ds) (alloc_rest o)
  unfolding alloc_rest
  alloc_continues none a = inl (a, refl, refl, refl)
  alloc_continues (some (p, seg)) (block, e, given) = rw e (alloc_inserts p block given)

  -- In a well-formed region (`IsRegion`), with an alignment that is not 0, an allocation of up to
  -- 2 ^ 30 bytes in all, where `malloc` gives memory for a link and what `posix_memalign` gives is not
  -- in use: it returns without a fault, without memory and with the region as it was exactly if
  -- `posix_memalign` gives no block, and else with an opaque pointer to a new segment in that block,
  -- at the end of the dirty list.
  pub tm_alloc-AllocDone :
      Ensures (AllocDone memalign tx size link r cs ds) (tm_alloc memalign link tx size r)
  unfolding tm_alloc alloc_rest
  tm_alloc-AllocDone =
      Ensures-bind (Allocated memalign r.align size tx) (AllocDone memalign tx size link r cs ds) _
        alloc_rest (alloc_segment-Allocated memalign r.align size tx pos doc small) alloc_continues
