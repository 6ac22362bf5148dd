-- ===== src/Tm/Create.antt =====
-- `tm_create` (template/tm.c): a new region.
use transactional_memory.Base.{
  ℕ, ◌^◌, ◌≤◌, ◌<◌, ◌≡◌, refl, sym, ◌∙◌, ap, inl, inr, true, false, Option, none, some, [], ◌∷◌,
  Run, ok, fault, ◌>>=◌, Ensures, Ensures-bind, ◌==◌, Bool-cases, ==_iff, arith,
}
use transactional_memory.Words.{pow2_exp}
use transactional_memory.Segment.{Segment, cons_opaque_ptr_for_seg}
use transactional_memory.Segment.Alloc.{seg_size, new_segment}
use transactional_memory.Segment.Alloc.Layout.{IsBlock}
use transactional_memory.Segment.Alloc.Allocate.{IsMemalign, Allocated, alloc_segment-Allocated}
use transactional_memory.Links.{Ptr, null, Heap}
use transactional_memory.Links.Ring.{field, seg_of, is_link, has, Ring, load-ok}
use transactional_memory.Batcher.{init_batcher}
use transactional_memory.Region.{Segs, store_seg, Region, link_insert}
use transactional_memory.Region.Lists.{
  IsRegion, load_seg-some, store_seg-same, store_seg-other, some-injective,
}
use transactional_memory.Region.Insert.{IsFresh, linked_segs, Entered, link_insert-Entered}
use transactional_memory.Tm.{tm_create, tm_start, tm_size}

abbrev no_links : Heap
no_links p = none

abbrev no_segs : Segs
no_segs p = none

-- A region with one clean segment, empty of transactions.
pub record IsCreated (link size align p : ℕ) (r : Region) : Type 0 where
  pub view : IsRegion r (link ∷ []) []
  pub align_is : r.align ≡ align
  pub idle : r.batcher ≡ init_batcher
  pub start : tm_start r ≡ ok (cons_opaque_ptr_for_seg (new_segment align size 0 p))
  pub size_is : tm_size r ≡ ok size
  pub block : IsBlock align size p

-- What `posix_memalign` is asked for.
abbrev asked : (size align : ℕ) → ℕ
asked size align = 2 ^ pow2_exp (seg_size align size)

-- No region, since there is no memory for its segment, or a region in the block that there is.
abbrev pub Created : (memalign : ℕ → ℕ → Option ℕ) → (link size align : ℕ) → Option Region → Type 0
Created memalign link size align none = memalign (asked size align) (asked size align) ≡ none
Created memalign link size align (some r) =
    (p : Ptr) × (memalign (asked size align) (asked size align) ≡ some p)
    × IsCreated link size align p r

no_links-Ring : Ring no_links null []
no_links-Ring = record { circle = refl; distinct = tt; links = tt; not_null = refl }

create_rest : (link size align p : ℕ) → Segment → Run (Option Region)
create_rest link size align p seg =
    let seg' = record seg { dirty = false; newly_alloc = false } in
    link_insert null p link no_links (store_seg p (some seg') no_segs) >>= λ x. ok (
      some (record {
        align = align;
        batcher = init_batcher;
        seg_links = x.0;
        dirty_seg_links = null;
        start = p;
        links = x.1;
        segs = x.2;
      }))

module _ (memalign : ℕ → ℕ → Option ℕ) (link size align p : ℕ) (block : IsBlock align size p)
    (given : memalign (asked size align) (asked size align) ≡ some p)
    (real : has null (link ∷ []) ≡ false) where
  abbrev s : Segment
  s = record (new_segment align size 0 p) { dirty = false; newly_alloc = false }

  new : IsFresh no_links no_segs link p [] []
  new = record { real = real; not_clean = refl; not_dirty = refl; unused = refl }

  module _ (y : Ptr × Heap × Segs) (done : Entered no_links no_segs link p s [] [] null y) where
    abbrev created : Region
    created = record {
      align = align;
      batcher = init_batcher;
      seg_links = y.0;
      dirty_seg_links = null;
      start = p;
      links = y.1;
      segs = y.2;
    }

    at_p : y.2 p ≡ some (record s { link = link })
    at_p = ap (λ (m : Segs). m p) done.segs ∙ store_seg-same p _ (store_seg p (some s) no_segs)

    created-IsRegion : IsRegion created (link ∷ []) []
    created-IsRegion = record {
      clean = done.grown;
      dirty = done.other;
      apart = λ q _. refl;
      clean_held = λ z m. let e : z ≡ link = (==_iff z link).0 (ground arith) in rw e done.held_new;
      dirty_held = λ z m. cc;
    }

    created_start : tm_start created ≡ ok (cons_opaque_ptr_for_seg (new_segment align size 0 p))
    unfolding tm_start
    created_start = rw (load_seg-some p y.2 _ at_p) refl

    -- There is no segment but the one at `p`.
    only_seg :
        (q : Ptr) (t : Segment) → linked_segs no_links no_segs link p s q ≡ some t → t.size ≡ size
    unfolding new_segment
    only_seg q t e = elim (Bool-cases (q == p)) [
      | inl same ↦
          let at =
            sym e
            ∙ ap (linked_segs no_links no_segs link p s) ((==_iff q p).0 same)
            ∙ store_seg-same p _ (store_seg p (some s) no_segs) in
          ap (λ (t : Segment). t.size) (some-injective _ _ at)
      | inr ne ↦
          let at =
            sym e
            ∙ store_seg-other p q _ (store_seg p (some s) no_segs) ne
            ∙ store_seg-other p q (some s) no_segs ne in
          cc at
    ]

    held_size : done.held_new.seg.size ≡ size
    held_size =
        only_seg (seg_of y.1 link) done.held_new.seg
          (sym (ap (λ (m : Segs). m (seg_of y.1 link)) done.segs) ∙ done.held_new.found)

    created_size : tm_size created ≡ ok size
    unfolding tm_size
    created_size =
        let here : is_link y.1 y.0 ≡ true =
          ap (is_link y.1) done.grown.circle.0 ∙ done.grown.links.0 in
        let (l, e, at) = load-ok y.0 y.1 here in
        let seg : l.seg ≡ seg_of y.1 link =
          sym (ap (field (λ l. l.seg)) at) ∙ ap (seg_of y.1) done.grown.circle.0 in
        let found = ap y.2 seg ∙ done.held_new.found in
        rw (e, load_seg-some l.seg y.2 done.held_new.seg found) (ap ok held_size)

    created-IsCreated : IsCreated link size align p created
    created-IsCreated = record {
      view = created-IsRegion;
      align_is = refl;
      idle = refl;
      start = created_start;
      size_is = created_size;
      block = block;
    }

  creates :
      Ensures
        (Created memalign link size align)
        (create_rest link size align p (new_segment align size 0 p))
  unfolding create_rest
  creates =
      let (y, e, done) =
        link_insert-Entered no_links no_segs link p s null null [] [] no_links-Ring no_links-Ring
          (λ q _. refl) new in
      rw e (p, given, created-IsCreated y done)

module _ (memalign : ℕ → ℕ → Option ℕ) (link size align : ℕ) (doc : IsMemalign memalign)
    (real : has null (link ∷ []) ≡ false) (pos : 0 < align)
    (small : seg_size align size ≤ 2 ^ 30) where
  create_all : Option (Ptr × Segment) → Run (Option Region)
  unfolding create_rest
  create_all o = elim o [ none ↦ ok none | some (p, seg) ↦ create_rest link size align p seg ]

  create_continues :
      (o : Option (Ptr × Segment))
      → Allocated memalign align size 0 o
      → Ensures (Created memalign link size align) (create_all o)
  unfolding create_all
  create_continues none a = a
  create_continues (some (p, seg)) (block, e, given) =
      rw e (creates memalign link size align p block given real)

  -- Creating a region whose parts take up to 2 ^ 30 bytes, with an alignment that is not 0 and memory
  -- for a link. Where `malloc` gives memory for the region and the batcher, it returns without a
  -- fault: no region exactly if `posix_memalign` gives no block, and else a region in that block with
  -- one clean segment, of the size and alignment that were asked for, which `tm_start` and `tm_size`
  -- are about, no dirty one, and an idle batcher. Where `malloc` fails for either, it faults.
  pub tm_create-Created :
      ((region batcher : Ptr)
        → Ensures
            (Created memalign link size align)
            (tm_create memalign (some region) (some batcher) link size align))
      × ((batcher : Option Ptr) → tm_create memalign none batcher link size align ≡ fault)
      × ((region : Option Ptr) → tm_create memalign region none link size align ≡ fault)
  unfolding tm_create create_all create_rest
  tm_create-Created = (
    λ region batcher.
        Ensures-bind (Allocated memalign align size 0) (Created memalign link size align) _
          create_all (alloc_segment-Allocated memalign align size 0 pos doc small) create_continues,
    (λ batcher. refl),
    λ region. no_batcher region,
  )
    where
      no_batcher : (region : Option Ptr) → tm_create memalign region none link size align ≡ fault
      no_batcher none = refl
      no_batcher (some p) = refl
