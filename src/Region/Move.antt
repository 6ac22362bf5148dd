-- ===== src/Region/Move.antt =====
-- `move_to_dirty` and `move_to_clean` (template/link.c) on the sequences that the lists stand for.
use transactional_memory.Base.{
  ◌≡◌, refl, sym, ◌∙◌, ap, inl, inr, Bool, true, false, not, some, List, [], ◌∷◌, ◌++◌, ok, ◌==◌,
  Bool-cases, ==_iff, arith,
}
use transactional_memory.Segment.{Segment}
use transactional_memory.Links.{Ptr, Heap}
use transactional_memory.Links.Ring.{seg_of, has, Distinct, has-ne, has-append}
use transactional_memory.Links.Remove.{erase, has-erase_self}
use transactional_memory.Links.Transfer.{
  Apart, erase-has, rest-Apart, transfer-Transferred, Apart-sym,
}
use transactional_memory.Region.{
  Segs, store_seg, Region, put_dirty, put_clean, move_to_dirty, move_to_clean,
}
use transactional_memory.Region.Lists.{
  Held, IsRegion, SameRegion, load_seg-some, store_seg-same, Held-other,
}

-- Link `x` has moved from the list `ps`, whose segments have the flag `a`, to the end of `qs`.
module _ (links links' : Heap) (m : Segs) (a : Bool) (x : Ptr) (ps qs : List Ptr) (s : Segment)
    (same : (q : Ptr) → seg_of links' q ≡ seg_of links q) (mem : has x ps ≡ true)
    (apart : Apart ps qs) (distinct : Distinct ps)
    (held_ps : (y : Ptr) → has y ps ≡ true → Held links m a y)
    (held_qs : (y : Ptr) → has y qs ≡ true → Held links m (not a) y) (own : s.link ≡ x)
    (flag : s.dirty ≡ not a) where
  abbrev m' : Segs
  m' = store_seg (seg_of links x) (some s) m

  rest_held : (y : Ptr) → has y (erase x ps) ≡ true → Held links' m' a y
  rest_held y h =
      let ne = has-ne y x (erase x ps) h (has-erase_self x ps distinct) in
      Held-other links m links' a a x y (some s) (λ q _. same q) (held_ps x mem)
        (held_ps y (erase-has y x ps h)) (ground arith)

  more_held : (y : Ptr) → has y (qs ++ x ∷ []) ≡ true → Held links' m' (not a) y
  more_held y h = elim (Bool-cases (y == x)) [
    | inl e ↦
        let z : y ≡ x = (==_iff y x).0 e in
        record {
          seg = s;
          found = ap m' (same y ∙ ap (seg_of links) z) ∙ store_seg-same (seg_of links x) (some s) m;
          own_link = own ∙ sym z;
          flag = flag;
        }
    | inr ne ↦
        let old : has y qs ≡ true = ground (arith, has-append y qs (x ∷ [])) in
        Held-other links m links' a (not a) x y (some s) (λ q _. same q) (held_ps x mem)
          (held_qs y old) ne
  ]

-- What a move leaves: the two sequences, and one segment with its new flag.
pub record Moved (p : Ptr) (s : Segment) (cs ds : List Ptr) (r r' : Region) : Type 0 where
  pub view : IsRegion r' cs ds
  pub same : SameRegion r r'
  pub segs : r'.segs ≡ store_seg p (some s) r.segs

module _ (r : Region) (cs ds : List Ptr) (v : IsRegion r cs ds) (x : Ptr) where
  -- The segment of a clean link moves to the end of the dirty list.
  module _ (mem : has x cs ≡ true) where
    held : Held r.links r.segs false x
    held = v.clean_held x mem

    abbrev pub made_dirty : Segment
    made_dirty = record (v.clean_held x mem).seg { dirty = true }

    put_dirty-Moved :
        (r' : Region) × (put_dirty (seg_of r.links x) (v.clean_held x mem).seg r ≡ ok r')
        × Moved (seg_of r.links x) made_dirty (erase x cs) (ds ++ x ∷ []) r r'
    unfolding put_dirty
    put_dirty-Moved =
        let (y, e, moved) =
          transfer-Transferred x cs ds r.links v.apart mem r.seg_links r.dirty_seg_links v.clean
            v.dirty in
        (
          record r {
            seg_links = y.0;
            dirty_seg_links = y.1;
            links = y.2;
            segs = store_seg (seg_of r.links x) (some made_dirty) r.segs;
          },
          rw ((v.clean_held x mem).own_link, e) refl,
          record {
            view = record {
              clean = moved.source;
              dirty = moved.target;
              apart = rest-Apart x cs ds r.links v.apart mem r.seg_links v.clean;
              clean_held =
                  rest_held r.links y.2 r.segs false x cs ds made_dirty moved.segs mem v.apart
                    v.clean.distinct v.clean_held v.dirty_held (v.clean_held x mem).own_link refl;
              dirty_held =
                  more_held r.links y.2 r.segs false x cs ds made_dirty moved.segs mem v.apart
                    v.clean.distinct v.clean_held v.dirty_held (v.clean_held x mem).own_link refl;
            };
            same = record {
              align = refl;
              start = refl;
              batcher = refl;
              seg_at = moved.segs;
              linked = moved.same;
            };
            segs = refl;
          },
        )

    -- In a well-formed region (`IsRegion`), a clean segment that is touched goes to the end of the
    -- dirty list, with its flag; the region stays well-formed, and all else is as before.
    pub move_to_dirty-Moved :
        (r' : Region) × (move_to_dirty (seg_of r.links x) r ≡ ok r')
        × Moved (seg_of r.links x) made_dirty (erase x cs) (ds ++ x ∷ []) r r'
    unfolding move_to_dirty put_dirty
    move_to_dirty-Moved =
        let (r', e, moved) = put_dirty-Moved in
        let h = v.clean_held x mem in
        (r', rw (load_seg-some (seg_of r.links x) r.segs h.seg h.found, h.flag) e, moved)

  -- The segment of a dirty link moves to the end of the clean list.
  module _ (mem : has x ds ≡ true) where
    abbrev pub made_clean : Segment
    made_clean = record (v.dirty_held x mem).seg { dirty = false }

    abbrev backwards : Apart ds cs
    backwards = Apart-sym cs ds v.apart

    put_clean-Moved :
        (r' : Region) × (put_clean (seg_of r.links x) (v.dirty_held x mem).seg r ≡ ok r')
        × Moved (seg_of r.links x) made_clean (cs ++ x ∷ []) (erase x ds) r r'
    unfolding put_clean
    put_clean-Moved =
        let (y, e, moved) =
          transfer-Transferred x ds cs r.links backwards mem r.dirty_seg_links r.seg_links v.dirty
            v.clean in
        let now = rest-Apart x ds cs r.links backwards mem r.dirty_seg_links v.dirty in
        (
          record r {
            dirty_seg_links = y.0;
            seg_links = y.1;
            links = y.2;
            segs = store_seg (seg_of r.links x) (some made_clean) r.segs;
          },
          rw ((v.dirty_held x mem).own_link, e) refl,
          record {
            view = record {
              clean = moved.target;
              dirty = moved.source;
              apart = Apart-sym (erase x ds) (cs ++ x ∷ []) now;
              clean_held =
                  more_held r.links y.2 r.segs true x ds cs made_clean moved.segs mem backwards
                    v.dirty.distinct v.dirty_held v.clean_held (v.dirty_held x mem).own_link refl;
              dirty_held =
                  rest_held r.links y.2 r.segs true x ds cs made_clean moved.segs mem backwards
                    v.dirty.distinct v.dirty_held v.clean_held (v.dirty_held x mem).own_link refl;
            };
            same = record {
              align = refl;
              start = refl;
              batcher = refl;
              seg_at = moved.segs;
              linked = moved.same;
            };
            segs = refl;
          },
        )

    -- And back, at the end of an epoch.
    pub move_to_clean-Moved :
        (r' : Region) × (move_to_clean (seg_of r.links x) r ≡ ok r')
        × Moved (seg_of r.links x) made_clean (cs ++ x ∷ []) (erase x ds) r r'
    unfolding move_to_clean put_clean
    move_to_clean-Moved =
        let (r', e, moved) = put_clean-Moved in
        let h = v.dirty_held x mem in
        (r', rw (load_seg-some (seg_of r.links x) r.segs h.seg h.found, h.flag) e, moved)

    -- A dirty segment that is touched again stays where it is.
    pub move_to_dirty_again : move_to_dirty (seg_of r.links x) r ≡ ok r
    unfolding move_to_dirty put_dirty
    move_to_dirty_again =
        let h = v.dirty_held x mem in
        rw (load_seg-some (seg_of r.links x) r.segs h.seg h.found, h.flag) refl
