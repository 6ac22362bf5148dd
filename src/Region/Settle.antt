-- ===== src/Region/Settle.antt =====
-- One round of `epoch_cleanup` (template/batcher.c): a dirty segment is freed, or published and
-- moved to the clean list.
use transactional_memory.Base.{
  ℕ, leb, ltb, ◌+◌, ◌-◌, ◌/◌, ◌≡◌, refl, sym, ◌∙◌, ap, inl, inr, true, false, Option, none, some,
  List, [], ◌∷◌, ◌++◌, ok, ◌==◌, if◌then◌else◌, not, ◌&&◌, ◌||◌, Bool, Bool-cases, arith,
}
use transactional_memory.Segment.{
  Segment, publish, reset, commit_segment, is_released, clear_control, memcpy,
}
use transactional_memory.Word.{untouched}
use transactional_memory.Links.{Ptr}
use mathlib.Core.Path.{subst, fun_ext}
use transactional_memory.Links.Ring.{
  is_link, is_some, AllLinks-has, seg_of, has, has-ne, has-append,
}
use transactional_memory.Links.Remove.{erase, has-erase_self, link_remove-Removed}
use transactional_memory.Links.Transfer.{Apart-sym, erase-has, Ring-far}
use transactional_memory.Links.Discard.{stored, stored_self, stored-other, stored-Ring}
use transactional_memory.Region.{
  Segs, store_seg, Region, move_to_clean, release, commit, cleanup_segment,
}
use transactional_memory.Region.Lists.{
  IsRegion, load_seg-some, store_seg-same, store_seg-other, Held-other, IsRegion-store,
  some-injective,
}
use transactional_memory.Region.Move.{Moved, move_to_clean-Moved}

-- Whether a segment goes at the end of its epoch: a new one whose transaction was rolled back, or one
-- that is to be freed and whose transaction was not.
abbrev pub is_freed : (rollback newly_alloc should_free : Bool) → Bool
is_freed true newly_alloc should_free = newly_alloc
is_freed false newly_alloc should_free = should_free

abbrev pub goes : Segment → Bool
goes s = is_freed s.rollback s.newly_alloc s.should_free

is_released-goes : (s : Segment) → is_released s ≡ goes s
is_released-goes s = at s.rollback s.newly_alloc s.should_free
  where
    at :
        (rollback newly_alloc should_free : Bool)
        → ((not rollback && should_free) || (rollback && newly_alloc))
          ≡ is_freed rollback newly_alloc should_free
    at true true true = refl
    at true true false = refl
    at true false true = refl
    at true false false = refl
    at false true true = refl
    at false true false = refl
    at false false true = refl
    at false false false = refl

-- A segment that begins an epoch with the working copy of `s` in both copies, and that nobody has
-- touched.
abbrev pub renewed : (align : ℕ) → Segment → Segment
renewed align s = record s {
  control = λ i. if ltb i (s.size / align) then untouched else s.control i;
  read = λ k. if ltb k s.size then s.write k else s.read k;
  owner = 0;
  newly_alloc = false;
  should_free = false;
  dirty = false;
  rollback = false;
}

whole_copy : (n : ℕ) (f g : ℕ → ℕ) (k : ℕ) → memcpy f 0 g 0 n k ≡ (if ltb k n then g k else f k)
unfolding memcpy
whole_copy n f g k =
    let at : 0 + (k - 0) ≡ k = omega arith in
    ap (λ x. if leb 0 k && ltb k (0 + n) then g x else f k) at ∙ ground arith

commit_segment-renewed : (align : ℕ) (s : Segment) → commit_segment align s ≡ renewed align s
unfolding commit_segment clear_control
commit_segment-renewed align s =
    ap (λ (f : ℕ → ℕ). record (renewed align s) { read = f })
      (fun_ext λ k. whole_copy s.size s.read s.write k)

-- What the end of an epoch makes of a dirty segment.
unfoldable pub settled : (align : ℕ) → Segment → Option Segment
settled align s = if goes s then none else some (renewed align s)

abbrev pub to_clean : Segment → Ptr → List Ptr
to_clean s x = if goes s then [] else x ∷ []

-- What a round leaves.
pub record Settled (s : Segment) (x : Ptr) (cs ds : List Ptr) (r r' : Region) : Type 0 where
  pub view : IsRegion r' (cs ++ to_clean s x) (erase x ds)
  pub settled_at : r'.segs (seg_of r.links x) ≡ settled r.align s
  pub linked_at : is_link r'.links x ≡ not (goes s)
  pub linked : (q : Ptr) → (q == x) ≡ false → is_link r'.links q ≡ is_link r.links q
  pub others : (q : Ptr) → (q == seg_of r.links x) ≡ false → r'.segs q ≡ r.segs q
  pub seg_at : (q : Ptr) → (q == x) ≡ false → seg_of r'.links q ≡ seg_of r.links q
  pub align : r'.align ≡ r.align
  pub start : r'.start ≡ r.start
  pub batcher : r'.batcher ≡ r.batcher

pub append-nil : (xs : List Ptr) → xs ++ [] ≡ xs
append-nil [] = refl
append-nil (x ∷ xs) = ap (λ ys. x ∷ ys) (append-nil xs)

module _ (r : Region) (cs ds : List Ptr) (v : IsRegion r cs ds) (x : Ptr)
    (mem : has x ds ≡ true) where
  abbrev pub settling : Segment
  settling = (v.dirty_held x mem).seg

  abbrev p : Ptr
  p = seg_of r.links x

  apart' : has x cs ≡ false
  apart' = Apart-sym cs ds v.apart x mem

  -- The segment is freed, and its link.
  module _ (rel : goes settling ≡ true) where
    release-Settled : (r' : Region) × (release p settling r ≡ ok r') × Settled settling x cs ds r r'
    unfolding release settled
    release-Settled =
        let ((base, h), _, e, removed) =
          link_remove-Removed r.dirty_seg_links x ds r.links v.dirty mem in
        let out = has-erase_self x ds v.dirty.distinct in
        let same : (q : Ptr) → (q == x) ≡ false → seg_of (stored h x none) q ≡ seg_of r.links q =
          λ q ne. rw (stored-other h x none q ne) (removed.elsewhere.segs q) in
        (
          record r {
            dirty_seg_links = base;
            links = stored h x none;
            segs = store_seg p none r.segs;
          },
          rw ((v.dirty_held x mem).own_link, e) refl,
          record {
            view =
                rw (rel, append-nil)
                  (record {
                    clean =
                        stored-Ring h x none r.seg_links cs apart'
                          (Ring-far r.links h ds removed.elsewhere r.seg_links cs v.apart v.clean);
                    dirty = stored-Ring h x none base (erase x ds) out removed.ring;
                    apart =
                        Apart-sym (erase x ds) cs
                          (λ q m. Apart-sym cs ds v.apart q (erase-has q x ds m));
                    clean_held = λ y m.
                        let ne = has-ne y x cs m apart' in
                        Held-other r.links r.segs (stored h x none) true false x y none same
                          (v.dirty_held x mem) (v.clean_held y m) (ground arith);
                    dirty_held = λ y m.
                        let ne = has-ne y x (erase x ds) m out in
                        Held-other r.links r.segs (stored h x none) true true x y none same
                          (v.dirty_held x mem) (v.dirty_held y (erase-has y x ds m)) (ground arith);
                  });
            settled_at = rw rel (store_seg-same p none r.segs);
            linked_at = ap is_some (stored_self h x none) ∙ sym (ap not rel);
            linked = λ q ne. ap is_some (stored-other h x none q ne) ∙ removed.elsewhere.same q;
            others = λ q ne. store_seg-other p q none r.segs ne;
            seg_at = same;
            align = refl;
            start = refl;
            batcher = refl;
          },
        )

  -- The segment is published, and moves to the clean list.
  module _ (keep : goes settling ≡ false) where
    abbrev published : Region
    published = record r { segs = store_seg p (some (publish r.align settling)) r.segs }

    v1 : IsRegion published cs ds
    v1 =
        IsRegion-store r cs ds true x (publish r.align settling) v (v.dirty_held x mem)
          (v.dirty_held x mem).own_link (v.dirty_held x mem).flag

    -- The segment that `move_to_clean` finds.
    found_published : (v1.dirty_held x mem).seg ≡ publish r.align settling
    found_published =
        let e =
          sym (v1.dirty_held x mem).found
          ∙ store_seg-same p (some (publish r.align settling)) r.segs in
        some-injective _ _ e

    module _ (r2 : Region)
        (moved : Moved p
          (record (v1.dirty_held x mem).seg { dirty = false })
          (cs ++ x ∷ [])
          (erase x ds)
          published
          r2) where
      clean_now : has x (cs ++ x ∷ []) ≡ true
      clean_now = ground (arith, has-append x cs (x ∷ []))

      at_x : seg_of r2.links x ≡ p
      at_x = moved.same.seg_at x

      abbrev moved_seg : Segment
      moved_seg = record (v1.dirty_held x mem).seg { dirty = false }

      moved_found : r2.segs p ≡ some moved_seg
      moved_found =
          ap (λ (m : Segs). m p) moved.segs ∙ store_seg-same p (some moved_seg) published.segs

      commit_ends :
          move_to_clean p published ≡ ok r2
          → commit p settling r
            ≡ ok (record r2 { segs = store_seg p (some (reset moved_seg)) r2.segs })
      unfolding commit
      commit_ends e = rw (e, load_seg-some p r2.segs moved_seg moved_found) refl

      is_committed : reset moved_seg ≡ commit_segment r.align settling
      unfolding commit_segment
      is_committed = ap reset (ap (λ (t : Segment). record t { dirty = false }) found_published)

      final_view :
          IsRegion
            (record r2 { segs = store_seg p (some (reset moved_seg)) r2.segs })
            (cs ++ x ∷ [])
            (erase x ds)
      final_view =
          subst
            (λ z.
              IsRegion (record r2 { segs = store_seg z (some (reset moved_seg)) r2.segs })
                (cs ++ x ∷ []) (erase x ds))
            at_x
            (IsRegion-store r2 (cs ++ x ∷ []) (erase x ds) false x (reset moved_seg) moved.view
              (moved.view.clean_held x clean_now) (v1.dirty_held x mem).own_link refl)

      other_segs :
          (q : Ptr) → (q == p) ≡ false → store_seg p (some (reset moved_seg)) r2.segs q ≡ r.segs q
      other_segs q ne =
          store_seg-other p q (some (reset moved_seg)) r2.segs ne
          ∙ ap (λ (m : Segs). m q) moved.segs
          ∙ store_seg-other p q (some moved_seg) published.segs ne
          ∙ store_seg-other p q (some (publish r.align settling)) r.segs ne

    commit-Settled : (r' : Region) × (commit p settling r ≡ ok r') × Settled settling x cs ds r r'
    unfolding settled
    commit-Settled =
        let (r2, e, moved) = move_to_clean-Moved published cs ds v1 x mem in
        (
          record r2 { segs = store_seg p (some (reset (moved_seg r2 moved))) r2.segs },
          commit_ends r2 moved e,
          record {
            view = rw keep (final_view r2 moved);
            settled_at = rw keep (
                store_seg-same p (some (reset (moved_seg r2 moved))) r2.segs
                ∙ ap some (is_committed r2 moved ∙ commit_segment-renewed r.align settling));
            linked_at =
                moved.same.linked x
                ∙ AllLinks-has r.links ds x v.dirty.links mem
                ∙ sym (ap not keep);
            linked = λ q _. moved.same.linked q;
            others = other_segs r2 moved;
            seg_at = λ q _. moved.same.seg_at q;
            align = moved.same.align;
            start = moved.same.start;
            batcher = moved.same.batcher;
          },
        )

  -- A round ends without a fault, and does to one dirty segment what its flags ask for.
  pub cleanup_segment-Settled :
      (r' : Region) × (cleanup_segment p r ≡ ok r') × Settled settling x cs ds r r'
  unfolding cleanup_segment
  cleanup_segment-Settled =
      let found = load_seg-some p r.segs settling (v.dirty_held x mem).found in
      let same = is_released-goes settling in
      elim (Bool-cases (goes settling)) [
        | inl rel ↦ let (r', e, done) = release-Settled rel in (r', rw (found, same ∙ rel) e, done)
        | inr keep ↦
            let (r', e, done) = commit-Settled keep in (r', rw (found, same ∙ keep) e, done)
      ]
