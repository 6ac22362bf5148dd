-- ===== src/Region/Rollback.antt =====
-- `rollback_transaction` (template/tm.c): the loop over all dirty segments.
use mathlib.Core.Path.{ap₂}
use transactional_memory.Base.{
  ℕ, zero, suc, ◌≤◌, ◌<◌, ◌≡◌, refl, sym, ◌∙◌, ap, inl, inr, true, false, Option, none, some, List,
  [], ◌∷◌, ◌++◌, ok, ◌==◌, length, Bool-cases, ==_iff, arith,
}
use transactional_memory.Segment.{Segment, rollback_segment}
use transactional_memory.Segment.Commit.{undone-RolledBack, flag_rollback-frame}
use transactional_memory.Links.{Ptr, null, Link, load}
use transactional_memory.Links.Ring.{
  field, next_of, prev_of, seg_of, is_link, has, Distinct, Distinct-snoc, Chain, AllLinks-has,
  load-ok, has-append, has-ne,
}
use transactional_memory.Region.{store_seg, load_seg, Region, rollback_links, rollback_transaction}
use transactional_memory.Region.Lists.{
  IsRegion, load_seg-some, store_seg-same, store_seg-other, Held-injective, IsRegion-store,
}
use transactional_memory.Region.Cleaned.{held_by}
use transactional_memory.Region.Cleanup.{first, Chain-first}

abbrev pub undo : (align tx : ℕ) → Option Segment → Option Segment
undo align tx none = none
undo align tx (some s) = some (rollback_segment align tx s)

-- The segments of the links `xs` are rolled back, and nothing else is touched.
pub record Undone (tx : ℕ) (xs cs ds : List Ptr) (r r' : Region) : Type 0 where
  pub view : IsRegion r' cs ds
  pub frame : r' ≡ record r { segs = r'.segs }
  pub undone :
      (x : Ptr) → has x xs ≡ true → r'.segs (seg_of r.links x) ≡ undo r.align tx (held_by r x)
  pub others :
      (q : Ptr)
      → ((x : Ptr) → has x xs ≡ true → (q == seg_of r.links x) ≡ false)
      → r'.segs q ≡ r.segs q

module _ (align tx : ℕ) (s : Segment) where
  rollback_segment-link : (rollback_segment align tx s).link ≡ s.link
  rollback_segment-link =
      ap (λ (t : Segment). t.link) (undone-RolledBack align tx s).frame
      ∙ ap (λ (t : Segment). t.link) (flag_rollback-frame align tx s)

  rollback_segment-dirty : (rollback_segment align tx s).dirty ≡ s.dirty
  rollback_segment-dirty =
      ap (λ (t : Segment). t.dirty) (undone-RolledBack align tx s).frame
      ∙ ap (λ (t : Segment). t.dirty) (flag_rollback-frame align tx s)

module _ (tx : ℕ) (r : Region) (cs ds : List Ptr) (v : IsRegion r cs ds) (b : Ptr)
    (mem : has b ds ≡ true) where
  abbrev s : Segment
  s = (v.dirty_held b mem).seg

  abbrev pub undone_once : Region
  undone_once = record r {
    segs = store_seg (seg_of r.links b) (some (rollback_segment r.align tx s)) r.segs;
  }

  undone_view : IsRegion undone_once cs ds
  undone_view =
      IsRegion-store r cs ds true b (rollback_segment r.align tx s) v (v.dirty_held b mem)
        (rollback_segment-link r.align tx s ∙ (v.dirty_held b mem).own_link)
        (rollback_segment-dirty r.align tx s ∙ (v.dirty_held b mem).flag)

  -- The first round, and the others.
  module _ (xs : List Ptr) (all_dirty : (x : Ptr) → has x xs ≡ true → has x ds ≡ true)
      (new : has b xs ≡ false) where
    other_seg : (x : Ptr) → has x xs ≡ true → (seg_of r.links x == seg_of r.links b) ≡ false
    other_seg x m = elim (Bool-cases (seg_of r.links x == seg_of r.links b)) [
      | inl e ↦
          let same = (==_iff (seg_of r.links x) (seg_of r.links b)).0 e in
          let z =
            Held-injective r.links r.segs true true x b (v.dirty_held x (all_dirty x m))
              (v.dirty_held b mem) same in
          absurd (has-ne x b xs m new z)
      | inr ne ↦ ne
    ]

    held_by-same : (x : Ptr) → has x xs ≡ true → held_by undone_once x ≡ held_by r x
    held_by-same x m =
        store_seg-other (seg_of r.links b) (seg_of r.links x) _ r.segs (other_seg x m)

    rolled_first :
        (r' : Region)
        → Undone tx xs cs ds undone_once r'
        → r'.segs (seg_of r.links b) ≡ undo r.align tx (held_by r b)
    rolled_first r' rest =
        rest.others (seg_of r.links b) (λ x m. ground (arith, other_seg x m))
        ∙ store_seg-same (seg_of r.links b) _ r.segs
        ∙ ap (undo r.align tx) (sym (v.dirty_held b mem).found)

    Undone-cons : (r' : Region) → Undone tx xs cs ds undone_once r' → Undone tx (b ∷ xs) cs ds r r'
    Undone-cons r' rest = record {
      view = rest.view;
      frame = rest.frame;
      undone = λ x m. elim (Bool-cases (x == b)) [
        | inl e ↦
            ap (λ z. r'.segs (seg_of r.links z)) ((==_iff x b).0 e)
            ∙ rolled_first r' rest
            ∙ ap (λ z. undo r.align tx (held_by r z)) (sym ((==_iff x b).0 e))
        | inr ne ↦
            let m' : has x xs ≡ true = ground arith in
            rest.undone x m' ∙ ap (undo r.align tx) (held_by-same x m')
      ];
      others = λ q far.
          rest.others q (λ x m. far x (ground arith))
          ∙ store_seg-other (seg_of r.links b) q _ r.segs (far b (ground arith));
    }

module _ (f tx : ℕ) (base x : Ptr) (r : Region) (l : Link) (s : Segment) (e : load x r.links ≡ ok l)
    (found : load_seg l.seg r.segs ≡ ok s) where
  abbrev after : Region
  after = record r { segs = store_seg l.seg (some (rollback_segment r.align tx s)) r.segs }

  rollback_last : (x == base) ≡ true → rollback_links (suc f) tx base x r ≡ ok after
  unfolding rollback_links
  rollback_last last = rw (e, found, last) refl

  rollback_more :
      (x == base) ≡ false
      → rollback_links (suc f) tx base x r ≡ rollback_links f tx base l.next after
  unfolding rollback_links
  rollback_more more = rw (e, found, more) refl

-- The loop, from the link behind `a` round to the base `d`.
module _ (tx : ℕ) (cs ds : List Ptr) (d : Ptr) where
  -- A link, read, and its segment.
  at_link :
      (r : Region) (v : IsRegion r cs ds) (b : Ptr) (mem : has b ds ≡ true)
      → (l : Link) × (load b r.links ≡ ok l)
        × (load_seg l.seg r.segs ≡ ok (v.dirty_held b mem).seg)
        × (seg_of r.links b ≡ l.seg)
        × (next_of r.links b ≡ l.next)
  at_link r v b mem =
      let (l, at, here) = load-ok b r.links (AllLinks-has r.links ds b v.dirty.links mem) in
      let seg : seg_of r.links b ≡ l.seg = ap (field (λ l. l.seg)) here in
      (
        l,
        at,
        ap (λ z. load_seg z r.segs) (sym seg)
            ∙ load_seg-some (seg_of r.links b) r.segs (v.dirty_held b mem).seg
                (v.dirty_held b mem).found,
        seg,
        ap (field (λ l. l.next)) here,
      )

  Undone-nil : (r : Region) → IsRegion r cs ds → Undone tx [] cs ds r r
  Undone-nil r v = record { view = v; frame = refl; undone = λ x m. cc; others = λ q _. refl }

  rollback_links-Undone :
      (bs : List Ptr) (fuel : ℕ) (a : Ptr) (r : Region)
      → length bs < fuel
      → IsRegion r cs ds
      → Chain (next_of r.links) (prev_of r.links) a bs d
      → ((x : Ptr) → has x (bs ++ d ∷ []) ≡ true → has x ds ≡ true)
      → Distinct (bs ++ d ∷ [])
      → (r' : Region) × (rollback_links fuel tx d (first d bs) r ≡ ok r')
        × Undone tx (bs ++ d ∷ []) cs ds r r'
  rollback_links-Undone bs zero a r lt v c all u = absurd (omega arith)
  rollback_links-Undone [] (suc f) a r lt v c all u =
      let mem = all d (ground arith) in
      let (l, at, found, seg, _) = at_link r v d mem in
      let r1 = undone_once tx r cs ds v d mem in
      (
        r1,
        rollback_last f tx d d r l (v.dirty_held d mem).seg at found ((==_iff d d).1 refl)
            ∙ ap
                (λ z. ok (record r {
                  segs =
                      store_seg z (some (rollback_segment r.align tx (v.dirty_held d mem).seg))
                        r.segs;
                }))
                (sym seg),
        Undone-cons tx r cs ds v d mem [] (λ x m. cc) refl r1
            (Undone-nil r1 (undone_view tx r cs ds v d mem)),
      )
  rollback_links-Undone (b ∷ bs) (suc f) a r lt v c all u =
      let mem = all b (ground arith) in
      let (l, at, found, seg, next) = at_link r v b mem in
      let r1 = undone_once tx r cs ds v b mem in
      let more : (b == d) ≡ false = ground (arith, has-append b bs (d ∷ []), u.0) in
      let rest : (x : Ptr) → has x (bs ++ d ∷ []) ≡ true → has x ds ≡ true =
        λ x m. all x (ground arith) in
      let (r', e, done) =
        rollback_links-Undone bs f b r1 (omega arith) (undone_view tx r cs ds v b mem) c.2 rest
          u.1 in
      (
        r',
        rollback_more f tx d b r l (v.dirty_held b mem).seg at found more
            ∙ ap₂
                (λ y z. rollback_links f tx d y (record r {
                  segs =
                      store_seg z (some (rollback_segment r.align tx (v.dirty_held b mem).seg))
                        r.segs;
                }))
                (sym next ∙ Chain-first (next_of r.links) (prev_of r.links) b bs d c.2) (sym seg)
            ∙ e,
        Undone-cons tx r cs ds v b mem (bs ++ d ∷ []) rest u.0 r' done,
      )

-- Rolling a transaction back in a well-formed region (`IsRegion`), on fuel that is at least the
-- number of dirty segments: it returns
-- without a fault, every dirty segment is rolled back, no other segment is touched, and the lists
-- stay as they are.
pub rollback_transaction-Undone :
    (fuel tx : ℕ) (r : Region) (cs ds : List Ptr)
    → IsRegion r cs ds
    → length ds ≤ fuel
    → (r' : Region) × (rollback_transaction fuel tx r ≡ ok r') × Undone tx ds cs ds r r'
unfolding rollback_transaction
rollback_transaction-Undone fuel tx r cs [] v enough =
    (r, rw (v.dirty.circle) refl, Undone-nil tx cs [] null r v)
rollback_transaction-Undone fuel tx r cs (d ∷ bs) v enough =
    let there = ap (is_link r.links) v.dirty.circle.0 ∙ v.dirty.links.0 in
    let (l, at, here) = load-ok r.dirty_seg_links r.links there in
    let next : l.next ≡ first d bs =
      sym (ap (field (λ l. l.next)) here)
      ∙ ap (next_of r.links) v.dirty.circle.0
      ∙ Chain-first (next_of r.links) (prev_of r.links) d bs d v.dirty.circle.1 in
    let real : (r.dirty_seg_links == null) ≡ false =
      ap (λ z. z == null) v.dirty.circle.0 ∙ ground (arith, v.dirty.not_null) in
    let all : (x : Ptr) → has x (bs ++ d ∷ []) ≡ true → has x (d ∷ bs) ≡ true =
      λ x m. ground (arith, has-append x bs (d ∷ [])) in
    let (r', e, done) =
      rollback_links-Undone tx cs (d ∷ bs) d bs fuel d r (omega arith) v v.dirty.circle.1 all
        (Distinct-snoc d bs v.dirty.distinct.1 v.dirty.distinct.0) in
    (
      r',
      rw (real, at) (ap₂ (λ y z. rollback_links fuel tx y z r) v.dirty.circle.0 next ∙ e),
      record {
        view = done.view;
        frame = done.frame;
        undone = λ x m. done.undone x (ground (arith, has-append x bs (d ∷ [])));
        others = λ q far. done.others q (λ x m. far x (all x m));
      },
    )
