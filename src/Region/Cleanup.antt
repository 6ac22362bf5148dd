-- ===== src/Region/Cleanup.antt =====
-- `epoch_cleanup` (template/batcher.c): the loop over all dirty segments.
use mathlib.Core.Path.{subst}
use transactional_memory.Base.{
  ℕ, zero, suc, ◌≤◌, ◌<◌, ◌≡◌, refl, sym, ◌∙◌, ap, true, false, List, [], ◌∷◌, ◌++◌, ok, ◌==◌,
  length, ==_iff, arith,
}
use transactional_memory.Links.{Ptr, null, Link, Heap, load}
use transactional_memory.Links.Ring.{
  field, next_of, prev_of, seg_of, is_link, has, Distinct, Chain, Ring, load-ok, has-append,
}
use transactional_memory.Region.{Region, cleanup_segment, cleanup_links, epoch_cleanup}
use transactional_memory.Region.Lists.{IsRegion}
use transactional_memory.Region.Settle.{
  to_clean, Settled, settling, append-nil, cleanup_segment-Settled,
}
use transactional_memory.Region.Cleaned.{Cleaned, Cleaned-cons, Cleaned-last}

abbrev pub first : Ptr → List Ptr → Ptr
first e [] = e
first e (b ∷ bs) = b

module _ (f : ℕ) (x : Ptr) (r r1 : Region) (l : Link) (e : load x r.links ≡ ok l)
    (done : cleanup_segment l.seg r ≡ ok r1) where
  round_last : (x == r.dirty_seg_links) ≡ true → cleanup_links (suc f) x r ≡ ok r1
  unfolding cleanup_links
  round_last last = rw (e, last, done) refl

  round_more :
      (x == r.dirty_seg_links) ≡ false
      → (l.prev == x) ≡ false
      → (l.next == x) ≡ false
      → cleanup_links (suc f) x r ≡ cleanup_links f l.next r1
  unfolding cleanup_links
  round_more more p n = rw (e, more, p, n, done) refl

pub Chain-first :
    (n p : Ptr → Ptr) (a : Ptr) (bs : List Ptr) (e : Ptr) → Chain n p a bs e → n a ≡ first e bs
Chain-first n p a [] e c = c.0
Chain-first n p a (b ∷ bs) e c = c.0

-- The neighbours of the link behind the base.
module _ (h : Heap) (d b : Ptr) (bs : List Ptr) (ring : Ring h d (d ∷ b ∷ bs)) where
  next_behind : next_of h b ≡ first d bs
  next_behind = Chain-first (next_of h) (prev_of h) b bs d ring.circle.1.2

  first-ne : (first d bs == b) ≡ false
  first-ne = at_first bs ring.distinct
    where
      at_first : (bs : List Ptr) → Distinct (d ∷ b ∷ bs) → (first d bs == b) ≡ false
      at_first [] u = ground arith
      at_first (c ∷ cs) u = ground arith

abbrev pub in_turn : Ptr → List Ptr → List Ptr
in_turn d bs = bs ++ d ∷ []

-- A round that is not the last.
module _ (r : Region) (cs : List Ptr) (d b : Ptr) (bs : List Ptr)
    (v : IsRegion r cs (d ∷ b ∷ bs)) where
  ring_at_d : Ring r.links d (d ∷ b ∷ bs)
  ring_at_d = subst (λ z. Ring r.links z (d ∷ b ∷ bs)) v.dirty.circle.0 v.dirty

  not_base : (b == d) ≡ false
  not_base = ground (arith, ring_at_d.distinct.0)

  second : has b (d ∷ b ∷ bs) ≡ true
  second = ground arith

  dirty_in_turn : (x : Ptr) → has x (in_turn d bs) ≡ true → has x (d ∷ b ∷ bs) ≡ true
  dirty_in_turn x m = ground (arith, has-append x bs (d ∷ []))

  once : has b (in_turn d bs) ≡ false
  once = ground (arith, has-append b bs (d ∷ []), not_base, ring_at_d.distinct.1.0)

  module _ (r1 : Region)
      (one : Settled (settling r cs (d ∷ b ∷ bs) v b second) b cs (d ∷ b ∷ bs) r r1) where
    left_view : IsRegion r1 (cs ++ to_clean (settling r cs (d ∷ b ∷ bs) v b second) b) (d ∷ bs)
    left_view = let self : (b == b) ≡ true = (==_iff b b).1 refl in rw (not_base, self) at one.view

    goes_on :
        (f : ℕ)
        → cleanup_segment (seg_of r.links b) r ≡ ok r1
        → cleanup_links (suc f) b r ≡ cleanup_links f (first d bs) r1
    goes_on f e =
        let (l, at, here) = load-ok b r.links v.dirty.links.1.0 in
        let seg : seg_of r.links b ≡ l.seg = ap (field (λ l. l.seg)) here in
        let prev : d ≡ l.prev = sym ring_at_d.circle.1.1 ∙ ap (field (λ l. l.prev)) here in
        let next : first d bs ≡ l.next =
          sym (next_behind r.links d b bs ring_at_d) ∙ ap (field (λ l. l.next)) here in
        round_more f b r r1 l at (ap (λ z. cleanup_segment z r) (sym seg) ∙ e)
          (ap (λ z. b == z) v.dirty.circle.0 ∙ not_base)
          (ap (λ z. z == b) (sym prev) ∙ ground (arith, not_base))
          (ap (λ z. z == b) (sym next) ∙ first-ne r.links d b bs ring_at_d)
        ∙ ap (λ z. cleanup_links f z r1) (sym next)

-- The loop starts behind the base `d` and ends there.
cleanup_links-Cleaned :
    (bs : List Ptr) (fuel : ℕ) (r : Region) (cs : List Ptr) (d : Ptr)
    → length bs < fuel
    → IsRegion r cs (d ∷ bs)
    → (r' : Region) × (cleanup_links fuel (first d bs) r ≡ ok r') × Cleaned (in_turn d bs) cs r r'
cleanup_links-Cleaned bs zero r cs d lt v = absurd (omega arith)
cleanup_links-Cleaned [] (suc f) r cs d lt v =
    let mem : has d (d ∷ []) ≡ true = ground arith in
    let (r1, e, one) = cleanup_segment-Settled r cs (d ∷ []) v d mem in
    let (l, at, here) = load-ok d r.links v.dirty.links.0 in
    let seg : seg_of r.links d ≡ l.seg = ap (field (λ l. l.seg)) here in
    (
      r1,
      round_last f d r r1 l at (ap (λ z. cleanup_segment z r) (sym seg) ∙ e)
          ((==_iff d r.dirty_seg_links).1 (sym v.dirty.circle.0)),
      Cleaned-last r r1 cs d v mem one,
    )
cleanup_links-Cleaned (b ∷ bs) (suc f) r cs d lt v =
    let mem = second r cs d b bs v in
    let (r1, e, one) = cleanup_segment-Settled r cs (d ∷ b ∷ bs) v b mem in
    let (r', e', rest) =
      cleanup_links-Cleaned bs f r1 (cs ++ to_clean (settling r cs (d ∷ b ∷ bs) v b mem) b) d
        (omega arith) (left_view r cs d b bs v r1 one) in
    (
      r',
      goes_on r cs d b bs v r1 one f e ∙ e',
      Cleaned-cons r r1 cs (d ∷ b ∷ bs) v b (in_turn d bs) mem (dirty_in_turn r cs d b bs v)
          (once r cs d b bs v) one r' rest,
    )

-- The order in which the loop takes the dirty links: the base comes last.
abbrev pub cleanup_order : List Ptr → List Ptr
cleanup_order [] = []
cleanup_order (d ∷ bs) = in_turn d bs

-- The end of an epoch of a well-formed region (`IsRegion`), on fuel that is at least the number of
-- dirty segments: no access faults and
-- no assertion fails, and the dirty list is empty. A dirty segment is freed, and its link is, if it is
-- new and its transaction was rolled back, or if it is to be freed and its transaction was not; any
-- other has its working copy published, and stands in the clean list behind those that were there.
-- No other segment changes, and no other link is freed.
pub epoch_cleanup-Cleaned :
    (fuel : ℕ) (r : Region) (cs ds : List Ptr)
    → IsRegion r cs ds
    → length ds ≤ fuel
    → (r' : Region) × (epoch_cleanup fuel r ≡ ok r') × Cleaned (cleanup_order ds) cs r r'
unfolding epoch_cleanup
epoch_cleanup-Cleaned fuel r cs [] v enough = (
  r,
  rw (v.dirty.circle) refl,
  record {
    view = rw append-nil v;
    settled_all = λ x m. cc;
    linked_all = λ x m. cc;
    linked = λ q _. refl;
    others = λ q _. refl;
    align = refl;
    start = refl;
    batcher = refl;
  },
)
epoch_cleanup-Cleaned fuel r cs (d ∷ bs) v enough =
    let there = ap (is_link r.links) v.dirty.circle.0 ∙ v.dirty.links.0 in
    let (l, at, here) = load-ok r.dirty_seg_links r.links there in
    let next : l.next ≡ first d bs =
      sym (ap (field (λ l. l.next)) here)
      ∙ ap (next_of r.links) v.dirty.circle.0
      ∙ Chain-first (next_of r.links) (prev_of r.links) d bs d v.dirty.circle.1 in
    let real : (r.dirty_seg_links == null) ≡ false =
      ap (λ z. z == null) v.dirty.circle.0 ∙ ground (arith, v.dirty.not_null) in
    let (r', e, done) = cleanup_links-Cleaned bs fuel r cs d (omega arith) v in
    (r', rw (real, at) (ap (λ z. cleanup_links fuel z r) next ∙ e), done)
