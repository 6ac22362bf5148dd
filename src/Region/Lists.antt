-- ===== src/Region/Lists.antt =====
-- The two lists of a region as sequences (template/link.c), and what holds between them and the
-- segments.
use transactional_memory.Base.{
  ◌≡◌, refl, sym, ◌∙◌, ap, inl, inr, Bool, true, false, Option, some, List, ok, ◌==◌, Bool-cases,
  ==_iff, arith,
}
use transactional_memory.Segment.{Segment}
use transactional_memory.Links.{Ptr, Heap}
use transactional_memory.Links.Ring.{is_link, seg_of, has, Ring}
use transactional_memory.Links.Transfer.{Apart}
use transactional_memory.Region.{Segs, store_seg, load_seg, Region}

-- The link `x` stands for a segment that knows it and has the given `dirty` flag.
pub record Held (links : Heap) (segs : Segs) (dirty : Bool) (x : Ptr) : Type 0 where
  pub seg : Segment
  pub found : segs (seg_of links x) ≡ some seg
  pub own_link : seg.link ≡ x
  pub flag : seg.dirty ≡ dirty

-- The segments of the links `cs` are clean, those of `ds` dirty, each list in its order.
pub record IsRegion (r : Region) (cs ds : List Ptr) : Type 0 where
  pub clean : Ring r.links r.seg_links cs
  pub dirty : Ring r.links r.dirty_seg_links ds
  pub apart : Apart cs ds
  pub clean_held : (x : Ptr) → has x cs ≡ true → Held r.links r.segs false x
  pub dirty_held : (x : Ptr) → has x ds ≡ true → Held r.links r.segs true x

-- A region that differs in its lists, their links and the segments only; each link stands for the same address.
pub record SameRegion (r r' : Region) : Type 0 where
  pub align : r'.align ≡ r.align
  pub start : r'.start ≡ r.start
  pub batcher : r'.batcher ≡ r.batcher
  pub seg_at : (q : Ptr) → seg_of r'.links q ≡ seg_of r.links q
  pub linked : (q : Ptr) → is_link r'.links q ≡ is_link r.links q

pub some-injective : (a b : Segment) → some a ≡ some b → a ≡ b
some-injective a b e = cc e

pub load_seg-some : (p : Ptr) (m : Segs) (s : Segment) → m p ≡ some s → load_seg p m ≡ ok s
unfolding load_seg
load_seg-some p m s e = rw (e, load_seg)

pub store_seg-same : (p : Ptr) (s : Option Segment) (m : Segs) → store_seg p s m p ≡ s
unfolding store_seg
store_seg-same p s m = ground arith

pub store_seg-other :
    (p q : Ptr) (s : Option Segment) (m : Segs) → (q == p) ≡ false → store_seg p s m q ≡ m q
unfolding store_seg
store_seg-other p q s m ne = rw ne

module _ (links : Heap) (m : Segs) where
  -- Two links that hold stand for two segments.
  pub Held-injective :
      (a b : Bool) (x y : Ptr)
      → Held links m a x
      → Held links m b y
      → seg_of links x ≡ seg_of links y
      → x ≡ y
  Held-injective a b x y hx hy e =
      let same : hx.seg ≡ hy.seg = cc (hx.found, hy.found, ap m e) in
      sym hx.own_link ∙ ap (λ (s : Segment). s.link) same ∙ hy.own_link

  -- A segment that is stored at the address of link `x` leaves what other links stand for.
  pub Held-other :
      (links' : Heap) (a b : Bool) (x y : Ptr) (s : Option Segment)
      → ((q : Ptr) → (q == x) ≡ false → seg_of links' q ≡ seg_of links q)
      → Held links m a x
      → Held links m b y
      → (y == x) ≡ false
      → Held links' (store_seg (seg_of links x) s m) b y
  Held-other links' a b x y s same hx hy ne =
      let ne' : (seg_of links y == seg_of links x) ≡ false =
        elim (Bool-cases (seg_of links y == seg_of links x)) [
          | inl e ↦
              let z =
                Held-injective b a y x hy hx ((==_iff (seg_of links y) (seg_of links x)).0 e) in
              cc ((==_iff y x).1 z)
          | inr n ↦ n
        ] in
      record {
        seg = hy.seg;
        found =
            ap (store_seg (seg_of links x) s m) (same y ne)
            ∙ store_seg-other (seg_of links x) (seg_of links y) s m ne'
            ∙ hy.found;
        own_link = hy.own_link;
        flag = hy.flag;
      }

  -- What is stored for link `x` keeps its link and flag: every link holds as before.
  pub Held-store :
      (a b : Bool) (x y : Ptr) (s : Segment)
      → Held links m a x
      → Held links m b y
      → s.link ≡ x
      → s.dirty ≡ a
      → Held links (store_seg (seg_of links x) (some s) m) b y
  Held-store a b x y s hx hy own flag = elim (Bool-cases (y == x)) [
    | inl e ↦
        let z : y ≡ x = (==_iff y x).0 e in
        let same : hx.seg ≡ hy.seg = cc (hx.found, hy.found, z) in
        record {
          seg = s;
          found =
              ap (λ q. store_seg (seg_of links x) (some s) m (seg_of links q)) z
              ∙ store_seg-same (seg_of links x) (some s) m;
          own_link = own ∙ sym z;
          flag = flag ∙ sym hx.flag ∙ ap (λ (t : Segment). t.dirty) same ∙ hy.flag;
        }
    | inr ne ↦ Held-other links a b x y (some s) (λ q _. refl) hx hy ne
  ]

-- A segment of the region changes, but for its link and flag.
pub IsRegion-store :
    (r : Region) (cs ds : List Ptr) (a : Bool) (x : Ptr) (s : Segment)
    → IsRegion r cs ds
    → Held r.links r.segs a x
    → s.link ≡ x
    → s.dirty ≡ a
    → IsRegion (record r { segs = store_seg (seg_of r.links x) (some s) r.segs }) cs ds
IsRegion-store r cs ds a x s v hx own flag = record {
  clean = v.clean;
  dirty = v.dirty;
  apart = v.apart;
  clean_held = λ y m. Held-store r.links r.segs a false x y s hx (v.clean_held y m) own flag;
  dirty_held = λ y m. Held-store r.links r.segs a true x y s hx (v.dirty_held y m) own flag;
}
