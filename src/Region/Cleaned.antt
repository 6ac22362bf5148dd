-- ===== src/Region/Cleaned.antt =====
-- What `epoch_cleanup` (template/batcher.c) makes of the dirty segments, round by round.
use transactional_memory.Base.{
  ℕ, ◌≡◌, refl, sym, ◌∙◌, ap, inl, inr, true, false, Option, none, some, List, [], ◌∷◌, ◌++◌, ◌==◌,
  not, Bool, Bool-cases, ==_iff, arith,
}
use transactional_memory.Segment.{Segment}
use transactional_memory.Links.{Ptr}
use transactional_memory.Links.Ring.{is_link, seg_of, has, has-ne}
use transactional_memory.Region.{Region}
use transactional_memory.Region.Lists.{IsRegion, Held-injective}
use transactional_memory.Region.Settle.{goes, settled, to_clean, Settled, settling, append-nil}

-- The segment that a link stands for.
abbrev pub held_by : Region → Ptr → Option Segment
held_by r x = r.segs (seg_of r.links x)

abbrev pub settle : (align : ℕ) → Option Segment → Option Segment
settle align none = none
settle align (some s) = settled align s

abbrev pub kept_one : Option Segment → Ptr → List Ptr
kept_one none x = []
kept_one (some s) x = to_clean s x

-- The links whose segments stay, in their order.
abbrev pub kept : Region → List Ptr → List Ptr
kept r [] = []
kept r (x ∷ xs) = kept_one (held_by r x) x ++ kept r xs

-- Whether a segment's link stays.
abbrev pub stays : Option Segment → Bool
stays none = false
stays (some s) = not (goes s)

-- What the loop leaves of the links `xs`: a segment that goes is freed, and its link is; of one that
-- stays the working copy is published.
pub record Cleaned (xs cs : List Ptr) (r r' : Region) : Type 0 where
  pub view : IsRegion r' (cs ++ kept r xs) []
  pub settled_all :
      (x : Ptr) → has x xs ≡ true → r'.segs (seg_of r.links x) ≡ settle r.align (held_by r x)
  pub linked_all : (x : Ptr) → has x xs ≡ true → is_link r'.links x ≡ stays (held_by r x)
  pub linked : (q : Ptr) → has q xs ≡ false → is_link r'.links q ≡ is_link r.links q
  pub others :
      (q : Ptr)
      → ((x : Ptr) → has x xs ≡ true → (q == seg_of r.links x) ≡ false)
      → r'.segs q ≡ r.segs q
  pub align : r'.align ≡ r.align
  pub start : r'.start ≡ r.start
  pub batcher : r'.batcher ≡ r.batcher

pub append_assoc : (xs ys zs : List Ptr) → (xs ++ ys) ++ zs ≡ xs ++ (ys ++ zs)
append_assoc [] ys zs = refl
append_assoc (x ∷ xs) ys zs = ap (λ us. x ∷ us) (append_assoc xs ys zs)

kept-same :
    (r r' : Region) (xs : List Ptr)
    → ((x : Ptr) → has x xs ≡ true → held_by r' x ≡ held_by r x)
    → kept r' xs ≡ kept r xs
kept-same r r' [] same = refl
kept-same r r' (x ∷ xs) same =
    rw (same x (ground arith), kept-same r r' xs (λ y m. same y (ground arith))) refl

-- The first round, and the others.
module _ (r r1 : Region) (cs ds : List Ptr) (v : IsRegion r cs ds) (b : Ptr) (xs : List Ptr)
    (mem : has b ds ≡ true) (all_dirty : (x : Ptr) → has x xs ≡ true → has x ds ≡ true)
    (new : has b xs ≡ false) (one : Settled (settling r cs ds v b mem) b cs ds r r1) where
  abbrev s : Segment
  s = settling r cs ds v b mem

  found : held_by r b ≡ some s
  found = (v.dirty_held b mem).found

  other : (x : Ptr) → has x xs ≡ true → (x == b) ≡ false
  other x m = let ne = has-ne x b xs m new in ground arith

  other_seg : (x : Ptr) → has x xs ≡ true → (seg_of r.links x == seg_of r.links b) ≡ false
  other_seg x m = elim (Bool-cases (seg_of r.links x == seg_of r.links b)) [
    | inl e ↦
        let same = (==_iff (seg_of r.links x) (seg_of r.links b)).0 e in
        let z =
          Held-injective r.links r.segs true true x b (v.dirty_held x (all_dirty x m))
            (v.dirty_held b mem) same in
        cc ((==_iff x b).1 z, other x m)
    | inr ne ↦ ne
  ]

  held_by-same : (x : Ptr) → has x xs ≡ true → held_by r1 x ≡ held_by r x
  held_by-same x m =
      ap r1.segs (one.seg_at x (other x m)) ∙ one.others (seg_of r.links x) (other_seg x m)

  kept_all : (cs ++ to_clean s b) ++ kept r1 xs ≡ cs ++ kept r (b ∷ xs)
  kept_all =
      append_assoc cs (to_clean s b) (kept r1 xs)
      ∙ ap (λ us. cs ++ (to_clean s b ++ us)) (kept-same r r1 xs held_by-same)
      ∙ ap (λ o. cs ++ (kept_one o b ++ kept r xs)) (sym found)

  settled_first :
      (r' : Region)
      → Cleaned xs (cs ++ to_clean s b) r1 r'
      → r'.segs (seg_of r.links b) ≡ settle r.align (held_by r b)
  settled_first r' rest =
      rest.others (seg_of r.links b)
        (λ x m. rw (one.seg_at x (other x m)) (ground (arith, other_seg x m)))
      ∙ one.settled_at
      ∙ ap (settle r.align) (sym found)

  linked_first :
      (r' : Region)
      → Cleaned xs (cs ++ to_clean s b) r1 r'
      → is_link r'.links b ≡ stays (held_by r b)
  linked_first r' rest = rest.linked b new ∙ one.linked_at ∙ ap stays (sym found)

  pub Cleaned-cons :
      (r' : Region) → Cleaned xs (cs ++ to_clean s b) r1 r' → Cleaned (b ∷ xs) cs r r'
  Cleaned-cons r' rest = record {
    view = rw kept_all at rest.view;
    settled_all = λ x m. elim (Bool-cases (x == b)) [
      | inl e ↦
          ap (λ z. r'.segs (seg_of r.links z)) ((==_iff x b).0 e)
          ∙ settled_first r' rest
          ∙ ap (λ z. settle r.align (held_by r z)) (sym ((==_iff x b).0 e))
      | inr ne ↦
          let m' : has x xs ≡ true = ground arith in
          ap r'.segs (sym (one.seg_at x ne))
          ∙ rest.settled_all x m'
          ∙ ap (settle r1.align) (held_by-same x m')
          ∙ ap (λ a. settle a (held_by r x)) one.align
    ];
    linked_all = λ x m. elim (Bool-cases (x == b)) [
      | inl e ↦
          let z = (==_iff x b).0 e in
          ap (is_link r'.links) z ∙ linked_first r' rest ∙ ap (λ y. stays (held_by r y)) (sym z)
      | inr ne ↦
          let m' : has x xs ≡ true = ground arith in
          rest.linked_all x m' ∙ ap stays (held_by-same x m')
    ];
    linked = λ q out. rest.linked q (ground arith) ∙ one.linked q (ground arith);
    others = λ q far.
        rest.others q (λ x m. rw (one.seg_at x (other x m)) (far x (ground arith)))
        ∙ one.others q (far b (ground arith));
    align = rest.align ∙ one.align;
    start = rest.start ∙ one.start;
    batcher = rest.batcher ∙ one.batcher;
  }

-- The last round.
module _ (r r1 : Region) (cs : List Ptr) (d : Ptr) (v : IsRegion r cs (d ∷ []))
    (mem : has d (d ∷ []) ≡ true)
    (one : Settled (settling r cs (d ∷ []) v d mem) d cs (d ∷ []) r r1) where
  abbrev cs1 : List Ptr
  cs1 = cs ++ to_clean (settling r cs (d ∷ []) v d mem) d

  all_done : IsRegion r1 cs1 []
  all_done = let self : (d == d) ≡ true = (==_iff d d).1 refl in rw self at one.view

  pub Cleaned-last : Cleaned (d ∷ []) cs r r1
  Cleaned-last =
      Cleaned-cons r r1 cs (d ∷ []) v d [] mem (λ x m. cc) refl one r1
        (record {
          view = rw append-nil all_done;
          settled_all = λ x m. cc;
          linked_all = λ x m. cc;
          linked = λ q _. refl;
          others = λ q _. refl;
          align = refl;
          start = refl;
          batcher = refl;
        })
