-- ===== src/Links/Discard.antt =====
-- A link that is made or stored (template/link.c): the lists that do not hold it stay.
use transactional_memory.Base.{◌≡◌, refl, true, false, Option, List, [], ◌∷◌, ◌==◌, ==_iff, arith}
use transactional_memory.Links.{Ptr, Link, Heap, store}
use transactional_memory.Links.Ring.{
  next_of, prev_of, is_link, has, Circle, Ring, has-ne, Chain-frame, AllLinks-same,
}

module _ (h : Heap) (x : Ptr) (o : Option Link) where
  abbrev pub stored : Heap
  stored = store x o h

  pub stored_self : stored x ≡ o
  unfolding store
  stored_self = let self : (x == x) ≡ true = (==_iff x x).1 refl in rw self refl

  pub stored-other : (q : Ptr) → (q == x) ≡ false → stored q ≡ h q
  unfolding store
  stored-other q ne = rw ne

  module _ (ps : List Ptr) (out : has x ps ≡ false) where
    stored-inside : (q : Ptr) → has q ps ≡ true → stored q ≡ h q
    stored-inside q m = let ne = has-ne q x ps m out in stored-other q (ground arith)

    stored-next : (q : Ptr) → has q ps ≡ true → next_of stored q ≡ next_of h q
    stored-next q m = rw (stored-inside q m) refl

    stored-prev : (q : Ptr) → has q ps ≡ true → prev_of stored q ≡ prev_of h q
    stored-prev q m = rw (stored-inside q m) refl

    stored-is_link : (q : Ptr) → has q ps ≡ true → is_link stored q ≡ is_link h q
    stored-is_link q m = rw (stored-inside q m) refl

  stored-Circle :
      (base : Ptr) (ps : List Ptr) → has x ps ≡ false → Circle h base ps → Circle stored base ps
  stored-Circle base [] out c = c
  stored-Circle base (p ∷ ps) out c = (
    c.0,
    Chain-frame (next_of h) (prev_of h) (next_of stored) (prev_of stored) p ps p
        (stored-next (p ∷ ps) out) (stored-prev (p ∷ ps) out) c.1,
  )

  -- A list that does not hold the link stays.
  pub stored-Ring :
      (base : Ptr) (ps : List Ptr) → has x ps ≡ false → Ring h base ps → Ring stored base ps
  stored-Ring base ps out ring = record {
    circle = stored-Circle base ps out ring.circle;
    distinct = ring.distinct;
    links = AllLinks-same h stored ps (stored-is_link ps out) ring.links;
    not_null = ring.not_null;
  }
