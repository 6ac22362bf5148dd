-- ===== src/Reference/Tests.antt =====
-- A region of the reference implementation with one allocated segment (reference/tm.c).
use transactional_memory.Base.{
  ℕ, ◌*◌, ◌+◌, ◌<◌, ◌≤◌, ◌≡◌, refl, true, false, Option, none, some, [], ◌∷◌, ok, fault, Ensures,
  ◌==◌, if◌then◌else◌, arith,
}
use transactional_memory.Reference.{
  Ptr, Link, Store, Region, link_size, align_alloc_of, delta_alloc_of, tm_create, free_region,
  tm_destroy,
}
use transactional_memory.Reference.Layout.{delta_alloc_of-bounds}
use transactional_memory.Reference.Destroy.{IsOwned, without, tm_destroy_lem}
use transactional_memory.Reference.Owned.{IsFresh, Lent, tm_alloc-tm_free}
use transactional_memory.Reference.Create.{Created, is_some, tm_create-Created}

abbrev empty_store : Store
empty_store = record { links = λ p. none; bytes = λ a. 7; blocks = λ p. false }

abbrev region : Region
region = record {
  region = 1000;
  start = 2000;
  size = 64;
  align = 8;
  align_alloc = 8;
  delta_alloc = 16;
}

abbrev linked : (p prev next : Ptr) → (Ptr → Option Link) → Ptr → Option Link
linked p prev next f q = if q == p then some (record { prev = prev; next = next }) else f q

-- The region without segments, and with one at 3000.
abbrev without_segments : Store
without_segments = record {
  links = linked 1064 1064 1064 (λ p. none);
  bytes = λ a. 0;
  blocks = λ p. if p == 1000 then true else p == 2000;
}

abbrev with_segment : Store
with_segment = record {
  links = linked 1064 3000 3000 (linked 3000 1064 1064 (λ p. none));
  bytes = λ a. 0;
  blocks = λ p. if p == 1000 then true else (if p == 2000 then true else p == 3000);
}

without_segments-IsOwned : IsOwned region without_segments []
without_segments-IsOwned = record {
  list = record { chain = (refl, refl); distinct = (refl, tt); links = λ q m. ground arith };
  segments = λ q m. cc;
  first = refl;
  itself = refl;
  first_apart = refl;
  itself_apart = refl;
}

with_segment-IsOwned : IsOwned region with_segment (3000 ∷ [])
with_segment-IsOwned = record {
  list = record {
    chain = (refl, refl, (refl, refl));
    distinct = (refl, (refl, tt));
    links = λ q m. ground arith;
  };
  segments = λ q m. ground arith;
  first = refl;
  itself = refl;
  first_apart = refl;
  itself_apart = refl;
}

delta_alloc_of-bounds_example :
    (8 ≤ align_alloc_of 32)
    × (link_size ≤ delta_alloc_of (align_alloc_of 32))
    × (delta_alloc_of (align_alloc_of 32) < link_size + align_alloc_of 32)
    × (k : ℕ) × (delta_alloc_of (align_alloc_of 32) ≡ k * align_alloc_of 32)
delta_alloc_of-bounds_example = delta_alloc_of-bounds 32 (omega arith)

tm_create-Created_example :
    Ensures
      (λ (x : Option Region × Store). Created 64 empty_store x.0 x.1 × (is_some x.0 ≡ true))
      (tm_create 64 8 (some 1000) (some 2000) true empty_store)
tm_create-Created_example =
    tm_create-Created 64 8 (some 1000) (some 2000) true empty_store refl refl (λ e. omega arith)

tm_destroy_lem_example :
    (s' : Store) × (free_region 2 region with_segment ≡ ok s')
    × ((q : Ptr) → s'.blocks q ≡ without (1000 ∷ 2000 ∷ 3000 ∷ []) with_segment q)
    × (tm_destroy 2 region with_segment ≡ fault)
tm_destroy_lem_example =
    tm_destroy_lem 2 region (3000 ∷ []) with_segment (omega arith) with_segment-IsOwned

fresh : IsFresh 3000 region without_segments
fresh = record { unused = refl; outside = λ e. omega arith; fits = omega arith }

tm_alloc-tm_free_example :
    (s1 : Store) × (s2 : Store) × Lent 24 3000 region [] without_segments s1 s2
tm_alloc-tm_free_example =
    tm_alloc-tm_free 24 3000 region [] without_segments without_segments-IsOwned fresh
