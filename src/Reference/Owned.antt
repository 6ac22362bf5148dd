-- ===== src/Reference/Owned.antt =====
-- What `tm_create`, `tm_alloc` and `tm_free` do to the blocks of a region (reference/tm.c).
use mathlib.Core.Path.{subst}
use transactional_memory.Base.{
  ℕ, ◌+◌, ◌^◌, ◌<◌, ◌≡◌, ◌≢◌, ◌∙◌, ap, inl, inr, true, false, none, some, List, [], ◌∷◌, ◌++◌, ok,
  ◌==◌, if◌then◌else◌, Bool-cases, ==_iff, arith,
}
use transactional_memory.Words.{add64, sub64}
use transactional_memory.Links.Ring.{has, has-append}
use transactional_memory.Links.Remove.{erase}
use transactional_memory.Reference.{
  Ptr, Store, Region, take_block, memset_zero, in_range, link_ref_remove, link_ref_insert,
  free_block, allocs_of, tm_alloc, tm_free,
}
use transactional_memory.Reference.Allocs.{
  is_link, IsList, link_ref_insert-Listed, link_ref_remove-Listed,
}
use transactional_memory.Reference.Destroy.{freed, free_block-ok, set_link-IsList, IsOwned}

-- A block that the allocator can give: none that is in use, and not inside the region's record.
pub record IsFresh (p : Ptr) (r : Region) (s : Store) : Type 0 where
  pub unused : s.blocks p ≡ false
  pub outside : p ≢ allocs_of r.region
  pub fits : p + r.delta_alloc < 2 ^ 64

tm_alloc_steps :
    (size p : ℕ) (r : Region) (s s' : Store)
    → link_ref_insert p (allocs_of r.region) (take_block p p s) ≡ ok s'
    → tm_alloc size (some p) r s
      ≡ ok (some (add64 p r.delta_alloc), memset_zero (add64 p r.delta_alloc) size s')
unfolding tm_alloc
tm_alloc_steps size p r s s' e = rw e

tm_free_steps :
    (segment p : ℕ) (r : Region) (s s' s'' : Store)
    → sub64 segment r.delta_alloc ≡ p
    → link_ref_remove p s ≡ ok s'
    → free_block p p s' ≡ ok s''
    → tm_free segment r s ≡ ok s''
unfolding tm_free
tm_free_steps segment p r s s' s'' e er ef = rw (e, er, ef)

erase-snoc : (p : Ptr) (ps : List Ptr) → has p ps ≡ false → erase p (ps ++ p ∷ []) ≡ ps
erase-snoc p [] out = ground arith
erase-snoc p (q ∷ ps) out = ground (arith, erase-snoc p ps)

-- No block of the region is given a second time.
module _ (p : Ptr) (r : Region) (s : Store) (ps : List Ptr) (owned : IsOwned r s ps)
    (fresh : IsFresh p r s) where
  fresh-apart : has p ps ≡ false
  fresh-apart = elim (Bool-cases (has p ps)) [
    | inl held ↦ cc (owned.segments p held, fresh.unused)
    | inr out ↦ out
  ]

  fresh-start : (r.start == p) ≡ false
  fresh-start = elim (Bool-cases (r.start == p)) [
    | inl e ↦ cc (owned.first, fresh.unused, (==_iff r.start p).0 e)
    | inr ne ↦ ne
  ]

  fresh-region : (r.region == p) ≡ false
  fresh-region = elim (Bool-cases (r.region == p)) [
    | inl e ↦ cc (owned.itself, fresh.unused, (==_iff r.region p).0 e)
    | inr ne ↦ ne
  ]

  fresh-list : has p (allocs_of r.region ∷ ps) ≡ false
  fresh-list = ground (arith, fresh.outside, fresh-apart)

  taken : Store
  taken = take_block p p s

  taken-IsList : IsList taken (allocs_of r.region) ps
  unfolding taken
  taken-IsList = set_link-IsList p (allocs_of r.region) ps _ true s owned.list fresh-list

  taken-link : is_link taken p ≡ true
  unfolding taken
  taken-link = ground arith

  -- The blocks behind `tm_alloc`, whose list is the former one with the new segment at its end.
  allocated-IsOwned :
      (s' : Store)
      → IsList s' (allocs_of r.region) (ps ++ p ∷ [])
      → ((q : Ptr) → s'.blocks q ≡ (if q == p then true else s.blocks q))
      → IsOwned r s' (ps ++ p ∷ [])
  allocated-IsOwned s' list blocks = record {
    list = list;
    segments = λ q m. ground (arith, blocks q, owned.segments q, has-append q ps (p ∷ []));
    first = ground (arith, blocks r.start, owned.first);
    itself = ground (arith, blocks r.region, owned.itself);
    first_apart = ground (arith, has-append r.start ps (p ∷ []), owned.first_apart, fresh-start);
    itself_apart =
        ground (arith, has-append r.region ps (p ∷ []), owned.itself_apart, fresh-region);
  }

  -- The blocks behind the `tm_free` of that segment.
  released-IsOwned :
      (s' : Store)
      → IsList s' (allocs_of r.region) ps
      → ((q : Ptr) → s'.blocks q ≡ s.blocks q)
      → IsOwned r s' ps
  released-IsOwned s' list blocks = record {
    list = list;
    segments = λ q m. blocks q ∙ owned.segments q m;
    first = blocks r.start ∙ owned.first;
    itself = blocks r.region ∙ owned.itself;
    first_apart = owned.first_apart;
    itself_apart = owned.itself_apart;
  }

  released-blocks :
      (s1 s3 : Store)
      → ((q : Ptr) → s1.blocks q ≡ taken.blocks q)
      → ((q : Ptr) → s3.blocks q ≡ s1.blocks q)
      → (q : Ptr) → (freed p s3).blocks q ≡ s.blocks q
  unfolding taken
  released-blocks s1 s3 b1 b3 q = elim (Bool-cases (q == p)) [
    | inl e ↦ ground (arith, fresh.unused, ap s.blocks ((==_iff q p).0 e))
    | inr ne ↦ ground (arith, b1 q, b3 q)
  ]

-- What `tm_alloc` gives, and what `tm_free` makes of it.
pub record Lent (size p : ℕ) (r : Region) (ps : List Ptr) (s s1 s2 : Store) : Type 0 where
  pub allocates : tm_alloc size (some p) r s ≡ ok (some (p + r.delta_alloc), s1)
  pub owned : IsOwned r s1 (ps ++ p ∷ [])
  pub zeroed : (a : ℕ) → in_range (p + r.delta_alloc) size a ≡ true → s1.bytes a ≡ 0
  pub kept : (a : ℕ) → in_range (p + r.delta_alloc) size a ≡ false → s1.bytes a ≡ s.bytes a
  pub frees : tm_free (p + r.delta_alloc) r s1 ≡ ok s2
  pub released : IsOwned r s2 ps
  pub blocks : (q : Ptr) → s2.blocks q ≡ s.blocks q

bytes-IsList :
    (base : Ptr) (ps : List Ptr) (f : ℕ → ℕ) (s : Store)
    → IsList s base ps
    → IsList (record s { bytes = f }) base ps
bytes-IsList base ps f s list = record {
  chain = list.chain;
  distinct = list.distinct;
  links = list.links;
}

-- For a region that owns the segments `ps`, and a block that is not in use, is outside the region's
-- record and does not reach the end of the addresses: `tm_alloc` gives the address behind the room
-- for the link, sets the segment's bytes to zero and no other, and the region owns the block then;
-- `tm_free` of that address takes the block back, and leaves just the blocks from before.
pub tm_alloc-tm_free :
    (size p : ℕ) (r : Region) (ps : List Ptr) (s : Store)
    → IsOwned r s ps
    → IsFresh p r s
    → (s1 : Store) × (s2 : Store) × Lent size p r ps s s1 s2
unfolding taken
tm_alloc-tm_free size p r ps s owned fresh =
    let base = allocs_of r.region in
    let out = fresh-list p r s ps owned fresh in
    let list0 = taken-IsList p r s ps owned fresh in
    let new = taken-link p r s ps owned fresh in
    let t : add64 p r.delta_alloc ≡ p + r.delta_alloc = omega (arith, fresh.fits) in
    let (s0, e0, l0) = link_ref_insert-Listed p base ps (take_block p p s) list0 new out in
    let s1 : Store = memset_zero (p + r.delta_alloc) size s0 in
    let list1 : IsList s1 base (ps ++ p ∷ []) =
      bytes-IsList base (ps ++ p ∷ []) s1.bytes s0 l0.list in
    let held : has p (ps ++ p ∷ []) ≡ true = ground (arith, has-append p ps (p ∷ [])) in
    let (s3, e3, l3) = link_ref_remove-Listed p base (ps ++ p ∷ []) s1 list1 held in
    let list3 : IsList s3 base ps =
      subst (IsList s3 base) (erase-snoc p ps (fresh-apart p r s ps owned fresh)) l3.list in
    let block : s3.blocks p ≡ true = ground (arith, l3.blocks p, l0.blocks p) in
    let blocks = released-blocks p r s ps owned fresh s0 s3 l0.blocks l3.blocks in
    (
      s1,
      freed p s3,
      record {
        allocates =
            subst (λ a. tm_alloc size (some p) r s ≡ ok (some a, memset_zero a size s0)) t
              (tm_alloc_steps size p r s s0 e0);
        owned = allocated-IsOwned p r s ps owned fresh s1 list1 l0.blocks;
        zeroed = λ a m. ground arith;
        kept = λ a m. ground (arith, l0.bytes a);
        frees =
            tm_free_steps (p + r.delta_alloc) p r s1 s3 (freed p s3) (omega (arith, fresh.fits)) e3
              (free_block-ok p s3 block);
        released =
            released-IsOwned p r s ps owned fresh (freed p s3)
              (set_link-IsList p base ps none false s3 list3 out) blocks;
        blocks = blocks;
      },
    )
