-- ===== src/Reference/Create.antt =====
-- `tm_create` on its branches (reference/tm.c).
use mathlib.Core.Path.{subst}
use transactional_memory.Base.{
  ℕ, ◌≡◌, ◌≢◌, refl, sym, ◌∙◌, ap, inl, inr, Bool, true, false, ◌&&◌, Option, none, some, [], ok,
  Ensures, ◌==◌, Bool-cases, ==_iff, arith,
}
use transactional_memory.Reference.{
  Ptr, Store, Region, set_link, mark_block, take_block, memset_zero, in_range, link_ref_reset,
  set_prev, set_next, allocs_of, align_alloc_of, delta_alloc_of, new_region, tm_create,
}
use transactional_memory.Reference.Allocs.{is_link, IsList, set_next-ok, set_prev-ok}
use transactional_memory.Reference.Destroy.{freed, free_block-ok, free_block-any, IsOwned}

link_ref_reset_steps :
    (x : Ptr) (s s1 s2 : Store)
    → set_prev x x s ≡ ok s1
    → set_next x x s1 ≡ ok s2
    → link_ref_reset x s ≡ ok s2
unfolding link_ref_reset
link_ref_reset_steps x s s1 s2 e1 e2 = rw (e1, e2)

-- A link that is reset is a list with no segments.
pub link_ref_reset-IsList :
    (x : Ptr) (s : Store)
    → is_link s x ≡ true
    → (s' : Store) × (link_ref_reset x s ≡ ok s')
      × IsList s' x []
      × ((q : Ptr) → s'.blocks q ≡ s.blocks q)
      × ((a : ℕ) → s'.bytes a ≡ s.bytes a)
link_ref_reset-IsList x s there =
    let (s1, e1, w1) = set_prev-ok x s there x in
    let (s2, e2, w2) = set_next-ok x s1 (w1.same x ∙ there) x in
    (
      s2,
      link_ref_reset_steps x s s1 s2 e1 e2,
      record {
        chain = (ground (arith, w2.nexts x), ground (arith, w2.prevs x, w1.prevs x));
        distinct = (refl, tt);
        links =
            λ q m. w2.same q ∙ w1.same q ∙ ap (is_link s) ((==_iff q x).0 (ground arith)) ∙ there;
      },
      (λ q. w2.blocks q ∙ w1.blocks q),
      (λ a. w2.bytes a ∙ w1.bytes a),
    )

-- What `tm_create` leaves: a region without segments, or all blocks as before.
abbrev pub Created : (size : ℕ) → Store → Option Region → Store → Type 0
Created size s none s' = (q : Ptr) → s'.blocks q ≡ s.blocks q
Created size s (some r) s' =
    IsOwned r s' [] × (r.size ≡ size) × ((a : ℕ) → in_range r.start size a ≡ true → s'.bytes a ≡ 0)

abbrev pub is_some : {A : Type 0} → Option A → Bool
is_some none = false
is_some (some a) = true

abbrev pub Unused : Store → Option Ptr → Type 0
Unused s none = Unit
Unused s (some p) = s.blocks p ≡ false

abbrev pub AreApart : Option Ptr → Option Ptr → Type 0
AreApart none q = Unit
AreApart (some p) none = Unit
AreApart (some p) (some q) = p ≢ q

-- The region and its first segment, from the allocator.
abbrev both_taken : (region start : Ptr) → Store → Store
both_taken region start s = mark_block start true (take_block region (allocs_of region) s)

module _ (size align region start : ℕ) (s : Store) (ne : region ≢ start)
    (unused_region : s.blocks region ≡ false) (unused_start : s.blocks start ≡ false) where
  abbrev made : Region
  made = record {
    region = region;
    start = start;
    size = size;
    align = align;
    align_alloc = align_alloc_of align;
    delta_alloc = delta_alloc_of (align_alloc_of align);
  }

  new_region_steps :
      (s' : Store)
      → link_ref_reset (allocs_of region) (memset_zero start size (both_taken region start s))
        ≡ ok s'
      → tm_create size align (some region) (some start) true s ≡ ok (some made, s')
  unfolding tm_create new_region
  new_region_steps s' e = rw e

  creates :
      Ensures
        (λ (x : Option Region × Store). Created size s x.0 x.1 × (is_some x.0 ≡ true))
        (tm_create size align (some region) (some start) true s)
  creates =
      let (s', e, list, bl, by) =
        link_ref_reset-IsList (allocs_of region)
          (memset_zero start size (both_taken region start s)) (ground arith) in
      subst (Ensures (λ (x : Option Region × Store). Created size s x.0 x.1 × (is_some x.0 ≡ true)))
        (sym (new_region_steps s' e))
        (
          (
            record {
              list = list;
              segments = λ q m. cc;
              first = ground (arith, bl start);
              itself = ground (arith, bl region, ne);
              first_apart = refl;
              itself_apart = ground (arith, ne);
            },
            refl,
            (λ a m. ground (arith, by a)),
          ),
          refl,
        )

  -- The lock cannot be initialised: both blocks are freed.
  unlocked_blocks :
      (q : Ptr)
      → (set_link
            (allocs_of region)
            none
            (mark_block region false (freed start (both_taken region start s)))).blocks
          q
        ≡ s.blocks q
  unlocked_blocks q = elim (Bool-cases (q == region)) [
    | inl r ↦ ground (arith, unused_region, ap s.blocks ((==_iff q region).0 r))
    | inr nr ↦ elim (Bool-cases (q == start)) [
      | inl t ↦ ground (arith, unused_start, ap s.blocks ((==_iff q start).0 t))
      | inr nt ↦ ground arith
    ]
  ]

  unlocked_steps :
      tm_create size align (some region) (some start) false s
      ≡ ok (
        none,
        set_link
            (allocs_of region)
            none
            (mark_block region false (freed start (both_taken region start s))),
      )
  unfolding tm_create
  unlocked_steps =
      let e1 = free_block-ok start (both_taken region start s) (ground arith) in
      let e2 =
        free_block-any region (allocs_of region) (freed start (both_taken region start s))
          (ground (arith, ne)) in
      rw (e1, e2) refl

module _ (size align region : ℕ) (s : Store) (unused : s.blocks region ≡ false) where
  no_start_steps :
      (b : Bool)
      → tm_create size align (some region) none b s
        ≡ ok (
          none,
          set_link
              (allocs_of region)
              none
              (mark_block region false (take_block region (allocs_of region) s)),
        )
  unfolding tm_create
  no_start_steps b =
      rw
        (free_block-any region (allocs_of region) (take_block region (allocs_of region) s)
          (ground arith))
        refl

  no_start_blocks :
      (q : Ptr)
      → (set_link
            (allocs_of region)
            none
            (mark_block region false (take_block region (allocs_of region) s))).blocks
          q
        ≡ s.blocks q
  no_start_blocks q = elim (Bool-cases (q == region)) [
    | inl r ↦ ground (arith, unused, ap s.blocks ((==_iff q region).0 r))
    | inr nr ↦ ground arith
  ]

-- Given blocks that are not in use, and not one block twice: `tm_create` returns on every branch. It
-- succeeds exactly if both blocks are given and the lock can be initialised; the region then owns
-- just its own block and its first segment, whose bytes are zero. Else all blocks are as before.
pub tm_create-Created :
    (size align : ℕ) (region start : Option Ptr) (lock_init : Bool) (s : Store)
    → Unused s region
    → Unused s start
    → AreApart region start
    → Ensures
        (λ (x : Option Region × Store).
          Created size s x.0 x.1 × (is_some x.0 ≡ (is_some region && is_some start && lock_init)))
        (tm_create size align region start lock_init s)
unfolding tm_create
tm_create-Created size align none start lock_init s ur us ap = ((λ q. refl), refl)
tm_create-Created size align (some r) none lock_init s ur us apart =
    subst (Ensures (λ (x : Option Region × Store). Created size s x.0 x.1 × (is_some x.0 ≡ false)))
      (sym (no_start_steps size align r s ur lock_init)) (no_start_blocks size align r s ur, refl)
tm_create-Created size align (some r) (some t) false s ur us apart =
    subst (Ensures (λ (x : Option Region × Store). Created size s x.0 x.1 × (is_some x.0 ≡ false)))
      (sym (unlocked_steps size align r t s apart ur us))
      (unlocked_blocks size align r t s apart ur us, refl)
tm_create-Created size align (some r) (some t) true s ur us apart =
    creates size align r t s apart ur us
