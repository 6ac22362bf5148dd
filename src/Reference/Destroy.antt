-- ===== src/Reference/Destroy.antt =====
-- `tm_destroy` (reference/tm.c).
use mathlib.Core.Path.{subst}
use transactional_memory.Base.{
  ℕ, zero, suc, ◌<◌, ◌≡◌, refl, sym, ◌∙◌, ap, Bool, true, false, Option, none, List, [], ◌∷◌, Run,
  ok, fault, ◌>>=◌, ◌==◌, if◌then◌else◌, length, ==_iff, arith,
}
use transactional_memory.Links.Ring.{has, Distinct, has-ne, Chain-frame}
use transactional_memory.Links.Remove.{erase}
use transactional_memory.Reference.{
  Ptr, Link, Store, Region, load, set_link, mark_block, link_ref_remove, free_block, allocs_of,
  free_allocs, free_region, lock_cleanup, tm_destroy,
}
use transactional_memory.Reference.Allocs.{
  field, next_of, prev_of, IsList, load-ok, link_ref_remove-Listed,
}

abbrev pub freed : Ptr → Store → Store
freed p s = set_link p none (mark_block p false s)

pub free_block-ok : (p : Ptr) (s : Store) → s.blocks p ≡ true → free_block p p s ≡ ok (freed p s)
unfolding free_block
free_block-ok p s e = rw e

-- A write to a link that is not in the list, and to its block.
pub set_link-IsList :
    (p base : Ptr) (ps : List Ptr) (o : Option Link) (b : Bool) (s : Store)
    → IsList s base ps
    → has p (base ∷ ps) ≡ false
    → IsList (set_link p o (mark_block p b s)) base ps
set_link-IsList p base ps o b s list out =
    let s' = set_link p o (mark_block p b s) in
    record {
      chain =
          Chain-frame (next_of s) (prev_of s) (next_of s') (prev_of s') base ps base
            (λ q m. ground (arith, has-ne q p (base ∷ ps) m out))
            (λ q m. ground (arith, has-ne q p (base ∷ ps) m out)) list.chain;
      distinct = list.distinct;
      links = λ q m. ground (arith, list.links q m, has-ne q p (base ∷ ps) m out);
    }

-- Blocks that the list holds, and the blocks behind their release.
abbrev pub HasBlocks : Store → List Ptr → Type 0
HasBlocks s ps = (q : Ptr) → has q ps ≡ true → s.blocks q ≡ true

abbrev pub without : List Ptr → Store → Ptr → Bool
without ps s q = if has q ps then false else s.blocks q

module _ (fuel base : ℕ) (s : Store) (b : Link) (e : load base s ≡ ok b) where
  abbrev free_first : Run Store
  free_first = link_ref_remove b.next s >>= λ s'.
      free_block b.next b.next s' >>= λ s''. free_allocs fuel base s''

  abbrev unless_last : Bool → Run Store
  unless_last t = elim t [ true ↦ ok s | false ↦ free_first ]

  free_allocs_done : (b.next == base) ≡ true → free_allocs (suc fuel) base s ≡ ok s
  unfolding free_allocs
  free_allocs_done n = rw e (ap unless_last n)

  free_allocs_step :
      (s' s'' : Store)
      → (b.next == base) ≡ false
      → link_ref_remove b.next s ≡ ok s'
      → free_block b.next b.next s' ≡ ok s''
      → free_allocs (suc fuel) base s ≡ free_allocs fuel base s''
  unfolding free_allocs
  free_allocs_step s' s'' n er ef = rw e (
      ap unless_last n
      ∙ (ap
            (λ (r : Run Store).
              r >>= λ t. free_block b.next b.next t >>= λ u. free_allocs fuel base u)
            er
          ∙ ap (λ (r : Run Store). r >>= λ u. free_allocs fuel base u) ef))

  free_allocs_next :
      (p : Ptr) (s' s'' : Store)
      → b.next ≡ p
      → (p == base) ≡ false
      → link_ref_remove p s ≡ ok s'
      → free_block p p s' ≡ ok s''
      → free_allocs (suc fuel) base s ≡ free_allocs fuel base s''
  free_allocs_next p s' s'' first n er ef =
      free_allocs_step s' s'' (subst (λ t. (t == base) ≡ false) (sym first) n)
        (subst (λ t. link_ref_remove t s ≡ ok s') (sym first) er)
        (subst (λ t. free_block t t s' ≡ ok s'') (sym first) ef)

erase-cons : (p : Ptr) (ps : List Ptr) → erase p (p ∷ ps) ≡ ps
erase-cons p ps = ground arith

-- The links of the list, without its first.
apart : (base p : Ptr) (ps : List Ptr) → Distinct (base ∷ p ∷ ps) → has p (base ∷ ps) ≡ false
apart base p ps d = ground arith

not_base : (base p : Ptr) (ps : List Ptr) → has p (base ∷ ps) ≡ false → (p == base) ≡ false
not_base base p ps out = ground arith

module _ (p : Ptr) (ps : List Ptr) (s s' : Store)
    (same : (r : Ptr) → s'.blocks r ≡ s.blocks r) where
  freed-HasBlocks :
      (base : Ptr) → HasBlocks s (p ∷ ps) → has p (base ∷ ps) ≡ false → HasBlocks (freed p s') ps
  freed-HasBlocks base all out q m =
      let ne = has-ne q p (base ∷ ps) (ground arith) out in
      ground (arith, same q, all q (ground arith), ne)

  without-cons : (q : Ptr) → without ps (freed p s') q ≡ without (p ∷ ps) s q
  without-cons q = ground (arith, same q)

-- The loop frees the blocks of the list, and nothing else.
free_allocs-frees :
    (fuel base : ℕ) (ps : List Ptr) (s : Store)
    → length ps < fuel
    → IsList s base ps
    → HasBlocks s ps
    → (s' : Store) × (free_allocs fuel base s ≡ ok s')
      × ((q : Ptr) → s'.blocks q ≡ without ps s q)
      × ((a : ℕ) → s'.bytes a ≡ s.bytes a)
free_allocs-frees zero base ps s enough list has_blocks = absurd (omega arith)
free_allocs-frees (suc fuel) base [] s enough list has_blocks =
    let (b, eb, at) = load-ok base s (list.links base (ground arith)) in
    let last : b.next ≡ base = sym (ap (field (λ l. l.next)) at) ∙ list.chain.0 in
    (s, free_allocs_done fuel base s b eb ((==_iff b.next base).1 last), (λ q. refl), λ a. refl)
free_allocs-frees (suc fuel) base (p ∷ ps) s enough list has_blocks =
    let (b, eb, at) = load-ok base s (list.links base (ground arith)) in
    let first : b.next ≡ p = sym (ap (field (λ l. l.next)) at) ∙ list.chain.0 in
    let (s', er, listed) = link_ref_remove-Listed p base (p ∷ ps) s list (ground arith) in
    let block : s'.blocks p ≡ true = listed.blocks p ∙ has_blocks p (ground arith) in
    let rest : IsList s' base ps = subst (IsList s' base) (erase-cons p ps) listed.list in
    let out : has p (base ∷ ps) ≡ false = apart base p ps list.distinct in
    let (s'', ef, bl, by) =
      free_allocs-frees fuel base ps (freed p s') (omega arith)
        (set_link-IsList p base ps none false s' rest out)
        (freed-HasBlocks p ps s s' listed.blocks base has_blocks out) in
    (
      s'',
      free_allocs_next fuel base s b eb p s' (freed p s') first (not_base base p ps out) er
            (free_block-ok p s' block)
          ∙ ef,
      (λ q. bl q ∙ without-cons p ps s s' listed.blocks q),
      (λ a. by a ∙ listed.bytes a),
    )

-- What a region owns: its own block, that of its first segment, and those of the list, all apart.
pub record IsOwned (r : Region) (s : Store) (ps : List Ptr) : Type 0 where
  pub list : IsList s (allocs_of r.region) ps
  pub segments : HasBlocks s ps
  pub first : s.blocks r.start ≡ true
  pub itself : s.blocks r.region ≡ true
  pub first_apart : has r.start ps ≡ false
  pub itself_apart : has r.region (r.start ∷ ps) ≡ false

pub free_block-any :
    (p link : Ptr) (s : Store)
    → s.blocks p ≡ true
    → free_block p link s ≡ ok (set_link link none (mark_block p false s))
unfolding free_block
free_block-any p link s e = rw e

free_region_steps :
    (fuel : ℕ) (r : Region) (s s1 s2 s3 : Store)
    → free_allocs fuel (allocs_of r.region) s ≡ ok s1
    → free_block r.start r.start s1 ≡ ok s2
    → free_block r.region (allocs_of r.region) s2 ≡ ok s3
    → free_region fuel r s ≡ ok s3
unfolding free_region
free_region_steps fuel r s s1 s2 s3 e1 e2 e3 = rw (e1, e2, e3)

-- The lock goes with its region.
lock_cleanup_faults :
    (region : Ptr) (s : Store) → s.blocks region ≡ false → lock_cleanup region s ≡ fault
unfolding lock_cleanup
lock_cleanup_faults region s gone = rw gone refl

tm_destroy_steps :
    (fuel : ℕ) (r : Region) (s s' : Store)
    → free_region fuel r s ≡ ok s'
    → s'.blocks r.region ≡ false
    → tm_destroy fuel r s ≡ fault
unfolding tm_destroy
tm_destroy_steps fuel r s s' e gone = rw e (lock_cleanup_faults r.region s' gone)

-- Destroying a region that owns the segments `ps`, with enough fuel for their number, frees its block,
-- its first segment's and theirs, once each, and no other; and then it faults, since it cleans up the
-- lock that is in the region's block.
pub tm_destroy_lem :
    (fuel : ℕ) (r : Region) (ps : List Ptr) (s : Store)
    → length ps < fuel
    → IsOwned r s ps
    → (s' : Store) × (free_region fuel r s ≡ ok s')
      × ((q : Ptr) → s'.blocks q ≡ without (r.region ∷ r.start ∷ ps) s q)
      × (tm_destroy fuel r s ≡ fault)
tm_destroy_lem fuel r ps s enough owned =
    let (s1, e1, bl, by) =
      free_allocs-frees fuel (allocs_of r.region) ps s enough owned.list owned.segments in
    let start1 : s1.blocks r.start ≡ true =
      ground (arith, bl r.start, owned.first, owned.first_apart) in
    let s2 = freed r.start s1 in
    let region2 : s2.blocks r.region ≡ true =
      ground (arith, bl r.region, owned.itself, owned.itself_apart) in
    let s3 = set_link (allocs_of r.region) none (mark_block r.region false s2) in
    let e : free_region fuel r s ≡ ok s3 =
      free_region_steps fuel r s s1 s2 s3 e1 (free_block-ok r.start s1 start1)
        (free_block-any r.region (allocs_of r.region) s2 region2) in
    (s3, e, (λ q. ground (arith, bl q)), tm_destroy_steps fuel r s s3 e (ground arith))
