-- ===== src/Links/Transfer.antt =====
-- A link moves from one circular list to the end of another (template/link.c: what `move_to_clean`
-- and `move_to_dirty` do under `link_lock`).
use transactional_memory.Base.{
  ◌≡◌, refl, ◌∙◌, inl, inr, true, false, List, [], ◌∷◌, ◌++◌, ok, ◌==◌, Bool-cases, arith,
}
use transactional_memory.Links.{Ptr, null, Heap, transfer}
use transactional_memory.Links.Ring.{
  is_link, next_of, prev_of, seg_of, has, Circle, Ring, has-ne, Chain-frame, has-append,
  AllLinks-has, Elsewhere, AllLinks-same,
}
use transactional_memory.Links.Insert.{_link_insert-Inserted}
use transactional_memory.Links.Remove.{erase, has-erase_self, link_remove-Removed}

abbrev pub Apart : List Ptr → List Ptr → Type 0
Apart ps qs = (q : Ptr) → has q ps ≡ true → has q qs ≡ false

pub Apart-sym : (ps qs : List Ptr) → Apart ps qs → Apart qs ps
Apart-sym ps qs apart q m = elim (Bool-cases (has q ps)) [
  | inl both ↦ ground (arith, apart q)
  | inr out ↦ out
]

pub erase-has : (q x : Ptr) (ps : List Ptr) → has q (erase x ps) ≡ true → has q ps ≡ true
erase-has q x [] m = cc
erase-has q x (p ∷ ps) m = elim (Bool-cases (x == p)) [
  | inl here ↦ ground arith
  | inr later ↦ ground (arith, erase-has q x ps)
]

module _ (h h' : Heap) (qs : List Ptr) (far : Elsewhere qs h h') where
  Circle-far : (base : Ptr) (ps : List Ptr) → Apart ps qs → Circle h base ps → Circle h' base ps
  Circle-far base [] apart c = c
  Circle-far base (p ∷ ps) apart c = (
    c.0,
    Chain-frame (next_of h) (prev_of h) (next_of h') (prev_of h') p ps p
        (λ q m. far.nexts q (apart q m)) (λ q m. far.prevs q (apart q m)) c.1,
  )

  -- A list apart from all that was written stays as it is.
  pub Ring-far : (base : Ptr) (ps : List Ptr) → Apart ps qs → Ring h base ps → Ring h' base ps
  Ring-far base ps apart ring = record {
    circle = Circle-far base ps apart ring.circle;
    distinct = ring.distinct;
    links = AllLinks-same h h' ps (λ q _. far.same q) ring.links;
    not_null = ring.not_null;
  }

-- Where a link has moved from the list `ps` to the end of `qs`.
pub record Transferred (x : Ptr) (ps qs : List Ptr) (h : Heap) (r : Ptr × Ptr × Heap) : Type 0 where
  pub source : Ring r.2 r.0 (erase x ps)
  pub target : Ring r.2 r.1 (qs ++ x ∷ [])
  pub segs : (q : Ptr) → seg_of r.2 q ≡ seg_of h q
  pub same : (q : Ptr) → is_link r.2 q ≡ is_link h q

module _ (x : Ptr) (ps qs : List Ptr) (h : Heap) (apart : Apart ps qs) (mem : has x ps ≡ true) where
  -- What is left of the first list is apart from the second, `x` included.
  pub rest-Apart : (from : Ptr) → Ring h from ps → Apart (erase x ps) (qs ++ x ∷ [])
  rest-Apart from ring q m =
      let ne = has-ne q x (erase x ps) m (has-erase_self x ps ring.distinct) in
      ground (arith, has-append q qs (x ∷ []), apart q (erase-has q x ps m))

  -- Between two lists that share no link, the move ends without a fault: the link is gone from the
  -- first list and at the end of the second, and every link has its segment.
  pub transfer-Transferred :
      (from to : Ptr)
      → Ring h from ps
      → Ring h to qs
      → (r : Ptr × Ptr × Heap) × (transfer from to x h ≡ ok r) × Transferred x ps qs h r
  unfolding transfer
  transfer-Transferred from to first second =
      let ((from', h1), e1, _, removed) = link_remove-Removed from x ps h first mem in
      let there = removed.elsewhere.same x ∙ AllLinks-has h ps x first.links mem in
      let real : has null (x ∷ []) ≡ false = ground (arith, has-ne x null ps mem first.not_null) in
      let second' = Ring-far h h1 ps removed.elsewhere to qs (Apart-sym ps qs apart) second in
      let ((to', h2), e2, inserted) =
        _link_insert-Inserted to x qs h1 second' there real (apart x mem) in
      (
        (from', to', h2),
        rw (e1, e2) refl,
        record {
          source =
              Ring-far h1 h2 (qs ++ x ∷ []) inserted.elsewhere from' (erase x ps)
                (rest-Apart from first) removed.ring;
          target = inserted.ring;
          segs = λ q. inserted.elsewhere.segs q ∙ removed.elsewhere.segs q;
          same = λ q. inserted.elsewhere.same q ∙ removed.elsewhere.same q;
        },
      )
