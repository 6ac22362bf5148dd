-- ===== src/Region/Insert.antt =====
-- `link_insert` (template/link.c): a new segment enters one of the lists.
use transactional_memory.Base.{
  ◌≡◌, refl, ◌∙◌, ap, inl, inr, Bool, true, false, none, some, List, [], ◌∷◌, ◌++◌, ok, ◌==◌,
  Bool-cases, ==_iff, arith,
}
use transactional_memory.Segment.{Segment}
use transactional_memory.Links.{Ptr, null, Link, Heap, store, _link_insert}
use transactional_memory.Links.Ring.{field, seg_of, is_link, has, Ring, has-ne, has-append}
use transactional_memory.Links.Insert.{_link_insert-Inserted}
use transactional_memory.Links.Transfer.{Apart, Ring-far}
use transactional_memory.Links.Discard.{stored, stored-other, stored-Ring}
use transactional_memory.Region.{Segs, store_seg, link_insert}
use transactional_memory.Region.Lists.{Held, load_seg-some, store_seg-same, store_seg-other}

-- The link `x` and the segment at `p` are new.
pub record IsFresh (h : Heap) (m : Segs) (x p : Ptr) (cs ds : List Ptr) : Type 0 where
  pub real : has null (x ∷ []) ≡ false
  pub not_clean : has x cs ≡ false
  pub not_dirty : has x ds ≡ false
  pub unused : m p ≡ none

Held-same :
    (h h' : Heap) (m m' : Segs) (a : Bool) (y : Ptr)
    → seg_of h' y ≡ seg_of h y
    → m' (seg_of h y) ≡ m (seg_of h y)
    → Held h m a y
    → Held h' m' a y
Held-same h h' m m' a y e e' held = record {
  seg = held.seg;
  found = ap m' e ∙ e' ∙ held.found;
  own_link = held.own_link;
  flag = held.flag;
}

module _ (h : Heap) (m : Segs) (x p : Ptr) (s : Segment) where
  abbrev new_link : Link
  new_link = record { seg = p; prev = null; next = null }

  abbrev pub linked_segs : Segs
  linked_segs = store_seg p (some (record s { link = x })) (store_seg p (some s) m)

  -- What `link_insert` leaves: the list with the new link, the other list, and who holds what.
  pub record Entered (ps qs : List Ptr) (other_base : Ptr) (r : Ptr × Heap × Segs) : Type 0 where
    pub grown : Ring r.1 r.0 (ps ++ x ∷ [])
    pub other : Ring r.1 other_base qs
    pub segs : r.2 ≡ linked_segs
    pub held_new : Held r.1 r.2 s.dirty x
    pub held_old : (a : Bool) (y : Ptr) → (y == x) ≡ false → Held h m a y → Held r.1 r.2 a y

  module _ (unused : m p ≡ none) where
    old_seg : (a : Bool) (y : Ptr) → Held h m a y → linked_segs (seg_of h y) ≡ m (seg_of h y)
    old_seg a y held =
        let ne : (seg_of h y == p) ≡ false = elim (Bool-cases (seg_of h y == p)) [
          | inl e ↦ cc (held.found, unused, ap m ((==_iff (seg_of h y) p).0 e))
          | inr n ↦ n
        ] in
        store_seg-other p (seg_of h y) _ (store_seg p (some s) m) ne
        ∙ store_seg-other p (seg_of h y) (some s) m ne

  link_insert_ends :
      (base base' : Ptr) (h' : Heap)
      → _link_insert base x (store x (some new_link) h) ≡ ok (base', h')
      → link_insert base p x h (store_seg p (some s) m) ≡ ok (base', h', linked_segs)
  unfolding link_insert
  link_insert_ends base base' h' e =
      rw (load_seg-some p (store_seg p (some s) m) s (store_seg-same p (some s) m), e) refl

  at_new : stored h x (some new_link) x ≡ some new_link
  unfolding store
  at_new = ground arith

  -- A new segment enters the list `ps` at its end, beside the list `qs`.
  pub link_insert-Entered :
      (base other_base : Ptr) (ps qs : List Ptr)
      → Ring h base ps
      → Ring h other_base qs
      → Apart qs ps
      → IsFresh h m x p ps qs
      → (r : Ptr × Heap × Segs) × (link_insert base p x h (store_seg p (some s) m) ≡ ok r)
        × Entered ps qs other_base r
  link_insert-Entered base other_base ps qs ring ring' apart new =
      let here : is_link (stored h x (some new_link)) x ≡ true = rw at_new refl in
      let ((base', h'), e, done) =
        _link_insert-Inserted base x ps (stored h x (some new_link))
          (stored-Ring h x (some new_link) base ps new.not_clean ring) here new.real
          new.not_clean in
      (
        (base', h', linked_segs),
        link_insert_ends base base' h' e,
        record {
          grown = done.ring;
          other =
              Ring-far (stored h x (some new_link)) h' (ps ++ x ∷ []) done.elsewhere other_base qs
                (λ q k.
                  let ne = has-ne q x qs k new.not_dirty in
                  ground (arith, has-append q ps (x ∷ []), apart q k))
                (stored-Ring h x (some new_link) other_base qs new.not_dirty ring');
          segs = refl;
          held_new = record {
            seg = record s { link = x };
            found =
                ap linked_segs (done.elsewhere.segs x ∙ ap (field (λ l. l.seg)) at_new)
                ∙ store_seg-same p (some (record s { link = x })) (store_seg p (some s) m);
            own_link = refl;
            flag = refl;
          };
          held_old = λ a y ne held.
              Held-same h h' m linked_segs a y
                (done.elsewhere.segs y
                  ∙ ap (field (λ l. l.seg)) (stored-other h x (some new_link) y ne))
                (old_seg new.unused a y held) held;
        },
      )
