-- ===== src/Links/Insert.antt =====
-- `_link_insert` (template/link.c) adds a link at the end of a circular list.
use mathlib.Core.Path.{subst}
use transactional_memory.Base.{
  ◌≡◌, ◌≢◌, refl, sym, ◌∙◌, ap, true, false, List, [], ◌∷◌, ◌++◌, ok, ◌==◌, arith,
}
use transactional_memory.Links.{
  Ptr, null, Link, Heap, load, set_prev, set_next, insert_alone, insert_last, _link_insert,
}
use transactional_memory.Links.Ring.{
  field, next_of, prev_of, is_link, has, Distinct, Chain, Ring, last, has-last, last-ne, Chain-last,
  Wrote, change, load-ok, set_next-ok, set_prev-ok, has-append, Distinct-snoc, AllLinks-has,
  Elsewhere, AllLinks-same, AllLinks-snoc,
}

-- The chain with `x` behind its last link `z`.
module _ (n p n' p' : Ptr → Ptr) (x z e : Ptr)
    (nexts : (r : Ptr) → n' r ≡ change (change n x e) z x r)
    (prevs : (r : Ptr) → p' r ≡ change (change p x z) e x r) where
  pub Chain-snoc :
      (a : Ptr) (bs : List Ptr)
      → Chain n p a bs e
      → Distinct (a ∷ bs)
      → has x (a ∷ bs) ≡ false
      → has e bs ≡ false
      → x ≢ e
      → z ≡ last a bs
      → Chain n' p' a (bs ++ x ∷ []) e
  Chain-snoc a [] c d new out ne l = (
    ground (arith, nexts a),
    ground (arith, prevs x),
    (ground (arith, nexts x), ground (arith, prevs e)),
  )
  Chain-snoc a (b ∷ bs) c d new out ne l =
      let far : a ≢ z = λ s. last-ne a b bs d.0 (s ∙ l) in
      (
        ground (arith, nexts a),
        ground (arith, prevs b),
        Chain-snoc b bs c.2 d.1 (ground arith) (ground arith) ne l,
      )

-- The four writes of `_link_insert` to a list that is not empty.
module _ (base x : Ptr) (h : Heap) (there : is_link h base ≡ true) (new : is_link h x ≡ true)
    (end : is_link h (prev_of h base) ≡ true) where
  abbrev z : Ptr
  z = prev_of h base

  insert_last_steps :
      (b : Link) (h1 h2 h3 h4 : Heap)
      → load base h ≡ ok b
      → b.prev ≡ z
      → set_prev x z h ≡ ok h1
      → set_next x base h1 ≡ ok h2
      → set_prev base x h2 ≡ ok h3
      → set_next z x h3 ≡ ok h4
      → insert_last base x h ≡ ok (base, h4)
  unfolding insert_last
  insert_last_steps b h1 h2 h3 h4 eb ez e1 e2 e3 e4 = rw (eb, ez, e1, e2, e3, e4)

  insert_last-Wrote :
      (h' : Heap) × (insert_last base x h ≡ ok (base, h'))
      × Wrote (change (change (next_of h) x base) z x) (change (change (prev_of h) x z) base x) h h'
  insert_last-Wrote =
      let (b, eb, at) = load-ok base h there in
      let (h1, e1, w1) = set_prev-ok x h new z in
      let (h2, e2, w2) = set_next-ok x h1 (w1.same x ∙ new) base in
      let (h3, e3, w3) = set_prev-ok base h2 (w2.same base ∙ w1.same base ∙ there) x in
      let (h4, e4, w4) = set_next-ok z h3 (w3.same z ∙ w2.same z ∙ w1.same z ∙ end) x in
      (
        h4,
        insert_last_steps b h1 h2 h3 h4 eb (sym (ap (field (λ l. l.prev)) at)) e1 e2 e3 e4,
        record {
          nexts = λ r. ground (arith, w4.nexts r, w3.nexts r, w2.nexts r, w1.nexts r);
          prevs = λ r. ground (arith, w4.prevs r, w3.prevs r, w2.prevs r, w1.prevs r);
          segs = λ r. w4.segs r ∙ w3.segs r ∙ w2.segs r ∙ w1.segs r;
          same = λ r. w4.same r ∙ w3.same r ∙ w2.same r ∙ w1.same r;
        },
      )

-- A list that is empty becomes the one link.
module _ (x : Ptr) (h : Heap) (new : is_link h x ≡ true) where
  insert_alone_steps :
      (h1 h2 : Heap)
      → set_prev x x h ≡ ok h1
      → set_next x x h1 ≡ ok h2
      → insert_alone x h ≡ ok (x, h2)
  unfolding insert_alone
  insert_alone_steps h1 h2 e1 e2 = rw (e1, e2)

  insert_alone-Wrote :
      (h' : Heap) × (insert_alone x h ≡ ok (x, h'))
      × Wrote (change (next_of h) x x) (change (prev_of h) x x) h h'
  insert_alone-Wrote =
      let (h1, e1, w1) = set_prev-ok x h new x in
      let (h2, e2, w2) = set_next-ok x h1 (w1.same x ∙ new) x in
      (
        h2,
        insert_alone_steps h1 h2 e1 e2,
        record {
          nexts = λ r. ground (arith, w2.nexts r, w1.nexts r);
          prevs = λ r. ground (arith, w2.prevs r, w1.prevs r);
          segs = λ r. w2.segs r ∙ w1.segs r;
          same = λ r. w2.same r ∙ w1.same r;
        },
      )

-- The list with `x` at its end, and the rest of the heap as it was.
pub record Inserted (x : Ptr) (ps : List Ptr) (h : Heap) (r : Ptr × Heap) : Type 0 where
  pub ring : Ring r.1 r.0 (ps ++ x ∷ [])
  pub elsewhere : Elsewhere (ps ++ x ∷ []) h r.1

module _ (x : Ptr) (h : Heap) (new : is_link h x ≡ true) (real : has null (x ∷ []) ≡ false) where
  Inserted-alone :
      (h' : Heap)
      → Wrote (change (next_of h) x x) (change (prev_of h) x x) h h'
      → Inserted x [] h (x, h')
  Inserted-alone h' w = record {
    ring = record {
      circle = (refl, (ground (arith, w.nexts x), ground (arith, w.prevs x)));
      distinct = (refl, tt);
      links = (w.same x ∙ new, tt);
      not_null = real;
    };
    elsewhere = record {
      nexts = λ q o. ground (arith, w.nexts q);
      prevs = λ q o. ground (arith, w.prevs q);
      segs = w.segs;
      same = w.same;
    };
  }

  -- What is outside the new list is not its old last link.
  apart :
      (p : Ptr) (ps : List Ptr)
      → Ring h p (p ∷ ps)
      → (q : Ptr) → has q (p ∷ ps ++ x ∷ []) ≡ false
      → q ≢ prev_of h p
  apart p ps ring q o e =
      last-ne q p ps (ground (arith, has-append q ps (x ∷ [])))
        (e ∙ Chain-last (next_of h) (prev_of h) p ps p ring.circle.1)

  Inserted-last :
      (p : Ptr) (ps : List Ptr)
      → Ring h p (p ∷ ps)
      → has x (p ∷ ps) ≡ false
      → (h' : Heap)
      → Wrote
          (change (change (next_of h) x p) (prev_of h p) x)
          (change (change (prev_of h) x (prev_of h p)) p x)
          h
          h'
      → Inserted x (p ∷ ps) h (p, h')
  Inserted-last p ps ring out h' w =
      let chain = ring.circle.1 in
      let z = Chain-last (next_of h) (prev_of h) p ps p chain in
      record {
        ring = record {
          circle = (
            refl,
            Chain-snoc (next_of h) (prev_of h) (next_of h') (prev_of h') x (prev_of h p) p w.nexts
                w.prevs p ps chain ring.distinct out ring.distinct.0 (ground arith) z,
          );
          distinct = Distinct-snoc x (p ∷ ps) ring.distinct out;
          links =
              AllLinks-same h h' (p ∷ ps ++ x ∷ []) (λ q _. w.same q)
                (AllLinks-snoc h (p ∷ ps) x ring.links new);
          not_null = ground (arith, has-append null ps (x ∷ []));
        };
        elsewhere = record {
          nexts = λ q o. ground (arith, w.nexts q, has-append q ps (x ∷ []), apart p ps ring q o);
          prevs = λ q o. ground (arith, w.prevs q, has-append q ps (x ∷ []));
          segs = w.segs;
          same = w.same;
        };
      }

module _ (x p : Ptr) (ps : List Ptr) (h : Heap) (ring : Ring h p (p ∷ ps))
    (new : is_link h x ≡ true) where
  last_link : is_link h (prev_of h p) ≡ true
  last_link =
      let z = Chain-last (next_of h) (prev_of h) p ps p ring.circle.1 in
      AllLinks-has h (p ∷ ps) (prev_of h p) ring.links (ap (λ t. has t (p ∷ ps)) z ∙ has-last p ps)

  prev-ne-null : null ≢ prev_of h p
  prev-ne-null e =
      last-ne null p ps ring.not_null (e ∙ Chain-last (next_of h) (prev_of h) p ps p ring.circle.1)

  _link_insert_tests :
      (b : Link)
      → load p h ≡ ok b
      → (b.prev == null) ≡ false
      → _link_insert p x h ≡ insert_last p x h
  unfolding _link_insert
  _link_insert_tests b eb bn =
      let pn : (p == null) ≡ false = ground (arith, ring.not_null) in rw (pn, eb, bn)

  _link_insert_cons :
      has null (x ∷ []) ≡ false
      → has x (p ∷ ps) ≡ false
      → (r : Ptr × Heap) × (_link_insert p x h ≡ ok r) × Inserted x (p ∷ ps) h r
  _link_insert_cons real out =
      let (h', e, w) = insert_last-Wrote p x h ring.links.0 new last_link in
      let (b, eb, at) = load-ok p h ring.links.0 in
      let same : prev_of h p ≡ b.prev = ap (field (λ l. l.prev)) at in
      let bn : (b.prev == null) ≡ false = ground (arith, prev-ne-null) in
      ((p, h'), _link_insert_tests b eb bn ∙ e, Inserted-last x h new real p ps ring out h' w)

_link_insert_nil : (x : Ptr) (h : Heap) → _link_insert null x h ≡ insert_alone x h
unfolding _link_insert
_link_insert_nil x h = refl

-- The circular list that a base pointer names, which may be empty, grows by a new link at its end; no access faults, links
-- outside the list keep their fields, and every link its segment.
pub _link_insert-Inserted :
    (base x : Ptr) (ps : List Ptr) (h : Heap)
    → Ring h base ps
    → is_link h x ≡ true
    → has null (x ∷ []) ≡ false
    → has x ps ≡ false
    → (r : Ptr × Heap) × (_link_insert base x h ≡ ok r) × Inserted x ps h r
_link_insert-Inserted base x [] h ring new real out =
    let (h', e, w) = insert_alone-Wrote x h new in
    (
      (x, h'),
      ap (λ b. _link_insert b x h) ring.circle ∙ _link_insert_nil x h ∙ e,
      Inserted-alone x h new real h' w,
    )
_link_insert-Inserted base x (p ∷ ps) h ring new real out =
    let (r, e, done) =
      _link_insert_cons x p ps h (subst (λ b. Ring h b (p ∷ ps)) ring.circle.0 ring) new real out in
    (r, ap (λ b. _link_insert b x h) ring.circle.0 ∙ e, done)
