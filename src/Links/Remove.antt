-- ===== src/Links/Remove.antt =====
-- `link_remove` (template/link.c) takes a link out of a circular list.
use mathlib.Core.Path.{subst}
use transactional_memory.Base.{
  ◌≡◌, ◌≢◌, refl, sym, ◌∙◌, ap, inl, inr, true, false, List, [], ◌∷◌, ok, none, ◌==◌, if◌then◌else◌,
  Bool-cases, ==_iff, arith,
}
use transactional_memory.Links.{Ptr, null, Link, Heap, store, load, set_prev, set_next, link_remove}
use transactional_memory.Links.Ring.{
  field, next_of, prev_of, is_link, has, Distinct, Chain, AllLinks, Circle, Ring, last, has-ne,
  has-last, last-ne, Chain-last, Chain-frame, Wrote, change, load-ok, set_next-ok, set_prev-ok,
  AllLinks-has, Elsewhere, AllLinks-same,
}

abbrev pub erase : Ptr → List Ptr → List Ptr
erase x [] = []
erase x (p ∷ ps) = if x == p then ps else p ∷ erase x ps

-- Where the neighbours of a link of the chain are.
module _ (n p : Ptr → Ptr) (x : Ptr) where
  pub prev-has :
      (a : Ptr) (bs : List Ptr) (e : Ptr)
      → Chain n p a bs e
      → has x bs ≡ true
      → has (p x) (a ∷ bs) ≡ true
  prev-has a [] e c m = cc
  prev-has a (b ∷ bs) e c m = elim (Bool-cases (x == b)) [
    | inl here ↦ ground arith
    | inr later ↦ ground (arith, prev-has b bs e c.2)
  ]

  pub next-has :
      (a : Ptr) (bs : List Ptr) (e : Ptr)
      → Chain n p a bs e
      → has x (a ∷ bs) ≡ true
      → has (n x) (e ∷ bs) ≡ true
  next-has a [] e c m = ground arith
  next-has a (b ∷ bs) e c m = elim (Bool-cases (x == a)) [
    | inl here ↦ ground arith
    | inr later ↦ ground (arith, next-has b bs e c.2)
  ]

  pub prev-ne :
      (a : Ptr) (bs : List Ptr) (e : Ptr)
      → Chain n p a bs e
      → Distinct (a ∷ bs)
      → has x bs ≡ true
      → p x ≢ x
  prev-ne a [] e c d m = cc
  prev-ne a (b ∷ bs) e c d m = elim (Bool-cases (x == b)) [
    | inl here ↦ ground arith
    | inr later ↦ prev-ne b bs e c.2 d.1 (ground arith)
  ]

-- The chain without `x`.
module _ (n p n' p' : Ptr → Ptr) (x : Ptr) (nexts : (r : Ptr) → n' r ≡ change n (p x) (n x) r)
    (prevs : (r : Ptr) → p' r ≡ change p (n x) (p x) r) where
  -- `x` is the link behind `a`.
  Chain-skip :
      (a : Ptr) (bs : List Ptr) (e : Ptr)
      → Chain n p a (x ∷ bs) e
      → Distinct (a ∷ x ∷ bs)
      → has e (x ∷ bs) ≡ false
      → Chain n' p' a bs e
  Chain-skip a [] e c d o = (ground (arith, nexts a), ground (arith, prevs e))
  Chain-skip a (b ∷ bs) e c d o = (
    ground (arith, nexts a),
    ground (arith, prevs b),
    Chain-frame n p n' p' b bs e
        (λ q m. ground (arith, nexts q, has-ne q a (b ∷ bs) m (ground arith)))
        (λ q m. ground (arith, prevs q, has-ne q b (e ∷ bs) m (ground arith))) c.2.2,
  )

  pub Chain-erase :
      (a : Ptr) (bs : List Ptr) (e : Ptr)
      → Chain n p a bs e
      → Distinct (a ∷ bs)
      → has e bs ≡ false
      → has x bs ≡ true
      → Chain n' p' a (erase x bs) e
  Chain-erase a [] e c d o m = cc
  Chain-erase a (b ∷ bs) e c d o m = elim (Bool-cases (x == b)) [
    | inl here ↦
        let s : b ≡ x = sym ((==_iff x b).0 here) in
        rw here (
          Chain-skip a bs e (subst (λ t. Chain n p a (t ∷ bs) e) s c)
            (subst (λ t. Distinct (a ∷ t ∷ bs)) s d) (subst (λ t. has e (t ∷ bs) ≡ false) s o))
    | inr later ↦
        let deep : has x bs ≡ true = ground arith in
        rw later (
          ground (arith, nexts a, prev-has n p x b bs e c.2 deep),
          ground (arith, prevs b, next-has n p x b bs e c.2),
          Chain-erase b bs e c.2 d.1 (ground arith) deep,
        )
  ]

  -- `x` is the end, and the chain is closed to its start `b`.
  Chain-close :
      (b : Ptr)
      → n x ≡ b
      → (a : Ptr) (bs : List Ptr) → Chain n p a bs x
      → Distinct (a ∷ bs)
      → has b bs ≡ false
      → p x ≡ last a bs
      → Chain n' p' a bs b
  Chain-close b e a [] c d o l = (ground (arith, nexts a), ground (arith, prevs b))
  Chain-close b e a (y ∷ bs) c d o l =
      let far : a ≢ p x = λ s. last-ne a y bs d.0 (s ∙ l) in
      (
        ground (arith, nexts a),
        ground (arith, prevs y),
        Chain-close b e y bs c.2 d.1 (ground arith) l,
      )

pub has-erase : (q x : Ptr) (ps : List Ptr) → has q ps ≡ false → has q (erase x ps) ≡ false
has-erase q x [] o = refl
has-erase q x (p ∷ ps) o = elim (Bool-cases (x == p)) [
  | inl here ↦ rw here (ground arith)
  | inr later ↦ rw later (ground (arith, has-erase q x ps))
]

-- The list holds each link once, so it does not hold what was taken out.
pub has-erase_self : (x : Ptr) (ps : List Ptr) → Distinct ps → has x (erase x ps) ≡ false
has-erase_self x [] d = refl
has-erase_self x (p ∷ ps) d = elim (Bool-cases (x == p)) [
  | inl here ↦ rw here (ap (λ t. has t ps) ((==_iff x p).0 here) ∙ d.0)
  | inr later ↦ rw later (ground (arith, has-erase_self x ps d.1))
]

pub Distinct-erase : (x : Ptr) (ps : List Ptr) → Distinct ps → Distinct (erase x ps)
Distinct-erase x [] d = tt
Distinct-erase x (p ∷ ps) d = elim (Bool-cases (x == p)) [
  | inl here ↦ rw here d.1
  | inr later ↦ rw later (has-erase p x ps d.0, Distinct-erase x ps d.1)
]

AllLinks-erase : (h : Heap) (x : Ptr) (ps : List Ptr) → AllLinks h ps → AllLinks h (erase x ps)
AllLinks-erase h x [] a = tt
AllLinks-erase h x (p ∷ ps) a = elim (Bool-cases (x == p)) [
  | inl here ↦ rw here a.1
  | inr later ↦ rw later (a.0, AllLinks-erase h x ps a.1)
]

-- The two writes, for a link whose neighbours are links.
module _ (x : Ptr) (h : Heap) (there : is_link h x ≡ true) (before : is_link h (prev_of h x) ≡ true)
    (after : is_link h (next_of h x) ≡ true) where
  abbrev pub new_base : Ptr → Ptr
  new_base base = if prev_of h x == x then null else (if x == base then next_of h x else base)

  link_remove_steps :
      (base : Ptr) (l : Link) (h1 h2 : Heap)
      → load x h ≡ ok l
      → l.prev ≡ prev_of h x
      → l.next ≡ next_of h x
      → set_next (prev_of h x) (next_of h x) h ≡ ok h1
      → set_prev (next_of h x) (prev_of h x) h1 ≡ ok h2
      → (link_remove base x false h ≡ ok (new_base base, x, h2))
        × (link_remove base x true h ≡ ok (new_base base, null, store x none h2))
  unfolding link_remove
  link_remove_steps base l h1 h2 el ep en e1 e2 = rw (el, ep, en, e1, e2) (refl, refl)

  link_remove-Wrote :
      (base : Ptr)
      → (h' : Heap) × (link_remove base x false h ≡ ok (new_base base, x, h'))
        × (link_remove base x true h ≡ ok (new_base base, null, store x none h'))
        × Wrote
            (change (next_of h) (prev_of h x) (next_of h x))
            (change (prev_of h) (next_of h x) (prev_of h x))
            h
            h'
  link_remove-Wrote base =
      let (l, el, at) = load-ok x h there in
      let (h1, e1, w1) = set_next-ok (prev_of h x) h before (next_of h x) in
      let (h2, e2, w2) =
        set_prev-ok (next_of h x) h1 (w1.same (next_of h x) ∙ after) (prev_of h x) in
      let steps =
        link_remove_steps base l h1 h2 el (sym (ap (field (λ l. l.prev)) at))
          (sym (ap (field (λ l. l.next)) at)) e1 e2 in
      (
        h2,
        steps.0,
        steps.1,
        record {
          nexts = λ r. ground (arith, w2.nexts r, w1.nexts r);
          prevs = λ r. ground (arith, w2.prevs r, w1.prevs r);
          segs = λ r. w2.segs r ∙ w1.segs r;
          same = λ r. w2.same r ∙ w1.same r;
        },
      )

-- A heap whose links outside `ps` are as they were, and all segments.
pub record Removed (x : Ptr) (ps : List Ptr) (h : Heap) (base : Ptr) (h' : Heap) : Type 0 where
  pub ring : Ring h' base (erase x ps)
  pub elsewhere : Elsewhere ps h h'

-- The base itself is taken out.
module _ (x : Ptr) (h h' : Heap)
    (w : Wrote
      (change (next_of h) (prev_of h x) (next_of h x))
      (change (prev_of h) (next_of h x) (prev_of h x))
      h
      h') where
  Circle-first :
      (ps : List Ptr)
      → Ring h x (x ∷ ps)
      → Circle h' (if prev_of h x == x then null else next_of h x) ps
  Circle-first [] ring = rw ((==_iff (prev_of h x) x).1 ring.circle.1.1) refl
  Circle-first (b ∷ cs) ring =
      let c = ring.circle.1 in
      let l = Chain-last (next_of h) (prev_of h) b cs x c.2 in
      let ne : (prev_of h x == x) ≡ false = ground (arith, last-ne x b cs ring.distinct.0, l) in
      rw ne (
        c.0,
        Chain-close (next_of h) (prev_of h) (next_of h') (prev_of h') x w.nexts w.prevs b c.0 b cs
            c.2 ring.distinct.1 ring.distinct.1.0 l,
      )

-- A ring with at least one link, by its base and the rest.
module _ (x p : Ptr) (ps : List Ptr) (h : Heap) (ring : Ring h p (p ∷ ps))
    (mem : has x (p ∷ ps) ≡ true) where
  chain : Chain (next_of h) (prev_of h) p ps p
  chain = ring.circle.1

  prev-in : has (prev_of h x) (p ∷ ps) ≡ true
  prev-in = elim (Bool-cases (x == p)) [
    | inl first ↦
        ap (λ t. has (prev_of h t) (p ∷ ps)) ((==_iff x p).0 first)
        ∙ ap (λ t. has t (p ∷ ps)) (Chain-last (next_of h) (prev_of h) p ps p chain)
        ∙ has-last p ps
    | inr later ↦ prev-has (next_of h) (prev_of h) x p ps p chain (ground arith)
  ]

  next-in : has (next_of h x) (p ∷ ps) ≡ true
  next-in = next-has (next_of h) (prev_of h) x p ps p chain mem

  -- The links are spliced around `x`: what is left of the list, by case.
  module _ (h' : Heap)
      (w : Wrote
        (change (next_of h) (prev_of h x) (next_of h x))
        (change (prev_of h) (next_of h x) (prev_of h x))
        h
        h') where
    spliced-Elsewhere : Elsewhere (p ∷ ps) h h'
    spliced-Elsewhere = record {
      nexts = λ q o. ground (arith, w.nexts q, has-ne (prev_of h x) q (p ∷ ps) prev-in o);
      prevs = λ q o. ground (arith, w.prevs q, has-ne (next_of h x) q (p ∷ ps) next-in o);
      segs = w.segs;
      same = w.same;
    }

    abbrev base' : Ptr
    base' = if prev_of h x == x then null else (if x == p then next_of h x else p)

    spliced-Circle : Circle h' base' (erase x (p ∷ ps))
    spliced-Circle = elim (Bool-cases (x == p)) [
      | inl first ↦
          let e : p ≡ x = sym ((==_iff x p).0 first) in
          rw first (Circle-first x h h' w ps (subst (λ t. Ring h t (t ∷ ps)) e ring))
      | inr later ↦
          let deep : has x ps ≡ true = ground arith in
          let ne = prev-ne (next_of h) (prev_of h) x p ps p chain ring.distinct deep in
          let ne' : (prev_of h x == x) ≡ false = ground arith in
          rw (later, ne')
            (
              refl,
              Chain-erase (next_of h) (prev_of h) (next_of h') (prev_of h') x w.nexts w.prevs p ps p
                  chain ring.distinct ring.distinct.0 deep,
            )
    ]

    spliced-Removed : Removed x (p ∷ ps) h base' h'
    spliced-Removed = record {
      ring = record {
        circle = spliced-Circle;
        distinct = Distinct-erase x (p ∷ ps) ring.distinct;
        links =
            AllLinks-same h h' (erase x (p ∷ ps)) (λ q _. w.same q)
              (AllLinks-erase h x (p ∷ ps) ring.links);
        not_null = has-erase null x (p ∷ ps) ring.not_null;
      };
      elsewhere = spliced-Elsewhere;
    }

-- Taking a link out of the circular list that a base pointer names and that holds it: no access faults, the new base names the
-- list without it, links outside the list keep their fields, and every link its segment; with
-- `discard` the link's own memory is freed besides, and the variable that held it is null.
pub link_remove-Removed :
    (base x : Ptr) (ps : List Ptr) (h : Heap)
    → Ring h base ps
    → has x ps ≡ true
    → (r : Ptr × Heap) × (link_remove base x false h ≡ ok (r.0, x, r.1))
      × (link_remove base x true h ≡ ok (r.0, null, store x none r.1))
      × Removed x ps h r.0 r.1
link_remove-Removed base x [] h ring mem = cc
link_remove-Removed base x (p ∷ ps) h ring mem =
    let ring' = subst (λ b. Ring h b (p ∷ ps)) ring.circle.0 ring in
    let there = AllLinks-has h (p ∷ ps) x ring.links mem in
    let before = AllLinks-has h (p ∷ ps) (prev_of h x) ring.links (prev-in x p ps h ring' mem) in
    let after = AllLinks-has h (p ∷ ps) (next_of h x) ring.links (next-in x p ps h ring' mem) in
    let (h', e, freed, w) = link_remove-Wrote x h there before after p in
    (
      (base' x p ps h ring' mem h' w, h'),
      ap (λ b. link_remove b x false h) ring.circle.0 ∙ e,
      ap (λ b. link_remove b x true h) ring.circle.0 ∙ freed,
      spliced-Removed x p ps h ring' mem h' w,
    )
