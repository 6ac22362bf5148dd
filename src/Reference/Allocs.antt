-- ===== src/Reference/Allocs.antt =====
-- The circular list of the allocated segments (reference/tm.c).
use transactional_memory.Base.{
  ℕ, ◌≡◌, refl, sym, ◌∙◌, ap, inl, inr, Bool, true, false, Option, none, some, List, [], ◌∷◌, ◌++◌,
  ok, ◌==◌, Bool-cases, ==_iff, arith,
}
use transactional_memory.Links.Ring.{
  has, Distinct, Chain, last, has-last, Chain-last, change, has-append, Distinct-snoc,
}
use transactional_memory.Links.Insert.{Chain-snoc}
use transactional_memory.Links.Remove.{
  erase, prev-has, next-has, Chain-erase, has-erase, Distinct-erase,
}
use transactional_memory.Links.Transfer.{erase-has}
use transactional_memory.Reference.{
  Ptr, Link, Store, load, set_link, set_prev, set_next, link_ref_insert, link_ref_remove,
}

abbrev pub field : (Link → Ptr) → Option Link → Ptr
field f none = 0
field f (some l) = f l

abbrev pub next_of : Store → Ptr → Ptr
next_of s p = field (λ l. l.next) (s.links p)

abbrev pub prev_of : Store → Ptr → Ptr
prev_of s p = field (λ l. l.prev) (s.links p)

abbrev is_some : Option Link → Bool
is_some none = false
is_some (some l) = true

abbrev pub is_link : Store → Ptr → Bool
is_link s p = is_some (s.links p)

-- The links `ps` in a circle with `base`, which is not among them.
pub record IsList (s : Store) (base : Ptr) (ps : List Ptr) : Type 0 where
  pub chain : Chain (next_of s) (prev_of s) base ps base
  pub distinct : Distinct (base ∷ ps)
  pub links : (q : Ptr) → has q (base ∷ ps) ≡ true → is_link s q ≡ true

-- A store after writes to the fields of links.
pub record Wrote (n p : Ptr → Ptr) (s s' : Store) : Type 0 where
  pub nexts : (r : Ptr) → next_of s' r ≡ n r
  pub prevs : (r : Ptr) → prev_of s' r ≡ p r
  pub same : (r : Ptr) → is_link s' r ≡ is_link s r
  pub blocks : (r : Ptr) → s'.blocks r ≡ s.blocks r
  pub bytes : (r : ℕ) → s'.bytes r ≡ s.bytes r

a_link : (o : Option Link) → is_some o ≡ true → (l : Link) × (o ≡ some l)
a_link none e = cc
a_link (some l) e = (l, refl)

load-some : (p : Ptr) (s : Store) (l : Link) → s.links p ≡ some l → load p s ≡ ok l
unfolding load
load-some p s l e = rw (e, load)

set_next-some :
    (p q : Ptr) (s : Store) (l : Link)
    → load p s ≡ ok l
    → set_next p q s ≡ ok (set_link p (some (record l { next = q })) s)
unfolding set_next
set_next-some p q s l e = rw e

set_prev-some :
    (p q : Ptr) (s : Store) (l : Link)
    → load p s ≡ ok l
    → set_prev p q s ≡ ok (set_link p (some (record l { prev = q })) s)
unfolding set_prev
set_prev-some p q s l e = rw e

module _ (p : Ptr) (s : Store) (there : is_link s p ≡ true) where
  pub load-ok : (l : Link) × (load p s ≡ ok l) × (s.links p ≡ some l)
  load-ok = let (l, e) = a_link (s.links p) there in (l, load-some p s l e, e)

  module _ (q : Ptr) where
    pub set_next-ok :
        (s' : Store) × (set_next p q s ≡ ok s') × Wrote (change (next_of s) p q) (prev_of s) s s'
    set_next-ok =
        let (l, e, at) = load-ok in
        (
          set_link p (some (record l { next = q })) s,
          set_next-some p q s l e,
          record {
            nexts = λ r. ground arith;
            prevs = λ r. ground arith;
            same = λ r. ground arith;
            blocks = λ r. refl;
            bytes = λ r. refl;
          },
        )

    pub set_prev-ok :
        (s' : Store) × (set_prev p q s ≡ ok s') × Wrote (next_of s) (change (prev_of s) p q) s s'
    set_prev-ok =
        let (l, e, at) = load-ok in
        (
          set_link p (some (record l { prev = q })) s,
          set_prev-some p q s l e,
          record {
            nexts = λ r. ground arith;
            prevs = λ r. ground arith;
            same = λ r. ground arith;
            blocks = λ r. refl;
            bytes = λ r. refl;
          },
        )

link_ref_insert_steps :
    (x base z : Ptr) (b : Link) (s s1 s2 s3 s4 : Store)
    → load base s ≡ ok b
    → b.prev ≡ z
    → set_prev x z s ≡ ok s1
    → set_next x base s1 ≡ ok s2
    → set_prev base x s2 ≡ ok s3
    → set_next z x s3 ≡ ok s4
    → link_ref_insert x base s ≡ ok s4
unfolding link_ref_insert
link_ref_insert_steps x base z b s s1 s2 s3 s4 eb ez e1 e2 e3 e4 = rw (eb, ez, e1, e2, e3, e4)

link_ref_remove_steps :
    (x p n : Ptr) (l : Link) (s s1 s2 : Store)
    → load x s ≡ ok l
    → l.prev ≡ p
    → l.next ≡ n
    → set_next p n s ≡ ok s1
    → set_prev n p s1 ≡ ok s2
    → link_ref_remove x s ≡ ok s2
unfolding link_ref_remove
link_ref_remove_steps x p n l s s1 s2 el ep en e1 e2 = rw (el, ep, en, e1, e2)

links_snoc :
    (s : Store) (x : Ptr) (ps : List Ptr)
    → ((q : Ptr) → has q ps ≡ true → is_link s q ≡ true)
    → is_link s x ≡ true
    → (q : Ptr) → has q (ps ++ x ∷ []) ≡ true
    → is_link s q ≡ true
links_snoc s x ps all new q m = elim (Bool-cases (has q ps)) [
  | inl old ↦ all q old
  | inr fresh ↦
      let e : (q == x) ≡ true = ground (arith, has-append q ps (x ∷ [])) in
      ap (is_link s) ((==_iff q x).0 e) ∙ new
]

links_erase :
    (s : Store) (base x : Ptr) (ps : List Ptr)
    → ((q : Ptr) → has q (base ∷ ps) ≡ true → is_link s q ≡ true)
    → (q : Ptr) → has q (base ∷ erase x ps) ≡ true
    → is_link s q ≡ true
links_erase s base x ps all q m = elim (Bool-cases (has q (erase x ps))) [
  | inl kept ↦ all q (ground (arith, erase-has q x ps kept))
  | inr out ↦ all q (ground arith)
]

-- The store behind an operation on the list: blocks and bytes are as they were, and the list is `ps`.
pub record Listed (base : Ptr) (ps : List Ptr) (s s' : Store) : Type 0 where
  pub list : IsList s' base ps
  pub same : (r : Ptr) → is_link s' r ≡ is_link s r
  pub blocks : (r : Ptr) → s'.blocks r ≡ s.blocks r
  pub bytes : (r : ℕ) → s'.bytes r ≡ s.bytes r

module _ (x base : Ptr) (ps : List Ptr) (s : Store) (list : IsList s base ps) where
  pub link_ref_insert-Listed :
      is_link s x ≡ true
      → has x (base ∷ ps) ≡ false
      → (s' : Store) × (link_ref_insert x base s ≡ ok s') × Listed base (ps ++ x ∷ []) s s'
  link_ref_insert-Listed new out =
      let z = prev_of s base in
      let zl : z ≡ last base ps = Chain-last (next_of s) (prev_of s) base ps base list.chain in
      let there = list.links base (ground arith) in
      let (b, eb, at) = load-ok base s there in
      let end : is_link s z ≡ true =
        list.links z (ap (λ t. has t (base ∷ ps)) zl ∙ has-last base ps) in
      let (s1, e1, w1) = set_prev-ok x s new z in
      let (s2, e2, w2) = set_next-ok x s1 (w1.same x ∙ new) base in
      let (s3, e3, w3) = set_prev-ok base s2 (w2.same base ∙ w1.same base ∙ there) x in
      let (s4, e4, w4) = set_next-ok z s3 (w3.same z ∙ w2.same z ∙ w1.same z ∙ end) x in
      let same : (r : Ptr) → is_link s4 r ≡ is_link s r =
        λ r. w4.same r ∙ w3.same r ∙ w2.same r ∙ w1.same r in
      (
        s4,
        link_ref_insert_steps x base z b s s1 s2 s3 s4 eb (sym (ap (field (λ l. l.prev)) at)) e1 e2
            e3 e4,
        record {
          list = record {
            chain =
                Chain-snoc (next_of s) (prev_of s) (next_of s4) (prev_of s4) x z base
                  (λ r. ground (arith, w4.nexts r, w3.nexts r, w2.nexts r, w1.nexts r))
                  (λ r. ground (arith, w4.prevs r, w3.prevs r, w2.prevs r, w1.prevs r)) base ps
                  list.chain list.distinct out list.distinct.0 (λ e. ground arith) zl;
            distinct = Distinct-snoc x (base ∷ ps) list.distinct out;
            links = λ q m. same q ∙ links_snoc s x (base ∷ ps) list.links new q m;
          };
          same = same;
          blocks = λ r. w4.blocks r ∙ w3.blocks r ∙ w2.blocks r ∙ w1.blocks r;
          bytes = λ r. w4.bytes r ∙ w3.bytes r ∙ w2.bytes r ∙ w1.bytes r;
        },
      )

  pub link_ref_remove-Listed :
      has x ps ≡ true → (s' : Store) × (link_ref_remove x s ≡ ok s') × Listed base (erase x ps) s s'
  link_ref_remove-Listed held =
      let p = prev_of s x in
      let n = next_of s x in
      let (l, el, at) = load-ok x s (list.links x (ground arith)) in
      let before : is_link s p ≡ true =
        list.links p (prev-has (next_of s) (prev_of s) x base ps base list.chain held) in
      let behind : is_link s n ≡ true =
        list.links n (next-has (next_of s) (prev_of s) x base ps base list.chain (ground arith)) in
      let (s1, e1, w1) = set_next-ok p s before n in
      let (s2, e2, w2) = set_prev-ok n s1 (w1.same n ∙ behind) p in
      let same : (r : Ptr) → is_link s2 r ≡ is_link s r = λ r. w2.same r ∙ w1.same r in
      (
        s2,
        link_ref_remove_steps x p n l s s1 s2 el (sym (ap (field (λ l. l.prev)) at))
            (sym (ap (field (λ l. l.next)) at)) e1 e2,
        record {
          list = record {
            chain =
                Chain-erase (next_of s) (prev_of s) (next_of s2) (prev_of s2) x
                  (λ r. ground (arith, w2.nexts r, w1.nexts r))
                  (λ r. ground (arith, w2.prevs r, w1.prevs r)) base ps base list.chain
                  list.distinct list.distinct.0 held;
            distinct = (has-erase base x ps list.distinct.0, Distinct-erase x ps list.distinct.1);
            links = λ q m. same q ∙ links_erase s base x ps list.links q m;
          };
          same = same;
          blocks = λ r. w2.blocks r ∙ w1.blocks r;
          bytes = λ r. w2.bytes r ∙ w1.bytes r;
        },
      )
