-- ===== src/Links/Ring.antt =====
-- What a circular list of template/link.c stands for: the sequence of its links, from the base on.
use transactional_memory.Base.{
  ◌≡◌, ◌≢◌, refl, ◌∙◌, ap, inl, inr, Bool, true, false, ◌||◌, Option, none, some, List, [], ◌∷◌,
  ◌++◌, ok, ◌==◌, if◌then◌else◌, Bool-cases, ==_iff, arith,
}
use transactional_memory.Links.{Ptr, null, Link, Heap, load, set_prev, set_next, store}

-- The fields of the link at an address, 0 where there is none.
abbrev pub field : (Link → Ptr) → Option Link → Ptr
field f none = null
field f (some l) = f l

abbrev pub next_of : Heap → Ptr → Ptr
next_of h p = field (λ l. l.next) (h p)

abbrev pub prev_of : Heap → Ptr → Ptr
prev_of h p = field (λ l. l.prev) (h p)

abbrev pub seg_of : Heap → Ptr → Ptr
seg_of h p = field (λ l. l.seg) (h p)

abbrev pub is_some : Option Link → Bool
is_some none = false
is_some (some l) = true

abbrev pub is_link : Heap → Ptr → Bool
is_link h p = is_some (h p)

abbrev pub has : Ptr → List Ptr → Bool
has p [] = false
has p (q ∷ qs) = p == q || has p qs

abbrev pub Distinct : List Ptr → Type 0
Distinct [] = Unit
Distinct (p ∷ ps) = (has p ps ≡ false) × Distinct ps

-- From `a` the `next` pointers lead through `bs` to `e`, and the `prev` pointers back.
abbrev pub Chain : (next prev : Ptr → Ptr) → Ptr → List Ptr → Ptr → Type 0
Chain n p a [] e = (n a ≡ e) × (p e ≡ a)
Chain n p a (b ∷ bs) e = (n a ≡ b) × (p b ≡ a) × Chain n p b bs e

abbrev pub AllLinks : Heap → List Ptr → Type 0
AllLinks h [] = Unit
AllLinks h (p ∷ ps) = (is_link h p ≡ true) × AllLinks h ps

-- `base` names the circular list of the links `ps`.
abbrev pub Circle : Heap → Ptr → List Ptr → Type 0
Circle h base [] = base ≡ null
Circle h base (p ∷ ps) = (base ≡ p) × Chain (next_of h) (prev_of h) p ps p

pub record Ring (h : Heap) (base : Ptr) (ps : List Ptr) : Type 0 where
  pub circle : Circle h base ps
  pub distinct : Distinct ps
  pub links : AllLinks h ps
  pub not_null : has null ps ≡ false

abbrev pub last : Ptr → List Ptr → Ptr
last a [] = a
last a (b ∷ bs) = last b bs

-- An address that the list holds is none that it does not hold.
pub has-ne : (q a : Ptr) (ps : List Ptr) → has q ps ≡ true → has a ps ≡ false → q ≢ a
has-ne q a ps m o e = cc (ap (λ t. has t ps) e)

pub has-last : (a : Ptr) (bs : List Ptr) → has (last a bs) (a ∷ bs) ≡ true
has-last a [] = ground arith
has-last a (b ∷ bs) = ground (arith, has-last b bs)

-- A link that the rest does not hold is not its last one.
pub last-ne : (a b : Ptr) (bs : List Ptr) → has a (b ∷ bs) ≡ false → a ≢ last b bs
last-ne a b bs h e = cc (ap (λ t. has t (b ∷ bs)) e ∙ has-last b bs)

pub Chain-last :
    (n p : Ptr → Ptr) (a : Ptr) (bs : List Ptr) (e : Ptr) → Chain n p a bs e → p e ≡ last a bs
Chain-last n p a [] e c = c.1
Chain-last n p a (b ∷ bs) e c = Chain-last n p b bs e c.2

-- A heap after writes: the fields that were given anew, by two functions, and all else as before.
pub record Wrote (n p : Ptr → Ptr) (h h' : Heap) : Type 0 where
  pub nexts : (r : Ptr) → next_of h' r ≡ n r
  pub prevs : (r : Ptr) → prev_of h' r ≡ p r
  pub segs : (r : Ptr) → seg_of h' r ≡ seg_of h r
  pub same : (r : Ptr) → is_link h' r ≡ is_link h r

abbrev pub change : (Ptr → Ptr) → Ptr → Ptr → Ptr → Ptr
change f p q r = if r == p then q else f r

pub a_link : (o : Option Link) → is_some o ≡ true → (l : Link) × (o ≡ some l)
a_link none e = cc
a_link (some l) e = (l, refl)

load-some : (p : Ptr) (h : Heap) (l : Link) → h p ≡ some l → load p h ≡ ok l
unfolding load
load-some p h l e = rw (e, load)

set_next-some :
    (p q : Ptr) (h : Heap) (l : Link)
    → load p h ≡ ok l
    → set_next p q h ≡ ok (store p (some (record l { next = q })) h)
unfolding set_next
set_next-some p q h l e = rw e

set_prev-some :
    (p q : Ptr) (h : Heap) (l : Link)
    → load p h ≡ ok l
    → set_prev p q h ≡ ok (store p (some (record l { prev = q })) h)
unfolding set_prev
set_prev-some p q h l e = rw e

module _ (p : Ptr) (h : Heap) (there : is_link h p ≡ true) where
  pub load-ok : (l : Link) × (load p h ≡ ok l) × (h p ≡ some l)
  load-ok = let (l, e) = a_link (h p) there in (l, load-some p h l e, e)

  module _ (q : Ptr) where
    pub set_next-ok :
        (h' : Heap) × (set_next p q h ≡ ok h') × Wrote (change (next_of h) p q) (prev_of h) h h'
    unfolding store
    set_next-ok =
        let (l, e, at) = load-ok in
        (
          store p (some (record l { next = q })) h,
          set_next-some p q h l e,
          record {
            nexts = λ r. ground arith;
            prevs = λ r. ground arith;
            segs = λ r. ground arith;
            same = λ r. ground arith;
          },
        )

    pub set_prev-ok :
        (h' : Heap) × (set_prev p q h ≡ ok h') × Wrote (next_of h) (change (prev_of h) p q) h h'
    unfolding store
    set_prev-ok =
        let (l, e, at) = load-ok in
        (
          store p (some (record l { prev = q })) h,
          set_prev-some p q h l e,
          record {
            nexts = λ r. ground arith;
            prevs = λ r. ground arith;
            segs = λ r. ground arith;
            same = λ r. ground arith;
          },
        )

pub has-append : (x : Ptr) (ps qs : List Ptr) → has x (ps ++ qs) ≡ (has x ps || has x qs)
has-append x [] qs = refl
has-append x (p ∷ ps) qs = ground (arith, has-append x ps qs)

pub Distinct-snoc :
    (x : Ptr) (ps : List Ptr) → Distinct ps → has x ps ≡ false → Distinct (ps ++ x ∷ [])
Distinct-snoc x [] d out = (refl, tt)
Distinct-snoc x (p ∷ ps) d out =
    (ground (arith, has-append p ps (x ∷ [])), Distinct-snoc x ps d.1 (ground arith))

pub AllLinks-has :
    (h : Heap) (ps : List Ptr) (x : Ptr) → AllLinks h ps → has x ps ≡ true → is_link h x ≡ true
AllLinks-has h [] x a m = cc
AllLinks-has h (p ∷ ps) x a m = elim (Bool-cases (x == p)) [
  | inl e ↦ ap (is_link h) ((==_iff x p).0 e) ∙ a.0
  | inr ne ↦ AllLinks-has h ps x a.1 (ground arith)
]

-- A heap where the same addresses hold links, with the same segments, and where the links outside
-- `ps` are as they were.
pub record Elsewhere (ps : List Ptr) (h h' : Heap) : Type 0 where
  pub nexts : (q : Ptr) → has q ps ≡ false → next_of h' q ≡ next_of h q
  pub prevs : (q : Ptr) → has q ps ≡ false → prev_of h' q ≡ prev_of h q
  pub segs : (q : Ptr) → seg_of h' q ≡ seg_of h q
  pub same : (q : Ptr) → is_link h' q ≡ is_link h q

pub AllLinks-same :
    (h h' : Heap) (ps : List Ptr)
    → ((q : Ptr) → has q ps ≡ true → is_link h' q ≡ is_link h q)
    → AllLinks h ps
    → AllLinks h' ps
AllLinks-same h h' [] same a = tt
AllLinks-same h h' (p ∷ ps) same a =
    (same p (ground arith) ∙ a.0, AllLinks-same h h' ps (λ q m. same q (ground arith)) a.1)

-- A chain depends on the `next` of its links but the end, and on the `prev` of all but the first.
pub Chain-frame :
    (n p n' p' : Ptr → Ptr) (a : Ptr) (bs : List Ptr) (e : Ptr)
    → ((q : Ptr) → has q (a ∷ bs) ≡ true → n' q ≡ n q)
    → ((q : Ptr) → has q (e ∷ bs) ≡ true → p' q ≡ p q)
    → Chain n p a bs e
    → Chain n' p' a bs e
Chain-frame n p n' p' a [] e fn fp c = (fn a (ground arith) ∙ c.0, fp e (ground arith) ∙ c.1)
Chain-frame n p n' p' a (b ∷ bs) e fn fp c = (
  fn a (ground arith) ∙ c.0,
  fp b (ground arith) ∙ c.1,
  Chain-frame n p n' p' b bs e (λ q m. fn q (ground arith)) (λ q m. fp q (ground arith)) c.2,
)

pub AllLinks-snoc :
    (h : Heap) (ps : List Ptr) (x : Ptr)
    → AllLinks h ps
    → is_link h x ≡ true
    → AllLinks h (ps ++ x ∷ [])
AllLinks-snoc h [] x a l = (l, tt)
AllLinks-snoc h (p ∷ ps) x a l = (a.0, AllLinks-snoc h ps x a.1 l)
