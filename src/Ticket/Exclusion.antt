-- ===== src/Ticket/Exclusion.antt =====
-- The ticket lock lets one thread in at a time, and passes to the next (reference/tm.c).
use mathlib.Core.Path.{subst}
use transactional_memory.Base.{
  ℕ, ◌+◌, ◌^◌, ◌≤◌, ◌<◌, ◌≡◌, refl, sym, ◌∙◌, ap, inl, inr, Bool, true, false, List, [], ◌∷◌, ◌++◌,
  All, All-at, All-put, All-replicate, sum_by, sum_by-put, sum_by-replicate, length, length-put,
  length-replicate, replicate, ltb, ◌==◌, ==_iff, Bool-cases, if◌then◌else◌, arith,
}
use transactional_memory.Words.{add64, sub64}
use transactional_memory.Ticket.{
  Place, outside, queued, holding, take_ticket, after_load, lock_release, System, Step, takes,
  loads, releases, Steps, none_yet, then_step, start,
}
use transactional_memory.Ticket.Order.{
  one_if, has_ticket, is_inside, is_holder, HoldsPass, InOrder, inside-length, holders-pass,
  taken-offset, passed-offset,
}

no_holders : (pass : ℕ) (ps : List Place) → sum_by is_holder ps ≡ 0 → All (HoldsPass pass) ps
no_holders pass [] z = tt
no_holders pass (outside ∷ ps) z = (tt, no_holders pass ps (omega (arith, z)))
no_holders pass (queued u ∷ ps) z = (tt, no_holders pass ps (omega (arith, z)))
no_holders pass (holding u ∷ ps) z = absurd (omega (arith, z))

one_if-le : (b : Bool) → one_if b ≤ 1
one_if-le true = omega arith
one_if-le false = omega arith

module _ (s : System) (order : InOrder s) (few : length s.places < 2 ^ 64)
    (xs ys : List Place) where
  -- One place for another, in what is counted.
  put_count :
      (f : Place → ℕ) (p q : Place)
      → s.places ≡ xs ++ p ∷ ys
      → sum_by f (xs ++ q ∷ ys) + f p ≡ sum_by f s.places + f q
  put_count f p q here = omega (arith, sum_by-put f xs p q ys, ap (sum_by f) here)

  takes-InOrder :
      s.places ≡ xs ++ outside ∷ ys
      → InOrder (record {
        lock = (take_ticket s.lock).1;
        places = xs ++ queued (take_ticket s.lock).0 ∷ ys;
      })
  unfolding take_ticket
  takes-InOrder here =
      let u = s.lock.take in
      let k = sum_by is_inside s.places in
      let more : sum_by is_inside (xs ++ queued u ∷ ys) ≡ k + 1 =
        omega (arith, put_count is_inside outside (queued u) here) in
      let word : k < 2 ^ 64 = omega (arith, inside-length s.places, few) in
      record {
        pass_word = order.pass_word;
        take = omega (arith, order.take, more);
        tickets = λ t tw. omega (
          arith,
          put_count (has_ticket t) outside (queued u) here,
          order.tickets t tw,
          taken-offset s.lock.pass k t order.pass_word word tw,
          ap (λ x. one_if (x == t)) order.take,
          ap (λ n. one_if (ltb (sub64 t s.lock.pass) n)) more,
        );
        held =
            All-put (HoldsPass s.lock.pass) xs outside ys (queued u)
              (subst (All (HoldsPass s.lock.pass)) here order.held) tt;
      }

  stays-InOrder :
      (p q : Place)
      → s.places ≡ xs ++ p ∷ ys
      → ((t : ℕ) → has_ticket t q ≡ has_ticket t p)
      → is_inside q ≡ is_inside p
      → HoldsPass s.lock.pass q
      → InOrder (record { lock = s.lock; places = xs ++ q ∷ ys })
  stays-InOrder p q here same inside holds =
      let as_many : sum_by is_inside (xs ++ q ∷ ys) ≡ sum_by is_inside s.places =
        omega (arith, put_count is_inside p q here, inside) in
      record {
        pass_word = order.pass_word;
        take = omega (arith, order.take, as_many);
        tickets = λ t tw. omega (
          arith,
          put_count (has_ticket t) p q here,
          order.tickets t tw,
          same t,
          ap (λ n. one_if (ltb (sub64 t s.lock.pass) n)) as_many,
        );
        held =
            All-put (HoldsPass s.lock.pass) xs p ys q
              (subst (All (HoldsPass s.lock.pass)) here order.held) holds;
      }

  loads-InOrder :
      (t : ℕ)
      → s.places ≡ xs ++ queued t ∷ ys
      → InOrder (record { lock = s.lock; places = xs ++ after_load s.lock.pass t ∷ ys })
  unfolding after_load
  loads-InOrder t here = elim (Bool-cases (s.lock.pass == t)) [
    | inl e ↦
        subst
          (λ b.
            InOrder
              (record { lock = s.lock; places = xs ++ (if b then holding t else queued t) ∷ ys }))
          (sym e)
          (stays-InOrder (queued t) (holding t) here (λ u. refl) refl
            (sym ((==_iff s.lock.pass t).0 e)))
    | inr e ↦
        subst
          (λ b.
            InOrder
              (record { lock = s.lock; places = xs ++ (if b then holding t else queued t) ∷ ys }))
          (sym e) (stays-InOrder (queued t) (queued t) here (λ u. refl) refl tt)
  ]

  releases-InOrder :
      (t : ℕ)
      → s.places ≡ xs ++ holding t ∷ ys
      → InOrder (record { lock = lock_release s.lock; places = xs ++ outside ∷ ys })
  unfolding lock_release
  releases-InOrder t here =
      let pass = s.lock.pass in
      let passed : t ≡ pass =
        All-at (HoldsPass pass) xs (holding t) ys (subst (All (HoldsPass pass)) here order.held) in
      let k = sum_by is_inside (xs ++ outside ∷ ys) in
      let fewer : sum_by is_inside s.places ≡ k + 1 =
        omega (arith, put_count is_inside (holding t) outside here) in
      let word : k + 1 < 2 ^ 64 = omega (arith, inside-length s.places, fewer, few) in
      record {
        pass_word = omega arith;
        take = omega (arith, order.take, fewer);
        tickets = λ u uw. omega (
          arith,
          put_count (has_ticket u) (holding t) outside here,
          order.tickets u uw,
          passed-offset pass k u order.pass_word word uw,
          ap (λ x. one_if (x == u)) passed,
          ap (λ n. one_if (ltb (sub64 u pass) n)) fewer,
        );
        held = no_holders (add64 pass 1) (xs ++ outside ∷ ys) (
            omega (
              arith,
              put_count is_holder (holding t) outside here,
              holders-pass pass s.places order.held,
              order.tickets pass order.pass_word,
              one_if-le (ltb (sub64 pass pass) (sum_by is_inside s.places)),
            ));
      }

Step-InOrder :
    (s s' : System)
    → InOrder s
    → length s.places < 2 ^ 64
    → Step s s'
    → InOrder s' × (length s'.places ≡ length s.places)
Step-InOrder s s' order few (takes xs ys here e) = (
  subst InOrder (sym e) (takes-InOrder s order few xs ys here),
  ap (λ x. length x.places) e ∙ length-put xs outside _ ys ∙ sym (ap length here),
)
Step-InOrder s s' order few (loads xs ys t here e) = (
  subst InOrder (sym e) (loads-InOrder s order few xs ys t here),
  ap (λ x. length x.places) e ∙ length-put xs (queued t) _ ys ∙ sym (ap length here),
)
Step-InOrder s s' order few (releases xs ys t here e) = (
  subst InOrder (sym e) (releases-InOrder s order few xs ys t here),
  ap (λ x. length x.places) e ∙ length-put xs (holding t) _ ys ∙ sym (ap length here),
)

start-InOrder : (threads : ℕ) → InOrder (start threads)
start-InOrder threads =
    let none_in : sum_by is_inside (replicate threads outside) ≡ 0 =
      sum_by-replicate is_inside threads outside refl in
    record {
      pass_word = omega arith;
      take = omega (arith, none_in);
      tickets = λ t tw.
          sum_by-replicate (has_ticket t) threads outside refl
          ∙ sym (ap (λ n. one_if (ltb (sub64 t 0) n)) none_in ∙ nothing t);
      held = All-replicate (HoldsPass 0) threads outside tt;
    }
  where
    nothing : (t : ℕ) → one_if (ltb (sub64 t 0) 0) ≡ 0
    nothing t = ground arith

pub Steps-InOrder :
    (threads : ℕ)
    → threads < 2 ^ 64
    → (s : System) → Steps (start threads) s
    → InOrder s × (length s.places ≡ threads)
Steps-InOrder threads few s none_yet = (start-InOrder threads, length-replicate threads outside)
Steps-InOrder threads few s (then_step {m = m} steps step) =
    let (order, l) = Steps-InOrder threads few m steps in
    let (order', l') = Step-InOrder m s order (omega (arith, few, l)) step in (order', l' ∙ l)

-- Of fewer than 2 ^ 64 threads that acquire and release the ticket lock in whatever order, at most one
-- holds it at a time; and the threads inside have the tickets from `pass` on, modulo 2 ^ 64, one thread
-- each, so that there is always one whose ticket passes.
pub Steps-exclude :
    (threads : ℕ)
    → threads < 2 ^ 64
    → (s : System) → Steps (start threads) s
    → (sum_by is_holder s.places ≤ 1)
      × ((d : ℕ)
          → d < sum_by is_inside s.places
          → sum_by (has_ticket (add64 s.lock.pass d)) s.places ≡ 1)
Steps-exclude threads few s steps =
    let (order, l) = Steps-InOrder threads few s steps in
    let pass = s.lock.pass in
    let k = sum_by is_inside s.places in
    (
      omega (
        arith,
        holders-pass pass s.places order.held,
        order.tickets pass order.pass_word,
        one_if-le (ltb (sub64 pass pass) k),
      ),
      λ d lt.
          let word : k < 2 ^ 64 = omega (arith, inside-length s.places, l, few) in
          let next : ltb (sub64 (add64 pass d) pass) k ≡ true =
            ground (arith, lt, word, order.pass_word) in
          order.tickets (add64 pass d) (omega arith) ∙ ap one_if next,
    )
