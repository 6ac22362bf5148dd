-- ===== src/Counter/Sound.antt =====
-- No worker finds a violation in the counter's test (grading/workload.hpp).
use mathlib.Core.Path.{subst}
use transactional_memory.Base.{
  ℕ, zero, suc, ◌+◌, ◌*◌, ◌^◌, ◌<◌, ◌≡◌, refl, sym, ◌∙◌, ap, Bool, true, false, List, ◌∷◌, ◌++◌,
  All, All-at, All-put, All-map, sum_by, sum_by-put, sum_by-at, length, length-put, arith,
}
use transactional_memory.Counter.{
  Place, waiting, reading, returned, nbtxperwrk, outset, init_counter, transact, System,
  nbworkers_in, IsWaiting, released, release_all, Step, first_runs, other_runs, all_sync, Steps,
  none_yet, then_step, all_outset, start,
}
use transactional_memory.Counter.Phases.{
  IsSetup, initializes, tests, has_set, IsLooping, reads, decreases, has_decreased, IsAfter, ends,
  agrees, left, IsSound, before, setup, looping, after, before-sync, setup-sync, set-sync,
  sync-left, looping-sync, first-after, length-release_all,
}
use transactional_memory.Counter.Loop.{
  transact-waiting, transact-IsSetup, transact-IsAfter, transact-Loops, IsLooping-le,
  All-IsLooping-le,
}

module _ (s : System) where
  abbrev nb : ℕ
  nb = nbworkers_in s

  abbrev after_first : System
  after_first = record {
    counter = (transact true nb s.first s.counter).1;
    first = (transact true nb s.first s.counter).0;
    others = s.others;
  }

  first-IsSound : IsSound s → IsSound after_first
  first-IsSound (before e o) =
      let stays = transact-waiting true nb s.first s.counter (subst IsWaiting (sym e) tt) in
      before (ap (λ r. r.0) stays ∙ e) o
  first-IsSound (setup h o) = setup (transact-IsSetup nb s.counter s.first h) o
  first-IsSound (looping h o sum word) =
      let (l, e, le) = transact-Loops true nb s.counter s.first h (omega (arith, sum)) word in
      looping l (All-IsLooping-le s.counter _ s.others le o) (omega (arith, sum, e))
        (omega (arith, le, word))
  first-IsSound (after h o z) =
      let (a, z') = transact-IsAfter true nb s.counter s.first h z in after a o z'

  module _ (xs ys : List Place) (p : Place) (here : s.others ≡ xs ++ p ∷ ys) where
    abbrev moved : Place × ℕ
    moved = transact false nb p s.counter

    abbrev after_other : System
    after_other = record { counter = moved.1; first = s.first; others = xs ++ moved.0 ∷ ys }

    same_length : length (xs ++ moved.0 ∷ ys) ≡ length s.others
    same_length = length-put xs p moved.0 ys ∙ sym (ap length here)

    -- The others, each of which has a property of its place, at a barrier.
    stays : IsWaiting p → moved ≡ (p, s.counter)
    stays w = transact-waiting false nb p s.counter w

    put-All : (P : Place → Type 0) → All P s.others → (P p → P moved.0) → All P (xs ++ moved.0 ∷ ys)
    put-All P o f =
        let o' = subst (All P) here o in All-put P xs p ys moved.0 o' (f (All-at P xs p ys o'))

    other-IsSound : IsSound s → IsSound after_other
    other-IsSound (before e o) = before e (
        put-All (λ q. q ≡ outset false) o
          (λ k. ap (λ r. r.0) (stays (subst IsWaiting (sym k) tt)) ∙ k))
    other-IsSound (setup h o) =
        let k =
          All-at (λ q. q ≡ waiting (reading nbtxperwrk)) xs p ys
            (subst (All (λ q. q ≡ waiting (reading nbtxperwrk))) here o) in
        let e = stays (subst IsWaiting (sym k) tt) in
        setup
          (subst (λ c. IsSetup (nbworkers_in after_other) c s.first) (sym (ap (λ r. r.1) e))
            (subst (λ n. IsSetup (suc n) s.counter s.first) (sym same_length) h))
          (put-All (λ q. q ≡ waiting (reading nbtxperwrk)) o (λ k. ap (λ r. r.0) e ∙ k))
    other-IsSound (looping h o sum word) =
        let o' = subst (All (IsLooping false s.counter)) here o in
        let total : s.counter ≡ left s.first + sum_by left (xs ++ p ∷ ys) =
          sum ∙ ap (λ qs. left s.first + sum_by left qs) here in
        let (l, e, le) =
          transact-Loops false nb s.counter p (All-at (IsLooping false s.counter) xs p ys o')
            (omega (arith, total, sum_by-at left xs p ys)) word in
        looping (IsLooping-le true s.counter moved.1 le s.first h)
          (All-put (IsLooping false moved.1) xs p ys moved.0
            (All-IsLooping-le s.counter moved.1 (xs ++ p ∷ ys) le o') l)
          (omega (arith, total, e, sum_by-put left xs p moved.0 ys)) (omega (arith, le, word))
    other-IsSound (after h o z) =
        let o' = subst (All (IsAfter false)) here o in
        let (a, z') = transact-IsAfter false nb s.counter p (All-at (IsAfter false) xs p ys o') z in
        after h (All-put (IsAfter false) xs p ys moved.0 o' a) z'

  abbrev after_sync : System
  after_sync = record {
    counter = s.counter;
    first = released s.first;
    others = release_all s.others;
  }

  sync-IsSound :
      nbtxperwrk * nb < 2 ^ 64
      → IsWaiting s.first
      → All IsWaiting s.others
      → IsSound s
      → IsSound after_sync
  sync-IsSound few w ws (before e o) =
      setup (subst (IsSetup _ s.counter) (sym (ap released e)) initializes) (before-sync s.others o)
  sync-IsSound few w ws (setup h o) =
      let (e, c) = set-sync nb s.counter s.first h w in
      let (loops, sum) = setup-sync s.counter s.others o in
      let full : init_counter nb ≡ nbtxperwrk * nb = omega (arith, few) in
      looping (subst (IsLooping true s.counter) (sym e) (reads 99)) loops
        (omega (arith, c, full, sum, ap left e)) (omega (arith, c))
  sync-IsSound few w ws (looping h o sum word) =
      let (z, a) = sync-left true s.counter s.first h w in
      let (zs, rest) = looping-sync s.counter s.others o ws in
      after a rest (omega (arith, sum, z, zs))
  sync-IsSound few w ws (after h o z) = absurd (first-after s.first h w)

pub Step-IsSound :
    (s s' : System)
    → nbtxperwrk * nbworkers_in s < 2 ^ 64
    → IsSound s
    → Step s s'
    → IsSound s' × (length s'.others ≡ length s.others)
Step-IsSound s s' few sound (first_runs e) =
    (subst IsSound (sym e) (first-IsSound s sound), ap (λ x. length x.others) e)
Step-IsSound s s' few sound (other_runs xs ys p here e) = (
  subst IsSound (sym e) (other-IsSound s xs ys p here sound),
  ap (λ x. length x.others) e ∙ same_length s xs ys p here,
)
Step-IsSound s s' few sound (all_sync w ws e) = (
  subst IsSound (sym e) (sync-IsSound s few w ws sound),
  ap (λ x. length x.others) e ∙ length-release_all s.others,
)

start-IsSound : (counter n : ℕ) → IsSound (start counter n) × (length (all_outset n) ≡ n)
start-IsSound counter n = (before refl (outsets n), lengths n)
  where
    outsets : (n : ℕ) → All (λ p. p ≡ outset false) (all_outset n)
    outsets zero = tt
    outsets (suc n) = (refl, outsets n)

    lengths : (n : ℕ) → length (all_outset n) ≡ n
    lengths zero = refl
    lengths (suc n) = ap suc (lengths n)

pub Steps-IsSound :
    (counter n : ℕ)
    → nbtxperwrk * (n + 1) < 2 ^ 64
    → (s : System) → Steps (start counter n) s
    → IsSound s × (length s.others ≡ n)
Steps-IsSound counter n few s none_yet = start-IsSound counter n
Steps-IsSound counter n few s (then_step {m = m} steps step) =
    let (sound, l) = Steps-IsSound counter n few m steps in
    let (sound', l') = Step-IsSound m s (omega (arith, few, l)) sound step in (sound', l' ∙ l)

-- Neither a violation nor on the way to report one.
abbrev pub IsFine : Place → Type 0
IsFine (returned false) = ⊥
IsFine (waiting (returned false)) = ⊥
IsFine (waiting (waiting (returned false))) = ⊥
IsFine p = Unit

looping-IsFine : (first : Bool) (counter : ℕ) (p : Place) → IsLooping first counter p → IsFine p
looping-IsFine first counter _ (reads n) = tt
looping-IsFine first counter _ (decreases n last le) = tt
looping-IsFine true counter _ has_decreased = tt
looping-IsFine false counter _ has_decreased = tt

setup-IsFine : (workers counter : ℕ) (p : Place) → IsSetup workers counter p → IsFine p
setup-IsFine workers counter _ initializes = tt
setup-IsFine workers counter _ (tests e) = tt
setup-IsFine workers counter _ (has_set e) = tt

after-IsFine : (first : Bool) (p : Place) → IsAfter first p → IsFine p
after-IsFine true _ ends = tt
after-IsFine false _ ends = tt
after-IsFine first _ agrees = tt

sound-IsFine : (s : System) → IsSound s → All IsFine (s.first ∷ s.others)
sound-IsFine s (before e o) =
    (subst IsFine (sym e) tt, All-map (λ p k. subst IsFine (sym k) tt) s.others o)
sound-IsFine s (setup h o) =
    (setup-IsFine _ _ s.first h, All-map (λ p k. subst IsFine (sym k) tt) s.others o)
sound-IsFine s (looping h o sum word) =
    (looping-IsFine _ _ s.first h, All-map (λ p k. looping-IsFine _ _ p k) s.others o)
sound-IsFine s (after h o z) =
    (after-IsFine _ s.first h, All-map (λ p k. after-IsFine _ p k) s.others o)

-- Of workers so many that 100 times their number is below 2 ^ 64, whose transactions on the counter
-- take place in whatever order between the barriers, and whatever the counter is at first, none ever
-- finds a violation, be it of the initial value, of a value above the one read before, or of the
-- last value.
pub Steps-IsFine :
    (counter n : ℕ)
    → nbtxperwrk * (n + 1) < 2 ^ 64
    → (s : System) → Steps (start counter n) s
    → All IsFine (s.first ∷ s.others)
Steps-IsFine counter n few s steps = sound-IsFine s (Steps-IsSound counter n few s steps).0
