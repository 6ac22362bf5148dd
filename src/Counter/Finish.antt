-- ===== src/Counter/Finish.antt =====
-- The counter's test comes to its end (grading/workload.hpp).
use mathlib.Core.Path.{subst}
use transactional_memory.Base.{
  ℕ, zero, suc, ◌+◌, ◌*◌, ◌^◌, ◌≤◌, ◌<◌, ◌≡◌, refl, sym, ap, ◌⊎◌, inl, inr, Bool, true, false, List,
  [], ◌∷◌, ◌++◌, All, All-map, sum_by, sum_by-put, ltb, ◌==◌, if◌then◌else◌, Bool-cases, arith,
}
use transactional_memory.Words.{sub64}
use transactional_memory.Counter.{
  Place, waiting, initializing, testing, reading, decreasing, verifying, returned, nbtxperwrk,
  in_loop, init_counter, decrease, transact, System, nbworkers_in, IsWaiting, released, release_all,
  Step, first_runs, other_runs, all_sync, Steps, none_yet, then_step, start,
}
use transactional_memory.Counter.Phases.{
  IsSetup, initializes, tests, has_set, IsLooping, reads, decreases, has_decreased, IsAfter, ends,
  agrees, IsSound, before, setup, looping, after,
}
use transactional_memory.Counter.Sound.{Steps-IsSound}

-- The transactions and barriers that are before a worker at most.
abbrev pub weight : Place → ℕ
weight (waiting p) = suc (weight p)
weight initializing = 206
weight testing = 205
weight (reading n) = 2 * n + 3
weight (decreasing n last) = 2 * n + 4
weight verifying = 1
weight (returned correct) = 0

-- Inside a transaction.
abbrev pub IsActive : Place → Type 0
IsActive (waiting p) = ⊥
IsActive (reading n) = 0 < n
IsActive (returned correct) = ⊥
IsActive p = Unit

in_loop-weight : (first : Bool) (n : ℕ) → weight (in_loop first n) < 2 * n + 4
in_loop-weight true zero = omega arith
in_loop-weight false zero = omega arith
in_loop-weight first (suc n) = omega arith

abbrev place_weight : Place × ℕ → ℕ
place_weight r = weight r.0

decrease-weight :
    (first : Bool) (n last counter : ℕ) → weight (decrease first n last counter).0 < 2 * n + 4
unfolding decrease
decrease-weight first n last counter = elim (Bool-cases (ltb last counter)) [
  | inl e ↦
      subst
        (λ b.
          place_weight
            (if b then (waiting (returned false), counter) else (in_loop first n, sub64 counter 1))
          < 2 * n + 4)
        (sym e) (omega arith)
  | inr e ↦
      subst
        (λ b.
          place_weight
            (if b then (waiting (returned false), counter) else (in_loop first n, sub64 counter 1))
          < 2 * n + 4)
        (sym e) (in_loop-weight first n)
]

transact-weight :
    (first : Bool) (workers : ℕ) (p : Place) (counter : ℕ)
    → IsActive p
    → weight (transact first workers p counter).0 < weight p
unfolding transact
transact-weight first workers (waiting p) counter a = absurd a
transact-weight first workers initializing counter a = omega arith
transact-weight first workers testing counter a =
    elim (Bool-cases (counter == init_counter workers)) [
      | inl e ↦
          subst
            (λ b.
              weight (waiting (if b then reading nbtxperwrk else waiting (returned false))) < 205)
            (sym e) (omega arith)
      | inr e ↦
          subst
            (λ b.
              weight (waiting (if b then reading nbtxperwrk else waiting (returned false))) < 205)
            (sym e) (omega arith)
    ]
transact-weight first workers (reading zero) counter a = absurd (omega (arith, a))
transact-weight first workers (reading (suc n)) counter a = omega arith
transact-weight first workers (decreasing n last) counter a = decrease-weight first n last counter
transact-weight first workers verifying counter a = omega arith
transact-weight first workers (returned correct) counter a = absurd a

release-weight : (ps : List Place) → sum_by weight (release_all ps) ≤ sum_by weight ps
release-weight [] = omega arith
release-weight (waiting p ∷ ps) = omega (arith, release-weight ps)
release-weight (p ∷ ps) = omega (arith, release-weight ps)

abbrev pub remaining : System → ℕ
remaining s = weight s.first + sum_by weight s.others

-- All are at a barrier, or one is in a transaction.
abbrev SomeActive : List Place → Type 0
SomeActive ps =
    (xs : List Place) × (ys : List Place) × (p : Place) × (ps ≡ xs ++ p ∷ ys) × IsActive p

module _ (P : Place → Type 0) where
  find_active : (ps : List Place) → All (λ p. P p ⊎ IsActive p) ps → All P ps ⊎ SomeActive ps
  find_active [] h = inl tt
  find_active (p ∷ ps) (inr a, hs) = inr ([], ps, p, refl, a)
  find_active (p ∷ ps) (inl w, hs) = elim (find_active ps hs) [
    | inl ws ↦ inl (w, ws)
    | inr (xs, ys, q, e, a) ↦ inr (p ∷ xs, ys, q, ap (λ zs. p ∷ zs) e, a)
  ]

-- What the phases say of one place.

setup-place :
    (workers counter : ℕ) (p : Place) → IsSetup workers counter p → IsWaiting p ⊎ IsActive p
setup-place workers counter _ initializes = inr tt
setup-place workers counter _ (tests e) = inr tt
setup-place workers counter _ (has_set e) = inl tt

looping-place :
    (first : Bool) (counter : ℕ) (p : Place) → IsLooping first counter p → IsWaiting p ⊎ IsActive p
looping-place first counter _ (reads n) = inr (omega arith)
looping-place first counter _ (decreases n last le) = inr tt
looping-place first counter _ has_decreased = inl tt

after-place : (first : Bool) (p : Place) → IsAfter first p → (p ≡ returned true) ⊎ IsActive p
after-place true _ ends = inr tt
after-place false _ ends = inl refl
after-place first _ agrees = inl refl

released-weight : (p : Place) → IsWaiting p → weight (released p) < weight p
released-weight (waiting p) w = omega arith
released-weight initializing w = absurd w
released-weight testing w = absurd w
released-weight (reading n) w = absurd w
released-weight (decreasing n last) w = absurd w
released-weight verifying w = absurd w
released-weight (returned correct) w = absurd w

abbrev pub HasEnded : System → Type 0
HasEnded s = All (λ p. p ≡ returned true) (s.first ∷ s.others)

module _ (s : System) where
  abbrev Moves : Type 0
  Moves = (s' : System) × Step s s' × (remaining s' < remaining s)

  first_moves : IsActive s.first → Moves
  first_moves a =
      (_, first_runs refl, omega (arith, transact-weight true (nbworkers_in s) s.first s.counter a))

  other_moves : SomeActive s.others → Moves
  other_moves (xs, ys, p, here, a) =
      let r = transact false (nbworkers_in s) p s.counter in
      (
        _,
        other_runs xs ys p here refl,
        omega (
          arith,
          transact-weight false (nbworkers_in s) p s.counter a,
          sum_by-put weight xs p r.0 ys,
          ap (sum_by weight) here,
        ),
      )

  all_move : IsWaiting s.first → All IsWaiting s.others → Moves
  all_move w ws =
      (_, all_sync w ws refl, omega (arith, released-weight s.first w, release-weight s.others))

  some_move :
      IsWaiting s.first ⊎ IsActive s.first → All IsWaiting s.others ⊎ SomeActive s.others → Moves
  some_move (inr a) others = first_moves a
  some_move (inl w) (inr a) = other_moves a
  some_move (inl w) (inl ws) = all_move w ws

  ends_or_moves :
      (s.first ≡ returned true) ⊎ IsActive s.first
      → All (λ p. p ≡ returned true) s.others ⊎ SomeActive s.others
      → HasEnded s ⊎ Moves
  ends_or_moves (inr a) others = inr (first_moves a)
  ends_or_moves (inl e) (inr a) = inr (other_moves a)
  ends_or_moves (inl e) (inl es) = inl (e, es)

  progress : IsSound s → HasEnded s ⊎ Moves
  progress (before e o) = inr (
      all_move (subst IsWaiting (sym e) tt)
        (All-map (λ p k. subst IsWaiting (sym k) tt) s.others o))
  progress (setup h o) = inr (
      some_move (setup-place (nbworkers_in s) s.counter s.first h)
        (inl (All-map (λ p k. subst IsWaiting (sym k) tt) s.others o)))
  progress (looping h o sum word) = inr (
      some_move (looping-place true s.counter s.first h) (
        find_active IsWaiting s.others
          (All-map (λ p k. looping-place false s.counter p k) s.others o)))
  progress (after h o z) = ends_or_moves (after-place true s.first h) (
      find_active (λ p. p ≡ returned true) s.others
        (All-map (λ p k. after-place false p k) s.others o))

finishes :
    (counter n : ℕ)
    → nbtxperwrk * (n + 1) < 2 ^ 64
    → (fuel : ℕ) (b s : System) → remaining s < fuel
    → Steps (start counter n) s
    → Steps b s
    → (e : System) × Steps b e × HasEnded e
finishes counter n few zero b s lt steps since = absurd (omega arith)
finishes counter n few (suc fuel) b s lt steps since =
    elim (progress s (Steps-IsSound counter n few s steps).0) [
      | inl ended ↦ (s, since, ended)
      | inr (m, step, less) ↦
          finishes counter n few fuel b m (omega (arith, lt, less)) (then_step steps step)
            (then_step since step)
    ]

-- From every state that workers reach, so many that 100 times their number is below 2 ^ 64, they can
-- go on to a state where each has returned and reported no violation: none is stuck at a barrier.
pub Steps-HasEnded :
    (counter n : ℕ)
    → nbtxperwrk * (n + 1) < 2 ^ 64
    → (s : System) → Steps (start counter n) s
    → (e : System) × Steps s e × HasEnded e
Steps-HasEnded counter n few s steps =
    finishes counter n few (suc (remaining s)) s s (omega arith) steps none_yet
