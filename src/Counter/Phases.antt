-- ===== src/Counter/Phases.antt =====
-- The phases of the counter's test, between its barriers (grading/workload.hpp).
use mathlib.Core.Path.{subst}
use transactional_memory.Base.{
  ℕ, suc, ◌+◌, ◌*◌, ◌^◌, ◌≤◌, ◌<◌, ◌≡◌, refl, sym, ap, Bool, true, false, List, [], ◌∷◌, All,
  sum_by, length, arith,
}
use transactional_memory.Counter.{
  Place, waiting, initializing, testing, reading, decreasing, returned, nbtxperwrk, after_loop,
  outset, init_counter, System, nbworkers_in, IsWaiting, released, release_all,
}

-- Before the second barrier, the worker that initializes.
pub data IsSetup (nbworkers counter : ℕ) : Place → Type 0 where
  initializes : IsSetup nbworkers counter initializing
  tests : counter ≡ init_counter nbworkers → IsSetup nbworkers counter testing
  has_set :
      counter ≡ init_counter nbworkers → IsSetup nbworkers counter (waiting (reading nbtxperwrk))

-- In the loop; what a worker has read last is no less than the counter.
pub data IsLooping (first : Bool) (counter : ℕ) : Place → Type 0 where
  reads : (n : ℕ) → IsLooping first counter (reading (suc n))
  decreases : (n last : ℕ) → counter ≤ last → IsLooping first counter (decreasing n last)
  has_decreased : IsLooping first counter (waiting (after_loop first))

-- After the last barrier.
pub data IsAfter (first : Bool) : Place → Type 0 where
  ends : IsAfter first (after_loop first)
  agrees : IsAfter first (returned true)

-- The rounds that are left.
abbrev pub left : Place → ℕ
left (reading n) = n
left (decreasing n last) = suc n
left p = 0

pub data IsSound (s : System) : Type 0 where
  before : s.first ≡ outset true → All (λ p. p ≡ outset false) s.others → IsSound s
  setup :
      IsSetup (nbworkers_in s) s.counter s.first
      → All (λ p. p ≡ waiting (reading nbtxperwrk)) s.others
      → IsSound s
  looping :
      IsLooping true s.counter s.first
      → All (IsLooping false s.counter) s.others
      → s.counter ≡ left s.first + sum_by left s.others
      → s.counter < 2 ^ 64
      → IsSound s
  after : IsAfter true s.first → All (IsAfter false) s.others → s.counter ≡ 0 → IsSound s

-- What the barriers make of the phases.

pub before-sync :
    (ps : List Place)
    → All (λ p. p ≡ outset false) ps
    → All (λ p. p ≡ waiting (reading nbtxperwrk)) (release_all ps)
before-sync [] h = tt
before-sync (p ∷ ps) (e, h) = (ap released e, before-sync ps h)

pub setup-sync :
    (counter : ℕ) (ps : List Place)
    → All (λ p. p ≡ waiting (reading nbtxperwrk)) ps
    → All (IsLooping false counter) (release_all ps)
      × (sum_by left (release_all ps) ≡ nbtxperwrk * length ps)
setup-sync counter [] h = (tt, omega arith)
setup-sync counter (p ∷ ps) (e, h) =
    let (loops, sum) = setup-sync counter ps h in
    (
      (subst (IsLooping false counter) (sym (ap released e)) (reads 99), loops),
      omega (arith, sum, ap left (ap released e)),
    )

pub set-sync :
    (nb counter : ℕ) (p : Place)
    → IsSetup nb counter p
    → IsWaiting p
    → (released p ≡ reading nbtxperwrk) × (counter ≡ init_counter nb)
set-sync nb counter _ initializes w = absurd w
set-sync nb counter _ (tests e) w = absurd w
set-sync nb counter _ (has_set e) w = (refl, e)

pub sync-left :
    (first : Bool) (counter : ℕ) (p : Place)
    → IsLooping first counter p
    → IsWaiting p
    → (left p ≡ 0) × IsAfter first (released p)
sync-left first counter _ (reads n) w = absurd w
sync-left first counter _ (decreases n last le) w = absurd w
sync-left first counter _ has_decreased w = (refl, ends)

pub looping-sync :
    (counter : ℕ) (ps : List Place)
    → All (IsLooping false counter) ps
    → All IsWaiting ps
    → (sum_by left ps ≡ 0) × All (IsAfter false) (release_all ps)
looping-sync counter [] h w = (refl, tt)
looping-sync counter (p ∷ ps) (h, hs) (w, ws) =
    let (z, a) = sync-left false counter p h w in
    let (zs, rest) = looping-sync counter ps hs ws in (omega (arith, z, zs), (a, rest))

pub first-after : (p : Place) → IsAfter true p → IsWaiting p → ⊥
first-after _ ends w = w
first-after _ agrees w = w

pub length-release_all : (ps : List Place) → length (release_all ps) ≡ length ps
length-release_all [] = refl
length-release_all (p ∷ ps) = ap suc (length-release_all ps)
