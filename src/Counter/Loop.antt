-- ===== src/Counter/Loop.antt =====
-- One transaction of the counter's test (grading/workload.hpp).
use mathlib.Core.Path.{subst}
use transactional_memory.Base.{
  ℕ, zero, suc, ◌+◌, ◌^◌, ◌≤◌, ◌<◌, ◌≡◌, refl, sym, Bool, true, false, List, All, All-map, ltb,
  ◌==◌, ==_iff, if◌then◌else◌, arith,
}
use transactional_memory.Words.{sub64}
use transactional_memory.Counter.{
  Place, waiting, initializing, testing, reading, decreasing, verifying, returned, nbtxperwrk,
  in_loop, init_counter, decrease, transact, IsWaiting,
}
use transactional_memory.Counter.Phases.{
  IsSetup, initializes, tests, has_set, IsLooping, reads, decreases, has_decreased, IsAfter, ends,
  agrees, left,
}

-- At a barrier a worker stays.
pub transact-waiting :
    (first : Bool) (nb : ℕ) (p : Place) (counter : ℕ)
    → IsWaiting p
    → transact first nb p counter ≡ (p, counter)
unfolding transact
transact-waiting first nb (waiting p) counter w = refl
transact-waiting first nb initializing counter w = absurd w
transact-waiting first nb testing counter w = absurd w
transact-waiting first nb (reading n) counter w = absurd w
transact-waiting first nb (decreasing n last) counter w = absurd w
transact-waiting first nb verifying counter w = absurd w
transact-waiting first nb (returned correct) counter w = absurd w

pub transact-IsSetup :
    (nb counter : ℕ) (p : Place)
    → IsSetup nb counter p
    → IsSetup nb (transact true nb p counter).1 (transact true nb p counter).0
unfolding transact
transact-IsSetup nb counter _ initializes = tests refl
transact-IsSetup nb counter _ (tests e) =
    let same : (counter == init_counter nb) ≡ true = (==_iff _ _).1 e in
    subst
      (λ b.
        IsSetup nb counter (waiting (if b then reading nbtxperwrk else waiting (returned false))))
      (sym same) (has_set e)
transact-IsSetup nb counter _ (has_set e) = has_set e

pub transact-IsAfter :
    (first : Bool) (nb counter : ℕ) (p : Place)
    → IsAfter first p
    → counter ≡ 0
    → IsAfter first (transact first nb p counter).0 × ((transact first nb p counter).1 ≡ 0)
unfolding transact
transact-IsAfter true nb counter _ ends z =
    let same : (counter == 0) ≡ true = (==_iff _ _).1 z in
    (subst (λ b. IsAfter true (returned b)) (sym same) agrees, z)
transact-IsAfter false nb counter _ ends z = (agrees, z)
transact-IsAfter first nb counter _ agrees z = (agrees, z)

-- What a transaction makes of a worker in the loop: a round less where the counter falls, and the
-- counter never rises.
abbrev pub Loops : (first : Bool) → (counter : ℕ) → Place → Place × ℕ → Type 0
Loops first counter p r =
    IsLooping first r.1 r.0 × (r.1 + left p ≡ counter + left r.0) × (r.1 ≤ counter)

in_loop-IsLooping : (first : Bool) (counter n : ℕ) → IsLooping first counter (in_loop first n)
in_loop-IsLooping first counter zero = has_decreased
in_loop-IsLooping first counter (suc n) = reads n

left-in_loop : (first : Bool) (n : ℕ) → left (in_loop first n) ≡ n
left-in_loop first zero = refl
left-in_loop first (suc n) = refl

decrease-Loops :
    (first : Bool) (n last counter : ℕ)
    → counter ≤ last
    → suc n ≤ counter
    → counter < 2 ^ 64
    → Loops first counter (decreasing n last) (decrease first n last counter)
unfolding decrease
decrease-Loops first n last counter le more word =
    let not_more : ltb last counter ≡ false = ground arith in
    subst
      (λ b.
        Loops first counter (decreasing n last)
          (if b then (waiting (returned false), counter) else (in_loop first n, sub64 counter 1)))
      (sym not_more)
      (
        in_loop-IsLooping first (sub64 counter 1) n,
        omega (arith, more, word, left-in_loop first n),
        omega (arith, more, word),
      )

pub transact-Loops :
    (first : Bool) (nb counter : ℕ) (p : Place)
    → IsLooping first counter p
    → left p ≤ counter
    → counter < 2 ^ 64
    → Loops first counter p (transact first nb p counter)
unfolding transact
transact-Loops first nb counter _ (reads n) more word =
    (decreases n counter (omega arith), omega arith, omega arith)
transact-Loops first nb counter _ (decreases n last le) more word =
    decrease-Loops first n last counter le more word
transact-Loops first nb counter _ has_decreased more word =
    (has_decreased, omega arith, omega arith)

-- A worker stays in the loop when the counter falls.
pub IsLooping-le :
    (first : Bool) (counter counter' : ℕ)
    → counter' ≤ counter
    → (p : Place) → IsLooping first counter p
    → IsLooping first counter' p
IsLooping-le first counter counter' le _ (reads n) = reads n
IsLooping-le first counter counter' le _ (decreases n last h) =
    decreases n last (omega (arith, h, le))
IsLooping-le first counter counter' le _ has_decreased = has_decreased

-- The others are still in the loop when the counter falls.
pub All-IsLooping-le :
    (counter counter' : ℕ) (ps : List Place)
    → counter' ≤ counter
    → All (IsLooping false counter) ps
    → All (IsLooping false counter') ps
All-IsLooping-le counter counter' ps le = All-map (IsLooping-le false counter counter' le) ps
