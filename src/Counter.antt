-- ===== src/Counter.antt =====
-- The shared counter of the workload's last test (grading/workload.hpp: `WorkloadBank::check`), with
-- each transaction as one atomic step of the worker that runs it.
use transactional_memory.Base.{
  ℕ, zero, suc, ◌+◌, ◌*◌, ◌%◌, ◌^◌, ◌≡◌, refl, Bool, true, false, List, [], ◌∷◌, ◌++◌, All, length,
  ltb, ◌==◌, if◌then◌else◌,
}
use transactional_memory.Words.{sub64}
pub mod Phases
pub mod Loop
pub mod Sound
pub mod Finish
pub mod Tests

abbrev pub nbtxperwrk : ℕ
nbtxperwrk = 100

-- Where a worker stands: what it does next. `waiting p` is before `barrier.sync()`, with `p` after it;
-- `reading n` and `decreasing n last` are in the loop, with `n` rounds and with `n + 1` left.
pub data Place : Type 0 where
  waiting : Place → Place
  initializing : Place
  testing : Place
  reading : (n : ℕ) → Place
  decreasing : (n last : ℕ) → Place
  verifying : Place
  returned : (correct : Bool) → Place

-- After the last barrier, with `uid == 0` or not.
abbrev pub after_loop : (first : Bool) → Place
after_loop true = verifying
after_loop false = returned true

-- The test of the loop, with `n` rounds left.
abbrev pub in_loop : (first : Bool) → (n : ℕ) → Place
in_loop first zero = waiting (after_loop first)
in_loop first (suc n) = reading (suc n)

-- After the first barrier.
abbrev pub after_start : (first : Bool) → Place
after_start true = initializing
after_start false = waiting (reading nbtxperwrk)

-- Before the first barrier.
abbrev pub outset : (first : Bool) → Place
outset first = waiting (after_start first)

abbrev pub init_counter : (nbworkers : ℕ) → ℕ
init_counter nbworkers = nbtxperwrk * nbworkers % 2 ^ 64

-- The transaction of the loop that writes: the place after it and the counter.
unfoldable pub decrease : (first : Bool) → (n last value : ℕ) → Place × ℕ
decrease first n last value =
    if ltb last value then (waiting (returned false), value) else (in_loop first n, sub64 value 1)

-- The next transaction of a worker: its place after it and the counter.
unfoldable pub transact : (first : Bool) → (nbworkers : ℕ) → Place → (counter : ℕ) → Place × ℕ
unfolding decrease
transact first nbworkers (waiting p) counter = (waiting p, counter)
transact first nbworkers initializing counter = (testing, init_counter nbworkers)
transact first nbworkers testing counter = (
  waiting
      (if counter == init_counter nbworkers then reading nbtxperwrk else waiting (returned false)),
  counter,
)
transact first nbworkers (reading zero) counter = (reading zero, counter)
transact first nbworkers (reading (suc n)) counter = (decreasing n counter, counter)
transact first nbworkers (decreasing n last) counter = decrease first n last counter
transact first nbworkers verifying counter = (returned (counter == 0), counter)
transact first nbworkers (returned correct) counter = (returned correct, counter)

-- The counter, the worker with `uid == 0`, and the others.
pub record System : Type 0 where
  pub counter : ℕ
  pub first : Place
  pub others : List Place

abbrev pub nbworkers_in : System → ℕ
nbworkers_in s = suc (length s.others)

abbrev pub IsWaiting : Place → Type 0
IsWaiting (waiting p) = Unit
IsWaiting p = ⊥

abbrev pub released : Place → Place
released (waiting p) = p
released p = p

abbrev pub release_all : List Place → List Place
release_all [] = []
release_all (p ∷ ps) = released p ∷ release_all ps

-- A worker runs its next transaction, or all are at a barrier and leave it.
pub data Step (s s' : System) : Type 0 where
  first_runs :
      s' ≡ record {
        counter = (transact true (nbworkers_in s) s.first s.counter).1;
        first = (transact true (nbworkers_in s) s.first s.counter).0;
        others = s.others;
      }
      → Step s s'
  other_runs :
      (xs ys : List Place) (p : Place)
      → s.others ≡ xs ++ p ∷ ys
      → s' ≡ record {
        counter = (transact false (nbworkers_in s) p s.counter).1;
        first = s.first;
        others = xs ++ (transact false (nbworkers_in s) p s.counter).0 ∷ ys;
      }
      → Step s s'
  all_sync :
      IsWaiting s.first
      → All IsWaiting s.others
      → s' ≡ record { counter = s.counter; first = released s.first; others = release_all s.others }
      → Step s s'

pub data Steps (s : System) : System → Type 0 where
  none_yet : Steps s s
  then_step : {m e : System} → Steps s m → Step m e → Steps s e

abbrev pub all_outset : (n : ℕ) → List Place
all_outset zero = []
all_outset (suc n) = outset false ∷ all_outset n

-- All workers before the first barrier; the counter's value is of no account.
abbrev pub start : (counter others : ℕ) → System
start counter others = record { counter = counter; first = outset true; others = all_outset others }
