-- ===== src/Counter/Tests.antt =====
-- Two workers and the counter (grading/workload.hpp).
use transactional_memory.Base.{refl, [], ◌∷◌, All, arith}
use transactional_memory.Counter.{
  Place, waiting, initializing, testing, reading, decreasing, nbtxperwrk, System, transact,
  first_runs, all_sync, Steps, none_yet, then_step, start,
}
use transactional_memory.Counter.Sound.{IsFine, Steps-IsFine}
use transactional_memory.Counter.Finish.{HasEnded, Steps-HasEnded}

abbrev second_barrier : Place
second_barrier = waiting (reading nbtxperwrk)

abbrev initialized : System
initialized = record { counter = 200; first = testing; others = second_barrier ∷ [] }

to_initialized : Steps (start 7 1) initialized
unfolding transact
to_initialized =
    then_step {m = record { counter = 7; first = initializing; others = second_barrier ∷ [] }}
      (then_step {m = start 7 1} none_yet (all_sync tt (tt, tt) refl)) (first_runs refl)

abbrev tested : System
tested = record { counter = 200; first = second_barrier; others = second_barrier ∷ [] }

abbrev in_rounds : System
in_rounds = record { counter = 200; first = decreasing 99 200; others = reading nbtxperwrk ∷ [] }

to_in_rounds : Steps (start 7 1) in_rounds
unfolding transact
to_in_rounds =
    then_step
      {m = record { counter = 200; first = reading nbtxperwrk; others = reading nbtxperwrk ∷ [] }}
      (then_step {m = tested} (then_step {m = initialized} to_initialized (first_runs refl))
        (all_sync tt (tt, tt) refl))
      (first_runs refl)

Steps-IsFine_example : All IsFine (decreasing 99 200 ∷ reading nbtxperwrk ∷ [])
Steps-IsFine_example = Steps-IsFine 7 1 (omega arith) in_rounds to_in_rounds

Steps-HasEnded_example : (e : System) × Steps in_rounds e × HasEnded e
Steps-HasEnded_example = Steps-HasEnded 7 1 (omega arith) in_rounds to_in_rounds
