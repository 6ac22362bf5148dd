-- ===== src/Barrier/Tests.antt =====
-- Two threads and a barrier (grading/common.hpp).
use transactional_memory.Base.{ℕ, ◌≤◌, ◌+◌, refl, inl, inr, List, [], ◌∷◌, arith}
use transactional_memory.Barrier.{
  enter, leave, outside, entered_last, awaiting_leave, leaving, Thread, at, System, new_barrier,
  add_step, adds, sets_leave, Steps, none_yet, then_step,
}
use transactional_memory.Barrier.Passes.{start, passes, Steps-passes}
use transactional_memory.Barrier.Progress.{SomeMoves, Steps-SomeMoves}

abbrev state : ℕ → List Thread → System
state step threads = record {
  barrier = record { cardinal = 2; step = step; mode = enter };
  threads = threads;
}

abbrev one_waits : System
one_waits = state 1 (at awaiting_leave 1 ∷ at outside 0 ∷ [])

abbrev both_entered : System
both_entered = state 2 (at awaiting_leave 1 ∷ at entered_last 1 ∷ [])

abbrev one_leaves : System
one_leaves = record {
  barrier = record { cardinal = 2; step = 2; mode = leave };
  threads = at awaiting_leave 1 ∷ at leaving 1 ∷ [];
}

to_both_entered : Steps (start 2) both_entered
unfolding new_barrier add_step
to_both_entered =
    then_step {m = one_waits}
      (then_step {m = start 2} none_yet (adds [] (at outside 0 ∷ []) 0 refl refl))
      (adds (at awaiting_leave 1 ∷ []) [] 0 refl refl)

to_one_leaves : Steps (start 2) one_leaves
to_one_leaves =
    then_step {m = both_entered} to_both_entered
      (sets_leave (at awaiting_leave 1 ∷ []) [] 1 refl refl)

Steps-passes_example : (passes (at leaving 1) ≤ 1) × (◌≤◌ 1 (passes (at leaving 1) + 1))
Steps-passes_example =
    Steps-passes 2 (omega arith) (omega arith) one_leaves to_one_leaves (at leaving 1)
      (at awaiting_leave 1) (inr (inl refl)) (inl refl)

Steps-SomeMoves_example : SomeMoves enter (at awaiting_leave 1 ∷ at entered_last 1 ∷ [])
Steps-SomeMoves_example =
    Steps-SomeMoves 2 (omega arith) (omega arith) both_entered to_both_entered
      ((λ e. cc), ((λ e. cc), tt))
