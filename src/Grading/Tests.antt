-- ===== src/Grading/Tests.antt =====
-- Three measured rounds, and two libraries (grading/grading.cpp).
use transactional_memory.Base.{
  ◌≡◌, ◌≢◌, ◌↔◌, ◌+◌, ◌*◌, ◌%◌, ◌^◌, refl, none, some, List, [], ◌∷◌, ltb, if◌then◌else◌, All, ℕ,
  arith,
}
use transactional_memory.Clock.{Chrono, convert, invalid_tick}
use transactional_memory.Grading.{
  Round, measure, TimeLimits, no_limits, Evaluation, measured, threw, evaluate,
}
use transactional_memory.Grading.Times.{duration, total_duration, duration_of_first, measure-sums}
use transactional_memory.Grading.Limits.{IsConsistent, eightfold, evaluate-limits}

abbrev round : (begins ends : ℕ) → Round
round begins ends = record { begins = some (1, begins); ends = some (1, ends); error = none }

abbrev runtime : Chrono
runtime = record { total = 0; local = 0 }

abbrev repeats : List Round
repeats = round 20 25 ∷ round 30 36 ∷ round 40 47 ∷ []

abbrev reference : TimeLimits → Evaluation
reference limits = measured 10 20 30

-- It is timed out below 50 ticks.
abbrev slow_library : TimeLimits → Evaluation
slow_library limits = if ltb limits.maxtick_init 50 then threw else measured 50 60 70

evaluate-limits_example :
    ((evaluate (reference ∷ slow_library ∷ []) no_limits ≡ 0)
      ↔ All
          (λ (library : TimeLimits → Evaluation). IsConsistent (library (eightfold 10 20 30)))
          (slow_library ∷ []))
    × (8 * 10 % 2 ^ 64 ≢ invalid_tick)
    × (8 * 20 % 2 ^ 64 ≢ invalid_tick)
    × (8 * 30 % 2 ^ 64 ≢ invalid_tick)
evaluate-limits_example = evaluate-limits reference (slow_library ∷ []) 10 20 30 refl

measure-sums_example : measure (round 10 12) repeats (round 50 58) runtime ≡ record {
  error = none;
  time_init = duration (round 10 12);
  time_perf = some (duration (round 10 12) + duration_of_first 2 repeats);
  time_chck = duration (round 10 12) + total_duration repeats + duration (round 50 58);
}
unfolding convert
measure-sums_example =
    measure-sums (round 10 12) (round 50 58) repeats runtime refl refl refl
      (refl, (refl, (refl, tt))) (omega arith) (omega arith)

first_and_half : ◌≡◌ {A = ℕ} (duration (round 10 12) + duration_of_first 2 repeats) 13
unfolding convert
first_and_half = refl
