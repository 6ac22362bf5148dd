-- ===== src/Grading/Limits.antt =====
-- The timeouts that `main` derives from the reference (grading/grading.cpp).
use mathlib.Core.Path.{subst}
use transactional_memory.Base.{
  ℕ, ◌+◌, ◌*◌, ◌%◌, ◌^◌, ap, Bool, ◌≡◌, ◌≢◌, ◌↔◌, refl, sym, inl, inr, false, List, [], ◌∷◌, ◌==◌,
  ==_iff, if◌then◌else◌, All, Bool-cases, arith,
}
use transactional_memory.Clock.{invalid_tick}
use transactional_memory.Grading.{
  TimeLimits, no_limits, maxtick_of, Evaluation, measured, inconsistent, threw, limits_of,
  exit_code, evaluate,
}

-- A timeout that is set is one: `Latch::wait` takes it for a duration.
pub maxtick_of-ne : (tick : ℕ) → maxtick_of tick ≢ invalid_tick
unfolding maxtick_of
maxtick_of-ne tick = ground arith

-- Within its timeouts, the library gives consistent results.
abbrev pub IsConsistent : Evaluation → Type 0
IsConsistent (measured i p k) = Unit
IsConsistent (inconsistent e) = ⊥
IsConsistent threw = ⊥

exit_code-zero :
    (v : Evaluation) (next : ℕ → ℕ → ℕ → ℕ) (P : Type 0)
    → ((i p k : ℕ) → (next i p k ≡ 0) ↔ P)
    → (exit_code v next ≡ 0) ↔ (IsConsistent v × P)
exit_code-zero (measured i p k) next P h = ((λ e. (tt, (h i p k).0 e)), λ x. (h i p k).1 x.1)
exit_code-zero (inconsistent e) next P h = ((λ z. absurd (omega arith)), λ x. absurd x.0)
exit_code-zero threw next P h = ((λ z. absurd (omega arith)), λ x. absurd x.0)

abbrev AllUnder : TimeLimits → List (TimeLimits → Evaluation) → Type 0
AllUnder limits = All λ library. IsConsistent (library limits)

evaluate_under :
    (libraries : List (TimeLimits → Evaluation)) (limits : TimeLimits)
    → (limits.maxtick_init == invalid_tick) ≡ false
    → (evaluate libraries limits ≡ 0) ↔ AllUnder limits libraries
unfolding evaluate
evaluate_under [] limits set = ((λ e. tt), λ x. refl)
evaluate_under (library ∷ libraries) limits set =
    exit_code-zero (library limits) _ (AllUnder limits libraries) λ i p k.
      subst
        (λ b.
          (evaluate libraries (if b then limits_of i p k else limits) ≡ 0)
          ↔ AllUnder limits libraries)
        (sym set) (evaluate_under libraries limits set)

-- Eight times a tick is never the one that stands for no timeout.
maxtick_of-eight : (tick : ℕ) → maxtick_of tick ≡ 8 * tick % 2 ^ 64
unfolding maxtick_of
maxtick_of-eight tick =
    let set : (8 * tick % 2 ^ 64 == invalid_tick) ≡ false =
      elim (Bool-cases (8 * tick % 2 ^ 64 == invalid_tick)) [
        | inl t ↦ absurd (omega (arith, (==_iff (8 * tick % 2 ^ 64) invalid_tick).0 t))
        | inr f ↦ f
      ] in
    ap (λ (b : Bool). if b then (8 * tick % 2 ^ 64 + 1) % 2 ^ 64 else 8 * tick % 2 ^ 64) set

-- The timeouts of eight times three ticks.
abbrev pub eightfold : (init perf chck : ℕ) → TimeLimits
eightfold init perf chck = record {
  maxtick_init = 8 * init % 2 ^ 64;
  maxtick_perf = 8 * perf % 2 ^ 64;
  maxtick_chck = 8 * chck % 2 ^ 64;
}

limits_of-eightfold : (i p k : ℕ) → limits_of i p k ≡ eightfold i p k
limits_of-eightfold i p k = rw (maxtick_of-eight i, maxtick_of-eight p, maxtick_of-eight k) refl

-- If the first library, the reference, gives consistent results: the grader exits with 0 exactly if
-- every further library gives consistent results within the timeouts of eight times the reference's
-- three times, each modulo 2 ^ 64, which later libraries do not change. No timeout is the value that
-- stands for none.
pub evaluate-limits :
    (reference : TimeLimits → Evaluation) (libraries : List (TimeLimits → Evaluation)) (i p k : ℕ)
    → reference no_limits ≡ measured i p k
    → ((evaluate (reference ∷ libraries) no_limits ≡ 0)
        ↔ All (λ library. IsConsistent (library (eightfold i p k))) libraries)
      × (8 * i % 2 ^ 64 ≢ invalid_tick)
      × (8 * p % 2 ^ 64 ≢ invalid_tick)
      × (8 * k % 2 ^ 64 ≢ invalid_tick)
unfolding evaluate
evaluate-limits reference libraries i p k e =
    let set : (maxtick_of i == invalid_tick) ≡ false =
      elim (Bool-cases (maxtick_of i == invalid_tick)) [
        | inl t ↦ absurd (maxtick_of-ne i ((==_iff (maxtick_of i) invalid_tick).0 t))
        | inr f ↦ f
      ] in
    let next : ℕ → ℕ → ℕ → ℕ = λ a b c. evaluate libraries (limits_of a b c) in
    (
      subst (λ v. (exit_code v next ≡ 0) ↔ AllUnder (eightfold i p k) libraries) (sym e)
          (subst (λ l. (next i p k ≡ 0) ↔ AllUnder l libraries) (limits_of-eightfold i p k)
            (evaluate_under libraries (limits_of i p k) set)),
      (λ z. omega (arith, z)),
      (λ z. omega (arith, z)),
      λ z. omega (arith, z),
    )
