-- ===== src/Grading/Times.antt =====
-- The times that `measure` returns (grading/grading.cpp).
use transactional_memory.Base.{
  ℕ, zero, suc, ◌+◌, ◌/◌, ◌^◌, ◌≤◌, ◌<◌, ◌≡◌, refl, ◌∙◌, ap, Option, none, some, List, [], ◌∷◌,
  length, le→leb, All, arith,
}
use transactional_memory.Words.{add64, sub64}
use transactional_memory.Clock.{invalid_tick, convert, Chrono, start, delta, stop, get_tick}
use transactional_memory.Grading.{
  Round, after_round, timed, add_time, unless_failed, unless_error, measure_runs, insert_sorted,
  sort, get_elem?, median, Measured, with_error, measure_check, measure,
}

-- The time from the master's notice to the end of the last worker.
abbrev pub duration : Round → ℕ
duration r = sub64 (convert r.ends) (convert r.begins)

abbrev pub total_duration : List Round → ℕ
total_duration [] = 0
total_duration (r ∷ rs) = duration r + total_duration rs

-- The durations of the first `n` rounds.
abbrev pub duration_of_first : ℕ → List Round → ℕ
duration_of_first zero rs = 0
duration_of_first (suc n) [] = 0
duration_of_first (suc n) (r ∷ rs) = duration r + duration_of_first n rs

abbrev pub IsWell : Round → Type 0
IsWell r = r.error ≡ none

-- Running sums.
abbrev sums_from : ℕ → List Round → List ℕ
sums_from t [] = []
sums_from t (r ∷ rs) = (t + duration r) ∷ sums_from (t + duration r) rs

total-after_round : (r : Round) (c : Chrono) → (after_round r c).total ≡ add64 c.total (duration r)
unfolding after_round start stop delta
total-after_round r c = refl

total-no_overflow :
    (r : Round) (c : Chrono) (t : ℕ)
    → c.total ≡ t
    → t + duration r < 2 ^ 64
    → (after_round r c).total ≡ t + duration r
total-no_overflow r c t e h = total-after_round r c ∙ omega (arith, e, h)

measure_runs-timed :
    (rs : List Round) (c : Chrono) (t : ℕ)
    → c.total ≡ t
    → All IsWell rs
    → t + total_duration rs < 2 ^ 64
    → (c' : Chrono) × (measure_runs rs c ≡ timed (sums_from t rs) c')
      × (c'.total ≡ t + total_duration rs)
unfolding measure_runs
measure_runs-timed [] c t e well h = (c, refl, omega (arith, e))
measure_runs-timed (r ∷ rs) c t e well h =
    let a = total-no_overflow r c t e (omega (arith, h)) in
    let (c', m, z) =
      measure_runs-timed rs (after_round r c) (t + duration r) a well.1 (omega (arith, h)) in
    (
      c',
      ap
            (λ (o : Option ℕ).
              unless_failed o
                (add_time (get_tick (after_round r c)) (measure_runs rs (after_round r c))))
            well.0
          ∙ (ap (add_time (get_tick (after_round r c))) m
              ∙ ap (λ (x : ℕ). timed (x ∷ sums_from (t + duration r) rs) c') a),
      omega (arith, z),
    )

insert_sorted-sums_from :
    (x t : ℕ) (rs : List Round) → x ≤ t → insert_sorted x (sums_from t rs) ≡ x ∷ sums_from t rs
unfolding insert_sorted
insert_sorted-sums_from x t [] h = refl
insert_sorted-sums_from x t (r ∷ rs) h = rw (le→leb x (t + duration r) (omega (arith, h)))

sort-sums_from : (t : ℕ) (rs : List Round) → sort (sums_from t rs) ≡ sums_from t rs
unfolding sort
sort-sums_from t [] = refl
sort-sums_from t (r ∷ rs) =
    ap (insert_sorted (t + duration r)) (sort-sums_from (t + duration r) rs)
    ∙ insert_sorted-sums_from (t + duration r) (t + duration r) rs (omega arith)

length-sums_from : (t : ℕ) (rs : List Round) → length (sums_from t rs) ≡ length rs
length-sums_from t [] = refl
length-sums_from t (r ∷ rs) = omega (arith, length-sums_from (t + duration r) rs)

get_elem?-sums_from :
    (k t : ℕ) (rs : List Round)
    → k < length rs
    → get_elem? (sums_from t rs) k ≡ some (t + duration_of_first (suc k) rs)
get_elem?-sums_from k t [] h = absurd (omega arith)
get_elem?-sums_from zero t (r ∷ rs) h = ap some (omega arith)
get_elem?-sums_from (suc k) t (r ∷ rs) h =
    get_elem?-sums_from k (t + duration r) rs (omega (arith, h)) ∙ ap some (omega arith)

median-sums_from :
    (t : ℕ) (rs : List Round)
    → 0 < length rs
    → median (sums_from t rs) ≡ some (t + duration_of_first (suc (length rs / 2)) rs)
unfolding median
median-sums_from t rs h =
    rw (sort-sums_from t rs, length-sums_from t rs)
      (get_elem?-sums_from (length rs / 2) t rs (omega (arith, h)))

measured_eq :
    {i i' k k' : ℕ} {p p' : Option ℕ}
    → i ≡ i'
    → p ≡ p'
    → k ≡ k'
    → ◌≡◌ {A = Measured}
        (record { error = none; time_init = i; time_perf = p; time_chck = k })
        (record { error = none; time_init = i'; time_perf = p'; time_chck = k' })
measured_eq ei ep ek = rw (ei, ep, ek)

measure_steps :
    (initial checking : Round) (repeats : List Round) (c c' : Chrono) (times : List ℕ)
    → IsWell initial
    → IsWell checking
    → measure_runs repeats (after_round initial c) ≡ timed times c'
    → measure initial repeats checking c ≡ record {
      error = none;
      time_init = (after_round initial c).total;
      time_perf = median times;
      time_chck = (after_round checking c').total;
    }
unfolding measure
measure_steps initial checking repeats c c' times wi wc e =
    let t = get_tick (after_round initial c) in
    let done : Measured = record {
      error = none;
      time_init = t;
      time_perf = median times;
      time_chck = (after_round checking c').total;
    } in
    ap
      (λ (o : Option ℕ).
        unless_error o (λ x. with_error x invalid_tick none)
          (measure_check t checking (measure_runs repeats (after_round initial c))))
      wi
    ∙ (ap (measure_check t checking) e
        ∙ ap (λ (o : Option ℕ). unless_error o (λ x. with_error x t (median times)) done) wc)

-- Without errors, and where the durations of the rounds, each from the master's notice to the end of
-- the last worker, add up to less than 2 ^ 64: the first time is the initialisation's duration, the
-- time of the runs is the sum of that and of the first half of the runs with the middle one, and the
-- time of the check is the sum of all, since the runtime is never reset between the rounds.
pub measure-sums :
    (initial checking : Round) (repeats : List Round) (c : Chrono)
    → c.total ≡ 0
    → IsWell initial
    → IsWell checking
    → All IsWell repeats
    → 0 < length repeats
    → duration initial + total_duration repeats + duration checking < 2 ^ 64
    → measure initial repeats checking c ≡ record {
      error = none;
      time_init = duration initial;
      time_perf = some (duration initial + duration_of_first (suc (length repeats / 2)) repeats);
      time_chck = duration initial + total_duration repeats + duration checking;
    }
measure-sums initial checking repeats c zero_total wi wc wr some_repeats h =
    let i = total-no_overflow initial c 0 zero_total (omega (arith, h)) in
    let i' : (after_round initial c).total ≡ duration initial = i ∙ omega arith in
    let (c', m, z) =
      measure_runs-timed repeats (after_round initial c) (duration initial) i' wr
        (omega (arith, h)) in
    let k =
      total-no_overflow checking c' (duration initial + total_duration repeats) z
        (omega (arith, h)) in
    measure_steps initial checking repeats c c' (sums_from (duration initial) repeats) wi wc m
    ∙ measured_eq i' (median-sums_from (duration initial) repeats some_repeats) k
