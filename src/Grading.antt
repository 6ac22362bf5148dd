-- ===== src/Grading.antt =====
-- The grader's measurements (grading/grading.cpp: `measure` and `main`). What the clock gives, and
-- how a round ends, are arguments.
use transactional_memory.Base.{
  ℕ, zero, suc, ◌+◌, ◌*◌, ◌/◌, ◌%◌, ◌^◌, Bool, true, false, Option, none, some, List, [], ◌∷◌, ◌++◌,
  length, leb, ◌==◌, if◌then◌else◌,
}
use transactional_memory.Words.{add64}
use transactional_memory.Clock.{invalid_tick, Reading, Chrono, start, stop, get_tick}
pub mod Times
pub mod Limits
pub mod Tests

-- What a worker runs between `worker_wait` and `worker_notify`.
pub data Job : Type 0 where
  init : Job
  run : (seed : ℕ) → Job
  check : Job

-- `seed + nbthreads * count + i`; the product is an `unsigned int`.
unfoldable pub seed_of : (seed nbthreads i count : ℕ) → ℕ
seed_of seed nbthreads i count = add64 (add64 seed (nbthreads * count % 2 ^ 32)) i

-- The rounds from `count` on.
unfoldable pub runs_from : (seed nbthreads i : ℕ) → (left count : ℕ) → List Job
unfolding seed_of
runs_from seed nbthreads i zero count = []
runs_from seed nbthreads i (suc left) count =
    run (seed_of seed nbthreads i count) ∷ runs_from seed nbthreads i left (count + 1)

unfoldable pub worker_jobs : (seed nbthreads nbrepeats i : ℕ) → List Job
unfolding runs_from
worker_jobs seed nbthreads nbrepeats i =
    init ∷ (runs_from seed nbthreads i nbrepeats 0 ++ check ∷ [])

-- One round of the master: the clock at `master_notify` and at the end of the last worker, and what
-- `master_wait` gives, an error or none.
pub record Round : Type 0 where
  pub begins : Reading
  pub ends : Reading
  pub error : Option ℕ

-- The runtime behind a round.
unfoldable pub after_round : Round → Chrono → Chrono
after_round r c = stop r.ends (start r.begins c)

-- The measured rounds: an error, or their times and the runtime.
pub data Measurement : Type 0 where
  failed : ℕ → Measurement
  timed : List ℕ → Chrono → Measurement

abbrev pub add_time : ℕ → Measurement → Measurement
add_time t (failed e) = failed e
add_time t (timed ts c) = timed (t ∷ ts) c

-- `goto join` on an error.
abbrev pub unless_failed : Option ℕ → Measurement → Measurement
unless_failed none rest = rest
unless_failed (some e) rest = failed e

unfoldable pub measure_runs : List Round → Chrono → Measurement
measure_runs [] c = timed [] c
measure_runs (r ∷ rs) c =
    unless_failed r.error
      (add_time (get_tick (after_round r c)) (measure_runs rs (after_round r c)))

-- `std::nth_element` leaves at a position what sorting would.
unfoldable pub insert_sorted : ℕ → List ℕ → List ℕ
insert_sorted x [] = x ∷ []
insert_sorted x (y ∷ ys) = if leb x y then x ∷ y ∷ ys else y ∷ insert_sorted x ys

unfoldable pub sort : List ℕ → List ℕ
unfolding insert_sorted
sort [] = []
sort (x ∷ xs) = insert_sorted x (sort xs)

abbrev pub get_elem? : List ℕ → ℕ → Option ℕ
get_elem? [] i = none
get_elem? (x ∷ xs) zero = some x
get_elem? (x ∷ xs) (suc i) = get_elem? xs i

unfoldable pub median : List ℕ → Option ℕ
unfolding sort
median times = get_elem? (sort times) (length times / 2)

-- What `measure` returns. `times[posmedian]` is not set, `none`, unless the runs are measured.
pub record Measured : Type 0 where
  pub error : Option ℕ
  pub time_init : ℕ
  pub time_perf : Option ℕ
  pub time_chck : ℕ

abbrev pub with_error : ℕ → (time_init : ℕ) → Option ℕ → Measured
with_error e time_init time_perf = record {
  error = some e;
  time_init = time_init;
  time_perf = time_perf;
  time_chck = invalid_tick;
}

abbrev pub unless_error : Option ℕ → (ℕ → Measured) → Measured → Measured
unless_error none stopped rest = rest
unless_error (some e) stopped rest = stopped e

-- Behind the measured rounds.
abbrev pub measure_check : (time_init : ℕ) → (checking : Round) → Measurement → Measured
measure_check time_init checking (failed e) = with_error e time_init none
measure_check time_init checking (timed times c) =
    unless_error checking.error (λ e. with_error e time_init (median times))
      (record {
        error = none;
        time_init = time_init;
        time_perf = median times;
        time_chck = get_tick (after_round checking c);
      })

unfoldable pub measure :
    (initial : Round) → (repeats : List Round) → (checking : Round) → Chrono → Measured
unfolding after_round measure_runs median
measure initial repeats checking c =
    unless_error initial.error (λ e. with_error e invalid_tick none)
      (measure_check (get_tick (after_round initial c)) checking
        (measure_runs repeats (after_round initial c)))

-- The parameters of `main`.
abbrev pub nbworkers_of : (hardware_concurrency : ℕ) → ℕ
nbworkers_of n = if n == 0 then 16 else n

abbrev pub nbtxperwrk_of : (nbworkers : ℕ) → ℕ
nbtxperwrk_of nbworkers = 200000 / nbworkers

abbrev pub nbaccounts_of : (nbworkers : ℕ) → ℕ
nbaccounts_of nbworkers = 32 * nbworkers

abbrev pub expnbaccounts_of : (nbworkers : ℕ) → ℕ
expnbaccounts_of nbworkers = 256 * nbworkers

abbrev pub slow_factor : ℕ
slow_factor = 8

-- The timeouts of a library's rounds.
pub record TimeLimits : Type 0 where
  pub maxtick_init : ℕ
  pub maxtick_perf : ℕ
  pub maxtick_chck : ℕ

abbrev pub no_limits : TimeLimits
no_limits = record {
  maxtick_init = invalid_tick;
  maxtick_perf = invalid_tick;
  maxtick_chck = invalid_tick;
}

unfoldable pub maxtick_of : (tick : ℕ) → ℕ
maxtick_of tick =
    let t = slow_factor * tick % 2 ^ 64 in if t == invalid_tick then (t + 1) % 2 ^ 64 else t

-- The evaluation of a library: three times, an error, or an exception, such as an overrun.
pub data Evaluation : Type 0 where
  measured : (tick_init tick_perf tick_chck : ℕ) → Evaluation
  inconsistent : (error : ℕ) → Evaluation
  threw : Evaluation

abbrev pub limits_of : (tick_init tick_perf tick_chck : ℕ) → TimeLimits
limits_of tick_init tick_perf tick_chck = record {
  maxtick_init = maxtick_of tick_init;
  maxtick_perf = maxtick_of tick_perf;
  maxtick_chck = maxtick_of tick_chck;
}

-- How `main` goes on behind an evaluation.
abbrev pub exit_code : Evaluation → (next : ℕ → ℕ → ℕ → ℕ) → ℕ
exit_code threw next = 2
exit_code (inconsistent e) next = 1
exit_code (measured i p k) next = next i p k

-- The loop of `main` over the libraries, each a function of its timeouts: the exit code.
unfoldable pub evaluate : List (TimeLimits → Evaluation) → TimeLimits → ℕ
unfolding maxtick_of
evaluate [] limits = 0
evaluate (library ∷ libraries) limits = exit_code (library limits) λ i p k.
    evaluate libraries (if limits.maxtick_init == invalid_tick then limits_of i p k else limits)

-- `main`, behind its usage message: `none` is too few arguments.
unfoldable pub main : Option (List (TimeLimits → Evaluation)) → ℕ
unfolding evaluate
main none = 1
main (some libraries) = evaluate libraries no_limits
