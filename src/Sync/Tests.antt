-- ===== src/Sync/Tests.antt =====
-- One worker that reports an error (grading/grading.cpp, class `Sync`).
use transactional_memory.Base.{ℕ, refl, Bool, true, false, Option, none, some, List, [], ◌∷◌, arith}
use transactional_memory.Clock.{Chrono, start, stop}
use transactional_memory.Sync.{
  Status, wait, run, abort, fail, new_sync, add_ready, Place, polling, joining, last_ready,
  setting_run, running, storing_error, aborting, reporting, last_done, loading_status,
  storing_status, stopping, raising, polls, joins, resets_ready, sets_run, runs, stores_error,
  aborts, reports, resets_done, loads_status, stores_status, stops, raises, Master, between,
  starting, waiting, woken, Result, failure, System, works, notifies, starts, wakes, loads, Steps,
  none_yet, then_step,
}
use transactional_memory.Sync.Phases.{IsResult}
use transactional_memory.Sync.Rounds.{begin, Steps-IsResult}

abbrev r0 : Chrono
r0 = record { total = 0; local = 0 }

abbrev r1 : Chrono
r1 = start (some (5, 0)) r0

abbrev r2 : Chrono
r2 = stop (some (6, 0)) r1

abbrev state :
    (nbready : ℕ)
    → Status
    → Option ℕ
    → (raised : Bool) → Master
    → Place
    → List (Option ℕ)
    → Option Result
    → Chrono
    → System
state nbready status errmsg raised master place reported result runtime = record {
  sync = record {
    nbworkers = 1;
    nbready = nbready;
    status = status;
    errmsg = errmsg;
    runtime = runtime;
    raised = raised;
  };
  master = master;
  workers = place ∷ [];
  reported = reported;
  result = result;
}

abbrev s1 : System
s1 = state 0 wait none false starting polling [] none r0

abbrev s2 : System
s2 = state 0 wait none false waiting polling [] none r1

abbrev s3 : System
s3 = state 0 wait none false waiting joining [] none r1

abbrev s4 : System
s4 = state 1 wait none false waiting last_ready [] none r1

abbrev s5 : System
s5 = state 0 wait none false waiting setting_run [] none r1

abbrev s6 : System
s6 = state 0 run none false waiting running [] none r1

abbrev s7 : System
s7 = state 0 run none false waiting (storing_error 7) (some 7 ∷ []) none r1

abbrev s8 : System
s8 = state 0 run (some 7) false waiting aborting (some 7 ∷ []) none r1

abbrev s9 : System
s9 = state 0 abort (some 7) false waiting reporting (some 7 ∷ []) none r1

abbrev s10 : System
s10 = state 1 abort (some 7) false waiting last_done (some 7 ∷ []) none r1

abbrev s11 : System
s11 = state 0 abort (some 7) false waiting loading_status (some 7 ∷ []) none r1

abbrev s12 : System
s12 = state 0 abort (some 7) false waiting (storing_status true) (some 7 ∷ []) none r1

abbrev s13 : System
s13 = state 0 fail (some 7) false waiting stopping (some 7 ∷ []) none r1

abbrev s14 : System
s14 = state 0 fail (some 7) false waiting raising (some 7 ∷ []) none r2

abbrev s15 : System
s15 = state 0 fail (some 7) true waiting polling (some 7 ∷ []) none r2

abbrev s16 : System
s16 = state 0 fail (some 7) false woken polling (some 7 ∷ []) none r2

abbrev s17 : System
s17 = state 0 fail (some 7) false between polling (some 7 ∷ []) (some (failure (some 7))) r2

to_s1 : Steps (begin 1 r0) s1
unfolding new_sync add_ready
to_s1 = then_step {m = begin 1 r0} none_yet (notifies refl refl)

to_s2 : Steps (begin 1 r0) s2
to_s2 = then_step {m = s1} to_s1 (starts (some (5, 0)) refl refl)

to_s3 : Steps (begin 1 r0) s3
to_s3 =
    then_step {m = s2} to_s2
      (works [] [] polling joining (s3.sync) [] refl (polls refl refl refl refl) refl)

to_s4 : Steps (begin 1 r0) s4
unfolding new_sync add_ready
to_s4 =
    then_step {m = s3} to_s3
      (works [] [] joining last_ready (s4.sync) [] refl (joins refl refl refl refl) refl)

to_s5 : Steps (begin 1 r0) s5
to_s5 =
    then_step {m = s4} to_s4
      (works [] [] last_ready setting_run (s5.sync) [] refl (resets_ready refl refl refl refl) refl)

to_s6 : Steps (begin 1 r0) s6
to_s6 =
    then_step {m = s5} to_s5
      (works [] [] setting_run running (s6.sync) [] refl (sets_run refl refl refl refl) refl)

to_s7 : Steps (begin 1 r0) s7
to_s7 = then_step {m = s6} to_s6 (
    works [] [] running (storing_error 7) (s7.sync) (some 7 ∷ []) refl
      (runs (some 7) refl refl refl refl) refl)

to_s8 : Steps (begin 1 r0) s8
to_s8 = then_step {m = s7} to_s7 (
    works [] [] (storing_error 7) aborting (s8.sync) [] refl (stores_error 7 refl refl refl refl)
      refl)

to_s9 : Steps (begin 1 r0) s9
to_s9 =
    then_step {m = s8} to_s8
      (works [] [] aborting reporting (s9.sync) [] refl (aborts refl refl refl refl) refl)

to_s10 : Steps (begin 1 r0) s10
unfolding new_sync add_ready
to_s10 =
    then_step {m = s9} to_s9
      (works [] [] reporting last_done (s10.sync) [] refl (reports refl refl refl refl) refl)

to_s11 : Steps (begin 1 r0) s11
to_s11 =
    then_step {m = s10} to_s10 (
      works [] [] last_done loading_status (s11.sync) [] refl (resets_done refl refl refl refl)
        refl)

to_s12 : Steps (begin 1 r0) s12
to_s12 = then_step {m = s11} to_s11 (
    works [] [] loading_status (storing_status true) (s12.sync) [] refl
      (loads_status refl refl refl refl) refl)

to_s13 : Steps (begin 1 r0) s13
to_s13 = then_step {m = s12} to_s12 (
    works [] [] (storing_status true) stopping (s13.sync) [] refl
      (stores_status true refl refl refl refl) refl)

to_s14 : Steps (begin 1 r0) s14
to_s14 =
    then_step {m = s13} to_s13 (
      works [] [] stopping raising (s14.sync) [] refl (stops (some (6, 0)) refl refl refl refl)
        refl)

to_s15 : Steps (begin 1 r0) s15
to_s15 =
    then_step {m = s14} to_s14
      (works [] [] raising polling (s15.sync) [] refl (raises refl refl refl refl) refl)

to_s16 : Steps (begin 1 r0) s16
to_s16 = then_step {m = s15} to_s15 (wakes refl refl refl)

to_s17 : Steps (begin 1 r0) s17
to_s17 = then_step {m = s16} to_s16 (loads refl refl)

Steps-IsResult_example : IsResult 1 (some 7 ∷ []) (some (failure (some 7)))
Steps-IsResult_example = Steps-IsResult 1 r0 (omega arith) (omega arith) s17 to_s17
