-- ===== src/Sync.antt =====
-- The synchronisation of the grader's master with its workers (grading/grading.cpp, class `Sync`).
-- One step is one atomic operation, or one part of the latch under its lock. An `unsigned int` is 32
-- bits wide. An error message is a number.
use transactional_memory.Base.{
  ℕ, ◌+◌, ◌%◌, ◌^◌, ◌≡◌, Bool, true, false, Option, none, some, List, [], ◌∷◌, ◌++◌, ◌==◌,
  if◌then◌else◌,
}
use transactional_memory.Clock.{Reading, Chrono, start, stop}
pub mod Phases
pub mod Gather
pub mod Running
pub mod Moves
pub mod Operations
pub mod Works
pub mod Rounds
pub mod Tests

pub data Status : Type 0 where
  wait : Status
  run : Status
  abort : Status
  done : Status
  fail : Status
  quit : Status

pub record Sync : Type 0 where
  pub nbworkers : ℕ
  pub nbready : ℕ
  pub status : Status
  pub errmsg : Option ℕ
  pub runtime : Chrono
  pub raised : Bool

-- The constructor.
unfoldable pub new_sync : (nbworkers : ℕ) → Chrono → Sync
new_sync nbworkers runtime = record {
  nbworkers = nbworkers;
  nbready = 0;
  status = done;
  errmsg = none;
  runtime = runtime;
  raised = false;
}

-- `nbready.fetch_add(1)`, and whether the caller is the last.
unfoldable pub add_ready : Sync → Bool × Sync
add_ready s =
    ((s.nbready + 1) % 2 ^ 32 == s.nbworkers, record s { nbready = (s.nbready + 1) % 2 ^ 32 })

abbrev pub set_ready : ℕ → Sync → Sync
set_ready n s = record s { nbready = n }

abbrev pub set_status : Status → Sync → Sync
set_status t s = record s { status = t }

abbrev pub set_errmsg : Option ℕ → Sync → Sync
set_errmsg e s = record s { errmsg = e }

abbrev pub set_runtime : Chrono → Sync → Sync
set_runtime c s = record s { runtime = c }

abbrev pub set_raised : Bool → Sync → Sync
set_raised b s = record s { raised = b }

-- Where a worker is: at the first loop of `worker_wait`, before the `fetch_add`, in the part of the
-- last one and in that of the others; in its run; in the parts of `worker_notify`; or gone.
pub data Place : Type 0 where
  polling : Place
  joining : Place
  last_ready : Place
  setting_run : Place
  gathering : Place
  running : Place
  storing_error : ℕ → Place
  aborting : Place
  reporting : Place
  last_done : Place
  loading_status : Place
  storing_status : Bool → Place
  stopping : Place
  raising : Place
  gone : Place

-- The load of the first loop of `worker_wait`.
abbrev pub after_poll : Status → Place
after_poll wait = joining
after_poll quit = gone
after_poll run = polling
after_poll abort = polling
after_poll done = polling
after_poll fail = polling

abbrev pub after_join : Bool → Place
after_join true = last_ready
after_join false = gathering

-- The load of its second loop.
abbrev pub after_gather : Status → Place
after_gather run = running
after_gather abort = running
after_gather wait = gathering
after_gather done = gathering
after_gather fail = gathering
after_gather quit = gathering

-- The test of `error` in `worker_notify`.
abbrev pub after_run : Option ℕ → Place
after_run none = reporting
after_run (some e) = storing_error e

abbrev pub after_report : Bool → Place
after_report true = last_done
after_report false = polling

abbrev pub is_abort : Status → Bool
is_abort abort = true
is_abort wait = false
is_abort run = false
is_abort done = false
is_abort fail = false
is_abort quit = false

abbrev pub final_status : (aborted : Bool) → Status
final_status true = fail
final_status false = done

-- One operation of a worker, with the error that it passes to `worker_notify`, if it does.
pub data Work (s : Sync) (p : Place) (s' : Sync) (p' : Place) (report : List (Option ℕ))
    : Type 0 where
  polls : p ≡ polling → s' ≡ s → p' ≡ after_poll s.status → report ≡ [] → Work s p s' p' report
  joins :
      p ≡ joining
      → s' ≡ (add_ready s).1
      → p' ≡ after_join (add_ready s).0
      → report ≡ []
      → Work s p s' p' report
  resets_ready :
      p ≡ last_ready → s' ≡ set_ready 0 s → p' ≡ setting_run → report ≡ [] → Work s p s' p' report
  sets_run :
      p ≡ setting_run → s' ≡ set_status run s → p' ≡ running → report ≡ [] → Work s p s' p' report
  gathers :
      p ≡ gathering → s' ≡ s → p' ≡ after_gather s.status → report ≡ [] → Work s p s' p' report
  runs :
      (error : Option ℕ)
      → p ≡ running
      → s' ≡ s
      → p' ≡ after_run error
      → report ≡ error ∷ []
      → Work s p s' p' report
  stores_error :
      (e : ℕ)
      → p ≡ storing_error e
      → s' ≡ set_errmsg (some e) s
      → p' ≡ aborting
      → report ≡ []
      → Work s p s' p' report
  aborts :
      p ≡ aborting → s' ≡ set_status abort s → p' ≡ reporting → report ≡ [] → Work s p s' p' report
  reports :
      p ≡ reporting
      → s' ≡ (add_ready s).1
      → p' ≡ after_report (add_ready s).0
      → report ≡ []
      → Work s p s' p' report
  resets_done :
      p ≡ last_done → s' ≡ set_ready 0 s → p' ≡ loading_status → report ≡ [] → Work s p s' p' report
  loads_status :
      p ≡ loading_status
      → s' ≡ s
      → p' ≡ storing_status (is_abort s.status)
      → report ≡ []
      → Work s p s' p' report
  stores_status :
      (aborted : Bool)
      → p ≡ storing_status aborted
      → s' ≡ set_status (final_status aborted) s
      → p' ≡ stopping
      → report ≡ []
      → Work s p s' p' report
  stops :
      (now : Reading)
      → p ≡ stopping
      → s' ≡ set_runtime (stop now s.runtime) s
      → p' ≡ raising
      → report ≡ []
      → Work s p s' p' report
  raises : p ≡ raising → s' ≡ set_raised true s → p' ≡ polling → report ≡ [] → Work s p s' p' report

-- Where the master is: between its calls, in `master_notify` behind the store, in `master_wait`
-- before and behind the latch, or past `master_join`.
pub data Master : Type 0 where
  between : Master
  starting : Master
  waiting : Master
  woken : Master
  joined : Master

-- What `master_wait` gives.
pub data Result : Type 0 where
  success : Chrono → Result
  failure : Option ℕ → Result
  unreachable : Result

abbrev pub result_in : Status → Chrono → Option ℕ → Result
result_in done runtime errmsg = success runtime
result_in fail runtime errmsg = failure errmsg
result_in wait runtime errmsg = unreachable
result_in run runtime errmsg = unreachable
result_in abort runtime errmsg = unreachable
result_in quit runtime errmsg = unreachable

abbrev pub result_of : Sync → Result
result_of s = result_in s.status s.runtime s.errmsg

-- The whole, with what the workers have passed to `worker_notify` since the last `master_notify`,
-- and what `master_wait` has given since then.
pub record System : Type 0 where
  pub sync : Sync
  pub master : Master
  pub workers : List Place
  pub reported : List (Option ℕ)
  pub result : Option Result

pub data Step (s s' : System) : Type 0 where
  works :
      (xs ys : List Place) (p p' : Place) (sync' : Sync) (report : List (Option ℕ))
      → s.workers ≡ xs ++ p ∷ ys
      → Work s.sync p sync' p' report
      → s' ≡ record s { sync = sync'; workers = xs ++ p' ∷ ys; reported = report ++ s.reported }
      → Step s s'
  notifies :
      s.master ≡ between
      → s' ≡ record s {
        sync = set_status wait s.sync;
        master = starting;
        reported = [];
        result = none;
      }
      → Step s s'
  starts :
      (now : Reading)
      → s.master ≡ starting
      → s' ≡ record s { sync = set_runtime (start now s.sync.runtime) s.sync; master = waiting }
      → Step s s'
  wakes :
      s.master ≡ waiting
      → s.sync.raised ≡ true
      → s' ≡ record s { sync = set_raised false s.sync; master = woken }
      → Step s s'
  loads :
      s.master ≡ woken
      → s' ≡ record s { master = between; result = some (result_of s.sync) }
      → Step s s'
  quits :
      s.master ≡ between
      → s' ≡ record s { sync = set_status quit s.sync; master = joined }
      → Step s s'

pub data Steps (s : System) : System → Type 0 where
  none_yet : Steps s s
  then_step : {m e : System} → Steps s m → Step m e → Steps s e
