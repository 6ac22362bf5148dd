-- ===== src/Sync/Phases.antt =====
-- What the status says of the workers and the master (grading/grading.cpp, class `Sync`).
use transactional_memory.Base.{
  ℕ, ◌+◌, ◌≡◌, Bool, true, false, Option, none, some, List, [], ◌==◌, if◌then◌else◌, length, All,
  In, sum_by,
}
use transactional_memory.Sync.{
  Status, wait, run, abort, done, fail, quit, Place, polling, joining, last_ready, setting_run,
  gathering, running, storing_error, aborting, reporting, last_done, loading_status, storing_status,
  stopping, raising, gone, Master, between, starting, waiting, woken, joined, Result, success,
  failure, unreachable,
}

-- Workers counted by `nbready` before the run, the last of them, and it past its reset.
abbrev pub ready : Place → ℕ
ready gathering = 1
ready last_ready = 1
ready setting_run = 1
ready _ = 0

abbrev pub opener : Place → ℕ
opener last_ready = 1
opener setting_run = 1
opener _ = 0

abbrev pub opened : Place → ℕ
opened setting_run = 1
opened _ = 0

-- The same behind the run.
abbrev pub finished : Place → ℕ
finished polling = 1
finished last_done = 1
finished loading_status = 1
finished (storing_status b) = 1
finished _ = 0

abbrev pub closer : Place → ℕ
closer last_done = 1
closer loading_status = 1
closer (storing_status b) = 1
closer _ = 0

abbrev pub closed : Place → ℕ
closed loading_status = 1
closed (storing_status b) = 1
closed _ = 0

-- Workers that have not called `worker_notify` yet, and those whose error does not show in the
-- status yet.
abbrev pub unreported : Place → ℕ
unreported gathering = 1
unreported running = 1
unreported _ = 0

abbrev pub pending : Place → ℕ
pending (storing_error e) = 1
pending aborting = 1
pending _ = 0

-- The last worker, when the status is final and the latch not raised yet.
abbrev pub tail : Place → ℕ
tail stopping = 1
tail raising = 1
tail _ = 0

abbrev pub flag : Bool → ℕ
flag true = 1
flag false = 0

abbrev pub some_error : Option ℕ → ℕ
some_error none = 0
some_error (some e) = 1

-- An error message that a worker has reported.
abbrev pub IsReported : Option ℕ → List (Option ℕ) → Type 0
IsReported none reported = ⊥
IsReported (some e) reported = In (some e) reported

abbrev pub Gathers : Place → Type 0
Gathers polling = Unit
Gathers joining = Unit
Gathers last_ready = Unit
Gathers setting_run = Unit
Gathers gathering = Unit
Gathers _ = ⊥

abbrev pub Runs : (aborted : Bool) → Option ℕ → List (Option ℕ) → Place → Type 0
Runs aborted errmsg reported polling = Unit
Runs aborted errmsg reported gathering = Unit
Runs aborted errmsg reported running = Unit
Runs aborted errmsg reported reporting = Unit
Runs aborted errmsg reported last_done = Unit
Runs aborted errmsg reported loading_status = Unit
Runs aborted errmsg reported (storing_error e) = In (some e) reported
Runs aborted errmsg reported aborting = IsReported errmsg reported
Runs aborted errmsg reported (storing_status b) = b ≡ aborted
Runs aborted errmsg reported _ = ⊥

abbrev pub Rests : Place → Type 0
Rests polling = Unit
Rests stopping = Unit
Rests raising = Unit
Rests _ = ⊥

abbrev pub Quits : Place → Type 0
Quits polling = Unit
Quits gone = Unit
Quits _ = ⊥

abbrev pub GatherPhase : (c n : ℕ) → List Place → Type 0
GatherPhase c n ts =
    All Gathers ts
    × (sum_by opener ts ≡ (if sum_by ready ts == c then 1 else 0))
    × (n ≡ (if sum_by opened ts == 0 then sum_by ready ts else 0))

-- Until a worker has aborted, the errors reported are those that do not show yet.
abbrev pub ErrorsOf : (aborted : Bool) → Option ℕ → List (Option ℕ) → List Place → Type 0
ErrorsOf false errmsg reported ts = sum_by some_error reported ≡ sum_by pending ts
ErrorsOf true errmsg reported ts = IsReported errmsg reported

abbrev pub RunPhase :
    (aborted : Bool) → (c n : ℕ) → Option ℕ → List (Option ℕ) → List Place → Type 0
RunPhase aborted c n errmsg reported ts =
    All (Runs aborted errmsg reported) ts
    × (sum_by closer ts ≡ (if sum_by finished ts == c then 1 else 0))
    × (n ≡ (if sum_by closed ts == 0 then sum_by finished ts else 0))
    × (length reported + sum_by unreported ts ≡ c)
    × ErrorsOf aborted errmsg reported ts

abbrev pub RestPhase : (n : ℕ) → List Place → Type 0
RestPhase n ts = All Rests ts × (n ≡ 0)

abbrev pub IsBusy : Master → Type 0
IsBusy starting = Unit
IsBusy waiting = Unit
IsBusy _ = ⊥

-- The latch between the last worker and the master.
abbrev pub Handover : Master → (raised : Bool) → List Place → Type 0
Handover between raised ts = (raised ≡ false) × (sum_by tail ts ≡ 0)
Handover starting raised ts = flag raised + sum_by tail ts ≡ 1
Handover waiting raised ts = flag raised + sum_by tail ts ≡ 1
Handover woken raised ts = (raised ≡ false) × (sum_by tail ts ≡ 0)
Handover joined raised ts = ⊥

-- All have reported, with no error or with one.
abbrev pub AllWell : (c : ℕ) → List (Option ℕ) → Type 0
AllWell c reported = (length reported ≡ c) × (sum_by some_error reported ≡ 0)

abbrev pub SomeFailed : (c : ℕ) → Option ℕ → List (Option ℕ) → Type 0
SomeFailed c errmsg reported = (length reported ≡ c) × IsReported errmsg reported

-- Once the master is through, what it has seen stands in the result.
abbrev pub UnlessBetween : Master → Type 0 → Type 0
UnlessBetween between P = Unit
UnlessBetween _ P = P

-- What `master_wait` may give.
abbrev pub IsResult : (c : ℕ) → List (Option ℕ) → Option Result → Type 0
IsResult c reported none = Unit
IsResult c reported (some (success runtime)) = AllWell c reported
IsResult c reported (some (failure errmsg)) = SomeFailed c errmsg reported
IsResult c reported (some unreachable) = ⊥

abbrev pub Phase :
    Status
    → (c n : ℕ) → (errmsg : Option ℕ) → (raised : Bool) → Master
    → List (Option ℕ)
    → Option Result
    → List Place
    → Type 0
Phase wait c n errmsg raised m reported result ts =
    IsBusy m × (raised ≡ false) × (result ≡ none) × (reported ≡ []) × GatherPhase c n ts
Phase run c n errmsg raised m reported result ts =
    IsBusy m × (raised ≡ false) × (result ≡ none) × RunPhase false c n errmsg reported ts
Phase abort c n errmsg raised m reported result ts =
    IsBusy m × (raised ≡ false) × (result ≡ none) × RunPhase true c n errmsg reported ts
Phase done c n errmsg raised m reported result ts =
    RestPhase n ts
    × Handover m raised ts
    × UnlessBetween m (AllWell c reported)
    × IsResult c reported result
Phase fail c n errmsg raised m reported result ts =
    RestPhase n ts
    × Handover m raised ts
    × UnlessBetween m (SomeFailed c errmsg reported)
    × IsResult c reported result
Phase quit c n errmsg raised m reported result ts =
    (m ≡ joined) × All Quits ts × IsResult c reported result
