-- ===== src/Sync/Running.antt =====
-- The workers in and behind a run: `Sync::worker_notify` (grading/grading.cpp).
use transactional_memory.Base.{
  ℕ, ◌≤◌, ◌≡◌, refl, inr, Bool, true, false, Option, none, some, List, [], ◌∷◌, length, All, In,
  sum_by, arith,
}
use transactional_memory.Sync.{
  Place, polling, joining, last_ready, setting_run, gathering, running, storing_error, aborting,
  reporting, last_done, loading_status, storing_status, stopping, raising, gone,
}
use transactional_memory.Sync.Phases.{
  finished, closer, closed, unreported, pending, tail, IsReported, Runs, Rests,
}

pub finished-le :
    (ts : List Place) → (sum_by finished ts ≤ length ts) × (sum_by closed ts ≤ sum_by closer ts)
finished-le [] = (omega arith, omega arith)
finished-le (t ∷ ts) = grind (arith, finished-le ts)

-- A further report, a new message, and the status `Abort` keep what is known of the workers.
pub IsReported-cons :
    (x errmsg : Option ℕ) (reported : List (Option ℕ))
    → IsReported errmsg reported
    → IsReported errmsg (x ∷ reported)
IsReported-cons x none reported h = h
IsReported-cons x (some e) reported h = inr h

pub Runs-cons :
    (aborted : Bool) (x errmsg : Option ℕ) (reported : List (Option ℕ)) (p : Place)
    → Runs aborted errmsg reported p
    → Runs aborted errmsg (x ∷ reported) p
Runs-cons aborted x errmsg reported (storing_error e) h = inr h
Runs-cons aborted x errmsg reported aborting h = IsReported-cons x errmsg reported h
Runs-cons aborted x errmsg reported (storing_status b) h = h
Runs-cons aborted x errmsg reported polling h = tt
Runs-cons aborted x errmsg reported gathering h = tt
Runs-cons aborted x errmsg reported running h = tt
Runs-cons aborted x errmsg reported reporting h = tt
Runs-cons aborted x errmsg reported last_done h = tt
Runs-cons aborted x errmsg reported loading_status h = tt
Runs-cons aborted x errmsg reported joining h = h
Runs-cons aborted x errmsg reported last_ready h = h
Runs-cons aborted x errmsg reported setting_run h = h
Runs-cons aborted x errmsg reported stopping h = h
Runs-cons aborted x errmsg reported raising h = h
Runs-cons aborted x errmsg reported gone h = h

pub Runs-message :
    (aborted : Bool) (errmsg : Option ℕ) (e : ℕ) (reported : List (Option ℕ))
    → In (some e) reported
    → (p : Place) → Runs aborted errmsg reported p
    → Runs aborted (some e) reported p
Runs-message aborted errmsg e reported i aborting h = i
Runs-message aborted errmsg e reported i (storing_error e') h = h
Runs-message aborted errmsg e reported i (storing_status b) h = h
Runs-message aborted errmsg e reported i polling h = tt
Runs-message aborted errmsg e reported i gathering h = tt
Runs-message aborted errmsg e reported i running h = tt
Runs-message aborted errmsg e reported i reporting h = tt
Runs-message aborted errmsg e reported i last_done h = tt
Runs-message aborted errmsg e reported i loading_status h = tt
Runs-message aborted errmsg e reported i joining h = h
Runs-message aborted errmsg e reported i last_ready h = h
Runs-message aborted errmsg e reported i setting_run h = h
Runs-message aborted errmsg e reported i stopping h = h
Runs-message aborted errmsg e reported i raising h = h
Runs-message aborted errmsg e reported i gone h = h

pub Runs-abort :
    (errmsg : Option ℕ) (reported : List (Option ℕ)) (ts : List Place)
    → All (Runs false errmsg reported) ts
    → sum_by closer ts ≡ 0
    → All (Runs true errmsg reported) ts
Runs-abort errmsg reported [] h z = tt
Runs-abort errmsg reported (t ∷ ts) h z = grind (arith, Runs-abort errmsg reported ts)

-- When all have finished and none is the last, all wait for the next run.
pub to_resting :
    (aborted : Bool) (errmsg : Option ℕ) (reported : List (Option ℕ)) (ts : List Place)
    → All (Runs aborted errmsg reported) ts
    → sum_by finished ts ≡ length ts
    → sum_by closer ts ≡ 0
    → All Rests ts × (sum_by tail ts ≡ 0) × (sum_by unreported ts ≡ 0) × (sum_by pending ts ≡ 0)
to_resting aborted errmsg reported [] h f z = (tt, refl, refl, refl)
to_resting aborted errmsg reported (t ∷ ts) h f z =
    grind (arith, to_resting aborted errmsg reported ts, finished-le ts)
