-- ===== src/Sync/Operations.antt =====
-- One operation of a worker, whatever the status (grading/grading.cpp, class `Sync`).
use mathlib.Core.Path.{subst}
use transactional_memory.Base.{
  ℕ, ◌+◌, ◌%◌, ◌^◌, ◌<◌, ◌≡◌, sym, ap, Bool, true, false, Option, none, some, List, ◌∷◌, ◌++◌, ◌==◌,
  length, All-at, All-put, sum_by, sum_by-put, sum_by-at, arith,
}
use transactional_memory.Sync.{
  Status, wait, run, abort, done, fail, quit, Place, polling, joining, last_ready, setting_run,
  gathering, running, storing_error, aborting, reporting, last_done, loading_status, storing_status,
  stopping, raising, gone, after_poll, after_join, after_gather, after_run, after_report, is_abort,
  final_status, Master, between, starting, waiting, woken, joined, Result,
}
use transactional_memory.Sync.Phases.{
  tail, flag, Gathers, Runs, Rests, Quits, RunPhase, RestPhase, IsBusy, Handover, AllWell,
  SomeFailed, UnlessBetween, IsResult, Phase,
}
use transactional_memory.Sync.Gather.{
  polls_GatherPhase, joins_GatherPhase, resets_GatherPhase, sets_run_RunPhase,
}
use transactional_memory.Sync.Moves.{
  gathers_RunPhase, runs_RunPhase, stores_error_RunPhase, aborts_RunPhase, reports_RunPhase,
  resets_RunPhase, loads_RunPhase, stores_status_RestPhase,
}

stops_Handover :
    (m : Master) (raised : Bool) (xs ys : List Place)
    → Handover m raised (xs ++ stopping ∷ ys)
    → Handover m raised (xs ++ raising ∷ ys)
stops_Handover between raised xs ys h =
    (h.0, omega (arith, h.1, sum_by-put tail xs stopping raising ys))
stops_Handover starting raised xs ys h = omega (arith, h, sum_by-put tail xs stopping raising ys)
stops_Handover waiting raised xs ys h = omega (arith, h, sum_by-put tail xs stopping raising ys)
stops_Handover woken raised xs ys h =
    (h.0, omega (arith, h.1, sum_by-put tail xs stopping raising ys))
stops_Handover joined raised xs ys h = h

raises_Handover :
    (m : Master) (raised : Bool) (xs ys : List Place)
    → Handover m raised (xs ++ raising ∷ ys)
    → Handover m true (xs ++ polling ∷ ys)
raises_Handover between raised xs ys h = absurd (omega (arith, h.1, sum_by-at tail xs raising ys))
raises_Handover starting raised xs ys h =
    omega (arith, h, sum_by-put tail xs raising polling ys, sum_by-at tail xs raising ys)
raises_Handover waiting raised xs ys h =
    omega (arith, h, sum_by-put tail xs raising polling ys, sum_by-at tail xs raising ys)
raises_Handover woken raised xs ys h = absurd (omega (arith, h.1, sum_by-at tail xs raising ys))
raises_Handover joined raised xs ys h = h

begins_Handover :
    (m : Master) (raised : Bool) (ts : List Place)
    → IsBusy m
    → raised ≡ false
    → sum_by tail ts ≡ 1
    → Handover m raised ts
begins_Handover starting raised ts b r t = omega (arith, ap flag r, t)
begins_Handover waiting raised ts b r t = omega (arith, ap flag r, t)
begins_Handover between raised ts b r t = absurd b
begins_Handover woken raised ts b r t = absurd b
begins_Handover joined raised ts b r t = absurd b

UnlessBetween-any : (m : Master) (P : Type 0) → P → UnlessBetween m P
UnlessBetween-any between P p = tt
UnlessBetween-any starting P p = p
UnlessBetween-any waiting P p = p
UnlessBetween-any woken P p = p
UnlessBetween-any joined P p = p

module _ (xs ys : List Place) (c n : ℕ) (errmsg : Option ℕ) (raised : Bool) (m : Master)
    (reported : List (Option ℕ)) (result : Option Result) (some_workers : 0 < c)
    (no_overflow : c < 2 ^ 32) where
  abbrev At : Status → Place → Type 0
  At st p = Phase st c n errmsg raised m reported result (xs ++ p ∷ ys)

  pub polls_in : (st : Status) → At st polling → At st (after_poll st)
  polls_in wait h = (h.0, h.1, h.2, h.3, polls_GatherPhase xs ys c n some_workers no_overflow h.4)
  polls_in run h = h
  polls_in abort h = h
  polls_in done h = h
  polls_in fail h = h
  polls_in quit h = (h.0, All-put Quits xs polling ys gone h.1 tt, h.2)

  pub gathers_in : (st : Status) → At st gathering → At st (after_gather st)
  gathers_in wait h = h
  gathers_in run h = (h.0, h.1, h.2, gathers_RunPhase xs ys c n errmsg reported false h.3)
  gathers_in abort h = (h.0, h.1, h.2, gathers_RunPhase xs ys c n errmsg reported true h.3)
  gathers_in done h = absurd (All-at Rests xs gathering ys h.0.0)
  gathers_in fail h = absurd (All-at Rests xs gathering ys h.0.0)
  gathers_in quit h = absurd (All-at Quits xs gathering ys h.1)

  pub joins_in :
      (st : Status)
      → length (xs ++ joining ∷ ys) ≡ c
      → At st joining
      → Phase st c
          ((n + 1) % 2 ^ 32)
          errmsg
          raised
          m
          reported
          result
          (xs ++ after_join ((n + 1) % 2 ^ 32 == c) ∷ ys)
  joins_in wait len h =
      (h.0, h.1, h.2, h.3, joins_GatherPhase xs ys c n some_workers no_overflow len h.4)
  joins_in run len h = absurd (All-at (Runs false errmsg reported) xs joining ys h.3.0)
  joins_in abort len h = absurd (All-at (Runs true errmsg reported) xs joining ys h.3.0)
  joins_in done len h = absurd (All-at Rests xs joining ys h.0.0)
  joins_in fail len h = absurd (All-at Rests xs joining ys h.0.0)
  joins_in quit len h = absurd (All-at Quits xs joining ys h.1)

  pub resets_ready_in :
      (st : Status)
      → At st last_ready
      → Phase st c 0 errmsg raised m reported result (xs ++ setting_run ∷ ys)
  resets_ready_in wait h =
      (h.0, h.1, h.2, h.3, resets_GatherPhase xs ys c n some_workers no_overflow h.4)
  resets_ready_in run h = absurd (All-at (Runs false errmsg reported) xs last_ready ys h.3.0)
  resets_ready_in abort h = absurd (All-at (Runs true errmsg reported) xs last_ready ys h.3.0)
  resets_ready_in done h = absurd (All-at Rests xs last_ready ys h.0.0)
  resets_ready_in fail h = absurd (All-at Rests xs last_ready ys h.0.0)
  resets_ready_in quit h = absurd (All-at Quits xs last_ready ys h.1)

  pub sets_run_in :
      (st : Status) → length (xs ++ setting_run ∷ ys) ≡ c → At st setting_run → At run running
  sets_run_in wait len h = (
    h.0,
    h.1,
    h.2,
    subst (λ r. RunPhase false c n errmsg r (xs ++ running ∷ ys)) (sym h.3)
        (sets_run_RunPhase xs ys c n some_workers no_overflow errmsg len h.4),
  )
  sets_run_in run len h = absurd (All-at (Runs false errmsg reported) xs setting_run ys h.3.0)
  sets_run_in abort len h = absurd (All-at (Runs true errmsg reported) xs setting_run ys h.3.0)
  sets_run_in done len h = absurd (All-at Rests xs setting_run ys h.0.0)
  sets_run_in fail len h = absurd (All-at Rests xs setting_run ys h.0.0)
  sets_run_in quit len h = absurd (All-at Quits xs setting_run ys h.1)

  pub runs_in :
      (error : Option ℕ) (st : Status)
      → At st running
      → Phase st c n errmsg raised m (error ∷ reported) result (xs ++ after_run error ∷ ys)
  runs_in error run h = (h.0, h.1, h.2, runs_RunPhase xs ys c n errmsg reported false error h.3)
  runs_in error abort h = (h.0, h.1, h.2, runs_RunPhase xs ys c n errmsg reported true error h.3)
  runs_in error wait h = absurd (All-at Gathers xs running ys h.4.0)
  runs_in error done h = absurd (All-at Rests xs running ys h.0.0)
  runs_in error fail h = absurd (All-at Rests xs running ys h.0.0)
  runs_in error quit h = absurd (All-at Quits xs running ys h.1)

  pub stores_error_in :
      (e : ℕ) (st : Status)
      → At st (storing_error e)
      → Phase st c n (some e) raised m reported result (xs ++ aborting ∷ ys)
  stores_error_in e run h =
      (h.0, h.1, h.2, stores_error_RunPhase xs ys c n errmsg reported false e h.3)
  stores_error_in e abort h =
      (h.0, h.1, h.2, stores_error_RunPhase xs ys c n errmsg reported true e h.3)
  stores_error_in e wait h = absurd (All-at Gathers xs (storing_error e) ys h.4.0)
  stores_error_in e done h = absurd (All-at Rests xs (storing_error e) ys h.0.0)
  stores_error_in e fail h = absurd (All-at Rests xs (storing_error e) ys h.0.0)
  stores_error_in e quit h = absurd (All-at Quits xs (storing_error e) ys h.1)

  pub aborts_in :
      (st : Status) → length (xs ++ aborting ∷ ys) ≡ c → At st aborting → At abort reporting
  aborts_in run len h = (h.0, h.1, h.2, aborts_RunPhase xs ys c n errmsg reported false len h.3)
  aborts_in abort len h = (h.0, h.1, h.2, aborts_RunPhase xs ys c n errmsg reported true len h.3)
  aborts_in wait len h = absurd (All-at Gathers xs aborting ys h.4.0)
  aborts_in done len h = absurd (All-at Rests xs aborting ys h.0.0)
  aborts_in fail len h = absurd (All-at Rests xs aborting ys h.0.0)
  aborts_in quit len h = absurd (All-at Quits xs aborting ys h.1)

  pub reports_in :
      (st : Status)
      → length (xs ++ reporting ∷ ys) ≡ c
      → At st reporting
      → Phase st c
          ((n + 1) % 2 ^ 32)
          errmsg
          raised
          m
          reported
          result
          (xs ++ after_report ((n + 1) % 2 ^ 32 == c) ∷ ys)
  reports_in run len h =
      (h.0, h.1, h.2, reports_RunPhase xs ys c n errmsg reported false no_overflow len h.3)
  reports_in abort len h =
      (h.0, h.1, h.2, reports_RunPhase xs ys c n errmsg reported true no_overflow len h.3)
  reports_in wait len h = absurd (All-at Gathers xs reporting ys h.4.0)
  reports_in done len h = absurd (All-at Rests xs reporting ys h.0.0)
  reports_in fail len h = absurd (All-at Rests xs reporting ys h.0.0)
  reports_in quit len h = absurd (All-at Quits xs reporting ys h.1)

  pub resets_done_in :
      (st : Status)
      → At st last_done
      → Phase st c 0 errmsg raised m reported result (xs ++ loading_status ∷ ys)
  resets_done_in run h = (h.0, h.1, h.2, resets_RunPhase xs ys c n errmsg reported false h.3)
  resets_done_in abort h = (h.0, h.1, h.2, resets_RunPhase xs ys c n errmsg reported true h.3)
  resets_done_in wait h = absurd (All-at Gathers xs last_done ys h.4.0)
  resets_done_in done h = absurd (All-at Rests xs last_done ys h.0.0)
  resets_done_in fail h = absurd (All-at Rests xs last_done ys h.0.0)
  resets_done_in quit h = absurd (All-at Quits xs last_done ys h.1)

  pub loads_status_in : (st : Status) → At st loading_status → At st (storing_status (is_abort st))
  loads_status_in run h = (h.0, h.1, h.2, loads_RunPhase xs ys c n errmsg reported false h.3)
  loads_status_in abort h = (h.0, h.1, h.2, loads_RunPhase xs ys c n errmsg reported true h.3)
  loads_status_in wait h = absurd (All-at Gathers xs loading_status ys h.4.0)
  loads_status_in done h = absurd (All-at Rests xs loading_status ys h.0.0)
  loads_status_in fail h = absurd (All-at Rests xs loading_status ys h.0.0)
  loads_status_in quit h = absurd (All-at Quits xs loading_status ys h.1)

  no_result : result ≡ none → IsResult c reported result
  no_result e = subst (IsResult c reported) (sym e) tt

  pub stores_status_in :
      (b : Bool) (st : Status)
      → length (xs ++ storing_status b ∷ ys) ≡ c
      → At st (storing_status b)
      → At (final_status b) stopping
  stores_status_in b run len h =
      let (rest, t, all, errors, e) =
        stores_status_RestPhase xs ys c n errmsg reported false b len h.3 in
      subst (λ a. At (final_status a) stopping) (sym e)
        (
          rest,
          begins_Handover m raised (xs ++ stopping ∷ ys) h.0 h.1 t,
          UnlessBetween-any m (AllWell c reported) (all, errors),
          no_result h.2,
        )
  stores_status_in b abort len h =
      let (rest, t, all, errors, e) =
        stores_status_RestPhase xs ys c n errmsg reported true b len h.3 in
      subst (λ a. At (final_status a) stopping) (sym e)
        (
          rest,
          begins_Handover m raised (xs ++ stopping ∷ ys) h.0 h.1 t,
          UnlessBetween-any m (SomeFailed c errmsg reported) (all, errors),
          no_result h.2,
        )
  stores_status_in b wait len h = absurd (All-at Gathers xs (storing_status b) ys h.4.0)
  stores_status_in b done len h = absurd (All-at Rests xs (storing_status b) ys h.0.0)
  stores_status_in b fail len h = absurd (All-at Rests xs (storing_status b) ys h.0.0)
  stores_status_in b quit len h = absurd (All-at Quits xs (storing_status b) ys h.1)

  put-RestPhase : (p q : Place) → RestPhase n (xs ++ p ∷ ys) → Rests q → RestPhase n (xs ++ q ∷ ys)
  put-RestPhase p q h r = (All-put Rests xs p ys q h.0 r, h.1)

  pub stops_in : (st : Status) → At st stopping → At st raising
  stops_in done h =
      (put-RestPhase stopping raising h.0 tt, stops_Handover m raised xs ys h.1, h.2, h.3)
  stops_in fail h =
      (put-RestPhase stopping raising h.0 tt, stops_Handover m raised xs ys h.1, h.2, h.3)
  stops_in wait h = absurd (All-at Gathers xs stopping ys h.4.0)
  stops_in run h = absurd (All-at (Runs false errmsg reported) xs stopping ys h.3.0)
  stops_in abort h = absurd (All-at (Runs true errmsg reported) xs stopping ys h.3.0)
  stops_in quit h = absurd (All-at Quits xs stopping ys h.1)

  pub raises_in :
      (st : Status)
      → At st raising
      → Phase st c n errmsg true m reported result (xs ++ polling ∷ ys)
  raises_in done h =
      (put-RestPhase raising polling h.0 tt, raises_Handover m raised xs ys h.1, h.2, h.3)
  raises_in fail h =
      (put-RestPhase raising polling h.0 tt, raises_Handover m raised xs ys h.1, h.2, h.3)
  raises_in wait h = absurd (All-at Gathers xs raising ys h.4.0)
  raises_in run h = absurd (All-at (Runs false errmsg reported) xs raising ys h.3.0)
  raises_in abort h = absurd (All-at (Runs true errmsg reported) xs raising ys h.3.0)
  raises_in quit h = absurd (All-at Quits xs raising ys h.1)
