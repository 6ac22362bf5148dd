-- ===== src/Sync/Works.antt =====
-- One operation of a worker keeps the invariant (grading/grading.cpp, class `Sync`).
use mathlib.Core.Path.{subst}
use transactional_memory.Base.{
  ℕ, ◌^◌, ◌<◌, ◌≡◌, sym, ◌∙◌, Option, List, [], ◌∷◌, ◌++◌, length, length-put,
}
use transactional_memory.Sync.{
  Sync, add_ready, Place, polling, joining, last_ready, setting_run, gathering, running,
  storing_error, aborting, reporting, last_done, loading_status, storing_status, stopping, raising,
  after_poll, after_gather, after_run, is_abort, Work, polls, joins, resets_ready, sets_run,
  gathers, runs, stores_error, aborts, reports, resets_done, loads_status, stores_status, stops,
  raises, Master, Result, System,
}
use transactional_memory.Sync.Phases.{Phase}
use transactional_memory.Sync.Operations.{
  polls_in, gathers_in, joins_in, resets_ready_in, sets_run_in, runs_in, stores_error_in, aborts_in,
  reports_in, resets_done_in, loads_status_in, stores_status_in, stops_in, raises_in,
}

-- The invariant.
abbrev pub PhaseOf : Sync → Master → List (Option ℕ) → Option Result → List Place → Type 0
PhaseOf s m reported result ts =
    (0 < s.nbworkers)
    × (s.nbworkers < 2 ^ 32)
    × (length ts ≡ s.nbworkers)
    × Phase s.status s.nbworkers s.nbready s.errmsg s.raised m reported result ts

abbrev pub IsSound : System → Type 0
IsSound s = PhaseOf s.sync s.master s.reported s.result s.workers

module _ (xs ys : List Place) (s s' : Sync) (m : Master) (reported : List (Option ℕ))
    (result : Option Result) (p p' : Place) (report : List (Option ℕ)) where
  -- The place and the state that a step names are the ones of its equations.
  before :
      (q : Place)
      → p ≡ q
      → PhaseOf s m reported result (xs ++ p ∷ ys)
      → PhaseOf s m reported result (xs ++ q ∷ ys)
  before q e h = subst (λ t. PhaseOf s m reported result (xs ++ t ∷ ys)) e h

  behind :
      (t : Sync) (q : Place) (r : List (Option ℕ))
      → s' ≡ t
      → p' ≡ q
      → report ≡ r
      → PhaseOf t m (r ++ reported) result (xs ++ q ∷ ys)
      → PhaseOf s' m (report ++ reported) result (xs ++ p' ∷ ys)
  behind t q r es eq er h =
      subst (λ u. PhaseOf u m (report ++ reported) result (xs ++ p' ∷ ys)) (sym es)
        (subst (λ u. PhaseOf t m (report ++ reported) result (xs ++ u ∷ ys)) (sym eq)
          (subst (λ u. PhaseOf t m (u ++ reported) result (xs ++ q ∷ ys)) (sym er) h))

  pub Work-PhaseOf :
      Work s p s' p' report
      → PhaseOf s m reported result (xs ++ p ∷ ys)
      → PhaseOf s' m (report ++ reported) result (xs ++ p' ∷ ys)
  unfolding add_ready
  Work-PhaseOf (polls ep es eq er) h =
      let g = before polling ep h in
      behind s (after_poll s.status) [] es eq er (
        g.0,
        g.1,
        length-put xs polling (after_poll s.status) ys ∙ g.2,
        polls_in xs ys s.nbworkers s.nbready s.errmsg s.raised m reported result g.0 g.1 s.status
            g.3,
      )
  Work-PhaseOf (joins ep es eq er) h =
      let g = before joining ep h in
      behind _ _ [] es eq er (
        g.0,
        g.1,
        length-put xs joining _ ys ∙ g.2,
        joins_in xs ys s.nbworkers s.nbready s.errmsg s.raised m reported result g.0 g.1 s.status
            g.2 g.3,
      )
  Work-PhaseOf (resets_ready ep es eq er) h =
      let g = before last_ready ep h in
      behind _ setting_run [] es eq er (
        g.0,
        g.1,
        length-put xs last_ready setting_run ys ∙ g.2,
        resets_ready_in xs ys s.nbworkers s.nbready s.errmsg s.raised m reported result g.0 g.1
            s.status g.3,
      )
  Work-PhaseOf (sets_run ep es eq er) h =
      let g = before setting_run ep h in
      behind _ running [] es eq er (
        g.0,
        g.1,
        length-put xs setting_run running ys ∙ g.2,
        sets_run_in xs ys s.nbworkers s.nbready s.errmsg s.raised m reported result g.0 g.1 s.status
            g.2 g.3,
      )
  Work-PhaseOf (gathers ep es eq er) h =
      let g = before gathering ep h in
      behind s (after_gather s.status) [] es eq er (
        g.0,
        g.1,
        length-put xs gathering (after_gather s.status) ys ∙ g.2,
        gathers_in xs ys s.nbworkers s.nbready s.errmsg s.raised m reported result g.0 g.1 s.status
            g.3,
      )
  Work-PhaseOf (runs error ep es eq er) h =
      let g = before running ep h in
      behind s (after_run error) (error ∷ []) es eq er (
        g.0,
        g.1,
        length-put xs running (after_run error) ys ∙ g.2,
        runs_in xs ys s.nbworkers s.nbready s.errmsg s.raised m reported result g.0 g.1 error
            s.status g.3,
      )
  Work-PhaseOf (stores_error e ep es eq er) h =
      let g = before (storing_error e) ep h in
      behind _ aborting [] es eq er (
        g.0,
        g.1,
        length-put xs (storing_error e) aborting ys ∙ g.2,
        stores_error_in xs ys s.nbworkers s.nbready s.errmsg s.raised m reported result g.0 g.1 e
            s.status g.3,
      )
  Work-PhaseOf (aborts ep es eq er) h =
      let g = before aborting ep h in
      behind _ reporting [] es eq er (
        g.0,
        g.1,
        length-put xs aborting reporting ys ∙ g.2,
        aborts_in xs ys s.nbworkers s.nbready s.errmsg s.raised m reported result g.0 g.1 s.status
            g.2 g.3,
      )
  Work-PhaseOf (reports ep es eq er) h =
      let g = before reporting ep h in
      behind _ _ [] es eq er (
        g.0,
        g.1,
        length-put xs reporting _ ys ∙ g.2,
        reports_in xs ys s.nbworkers s.nbready s.errmsg s.raised m reported result g.0 g.1 s.status
            g.2 g.3,
      )
  Work-PhaseOf (resets_done ep es eq er) h =
      let g = before last_done ep h in
      behind _ loading_status [] es eq er (
        g.0,
        g.1,
        length-put xs last_done loading_status ys ∙ g.2,
        resets_done_in xs ys s.nbworkers s.nbready s.errmsg s.raised m reported result g.0 g.1
            s.status g.3,
      )
  Work-PhaseOf (loads_status ep es eq er) h =
      let g = before loading_status ep h in
      behind s (storing_status (is_abort s.status)) [] es eq er (
        g.0,
        g.1,
        length-put xs loading_status (storing_status (is_abort s.status)) ys ∙ g.2,
        loads_status_in xs ys s.nbworkers s.nbready s.errmsg s.raised m reported result g.0 g.1
            s.status g.3,
      )
  Work-PhaseOf (stores_status b ep es eq er) h =
      let g = before (storing_status b) ep h in
      behind _ stopping [] es eq er (
        g.0,
        g.1,
        length-put xs (storing_status b) stopping ys ∙ g.2,
        stores_status_in xs ys s.nbworkers s.nbready s.errmsg s.raised m reported result g.0 g.1 b
            s.status g.2 g.3,
      )
  Work-PhaseOf (stops now ep es eq er) h =
      let g = before stopping ep h in
      behind _ raising [] es eq er (
        g.0,
        g.1,
        length-put xs stopping raising ys ∙ g.2,
        stops_in xs ys s.nbworkers s.nbready s.errmsg s.raised m reported result g.0 g.1 s.status
            g.3,
      )
  Work-PhaseOf (raises ep es eq er) h =
      let g = before raising ep h in
      behind _ polling [] es eq er (
        g.0,
        g.1,
        length-put xs raising polling ys ∙ g.2,
        raises_in xs ys s.nbworkers s.nbready s.errmsg s.raised m reported result g.0 g.1 s.status
            g.3,
      )
