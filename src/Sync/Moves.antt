-- ===== src/Sync/Moves.antt =====
-- One operation of `Sync::worker_notify` while the workers run (grading/grading.cpp).
use mathlib.Core.Path.{subst}
use transactional_memory.Base.{
  ℕ, ◌+◌, ◌%◌, ◌^◌, ◌<◌, ◌≡◌, refl, sym, inl, inr, Bool, true, false, Option, none, some, List, [],
  ◌∷◌, ◌++◌, ◌==◌, length, All, All-map, All-at, All-put, All-before, All-after, All-join, In,
  sum_by, sum_by-put, sum_by-append_cons, length-append_cons, Bool-cases, arith,
}
use transactional_memory.Sync.{
  Place, polling, gathering, running, storing_error, aborting, reporting, last_done, loading_status,
  storing_status, stopping, after_run, after_report,
}
use transactional_memory.Sync.Phases.{
  finished, closer, closed, unreported, pending, tail, Runs, Rests, ErrorsOf, RunPhase, RestPhase,
}
use transactional_memory.Sync.Running.{
  finished-le, IsReported-cons, Runs-cons, Runs-message, Runs-abort, to_resting,
}

module _ (xs ys : List Place) (c n : ℕ) (errmsg : Option ℕ) (reported : List (Option ℕ)) where
  -- The sums before and behind an operation of one worker.
  abbrev Moved : (p q : Place) → Type 0
  Moved p q =
      (sum_by finished (xs ++ q ∷ ys) + finished p ≡ sum_by finished (xs ++ p ∷ ys) + finished q)
      × (sum_by closer (xs ++ q ∷ ys) + closer p ≡ sum_by closer (xs ++ p ∷ ys) + closer q)
      × (sum_by closed (xs ++ q ∷ ys) + closed p ≡ sum_by closed (xs ++ p ∷ ys) + closed q)
      × (sum_by unreported (xs ++ q ∷ ys) + unreported p
          ≡ sum_by unreported (xs ++ p ∷ ys) + unreported q)
      × (sum_by pending (xs ++ q ∷ ys) + pending p ≡ sum_by pending (xs ++ p ∷ ys) + pending q)

  moved : (p q : Place) → Moved p q
  moved p q = (
    sum_by-put finished xs p q ys,
    sum_by-put closer xs p q ys,
    sum_by-put closed xs p q ys,
    sum_by-put unreported xs p q ys,
    sum_by-put pending xs p q ys,
  )

  ErrorsOf-same :
      (aborted : Bool) (p q : Place)
      → pending p ≡ pending q
      → ErrorsOf aborted errmsg reported (xs ++ p ∷ ys)
      → ErrorsOf aborted errmsg reported (xs ++ q ∷ ys)
  ErrorsOf-same true p q e h = h
  ErrorsOf-same false p q e h = omega (arith, h, e, moved p q)

  -- What holds before the `fetch_add`, with a worker that has not finished.
  unfinished :
      (aborted : Bool) (p : Place)
      → finished p ≡ 0
      → length (xs ++ p ∷ ys) ≡ c
      → RunPhase aborted c n errmsg reported (xs ++ p ∷ ys)
      → (n ≡ sum_by finished (xs ++ p ∷ ys))
        × (n < c)
        × (sum_by closer (xs ++ p ∷ ys) ≡ 0)
        × (sum_by closed (xs ++ p ∷ ys) ≡ 0)
  unfinished aborted p z len h =
      let s1 = sum_by-append_cons finished xs p ys in
      let less : sum_by finished (xs ++ p ∷ ys) < c =
        omega (arith, z, len, finished-le xs, finished-le ys, s1, length-append_cons xs p ys) in
      let zero_closer : sum_by closer (xs ++ p ∷ ys) ≡ 0 = ground (arith, h.1, less) in
      let zero_closed : sum_by closed (xs ++ p ∷ ys) ≡ 0 =
        omega (arith, finished-le (xs ++ p ∷ ys), zero_closer) in
      let e : n ≡ sum_by finished (xs ++ p ∷ ys) = ground (arith, h.2, zero_closed) in
      (e, omega (arith, e, less), zero_closer, zero_closed)

  pub gathers_RunPhase :
      (aborted : Bool)
      → RunPhase aborted c n errmsg reported (xs ++ gathering ∷ ys)
      → RunPhase aborted c n errmsg reported (xs ++ running ∷ ys)
  gathers_RunPhase aborted h = (
    All-put (Runs aborted errmsg reported) xs gathering ys running h.0 tt,
    ground (arith, h.1, moved gathering running),
    ground (arith, h.2, moved gathering running),
    omega (arith, h.3, moved gathering running),
    ErrorsOf-same aborted gathering running refl h.4,
  )

  ErrorsOf-report :
      (aborted : Bool) (error : Option ℕ)
      → ErrorsOf aborted errmsg reported (xs ++ running ∷ ys)
      → ErrorsOf aborted errmsg (error ∷ reported) (xs ++ after_run error ∷ ys)
  ErrorsOf-report true error h = IsReported-cons error errmsg reported h
  ErrorsOf-report false none h = omega (arith, h, moved running reporting)
  ErrorsOf-report false (some e) h = omega (arith, h, moved running (storing_error e))

  after_run-Runs :
      (aborted : Bool) (error : Option ℕ) → Runs aborted errmsg (error ∷ reported) (after_run error)
  after_run-Runs aborted none = tt
  after_run-Runs aborted (some e) = inl refl

  after_run-sums :
      (error : Option ℕ)
      → (finished (after_run error) ≡ 0)
        × (closer (after_run error) ≡ 0)
        × (closed (after_run error) ≡ 0)
        × (unreported (after_run error) ≡ 0)
  after_run-sums none = (refl, refl, refl, refl)
  after_run-sums (some e) = (refl, refl, refl, refl)

  pub runs_RunPhase :
      (aborted : Bool) (error : Option ℕ)
      → RunPhase aborted c n errmsg reported (xs ++ running ∷ ys)
      → RunPhase aborted c n errmsg (error ∷ reported) (xs ++ after_run error ∷ ys)
  runs_RunPhase aborted error h =
      let z = after_run-sums error in
      let w = moved running (after_run error) in
      let all = All-map (Runs-cons aborted error errmsg reported) (xs ++ running ∷ ys) h.0 in
      (
        All-put (Runs aborted errmsg (error ∷ reported)) xs running ys (after_run error) all
            (after_run-Runs aborted error),
        ground (arith, h.1, z, w),
        ground (arith, h.2, z, w),
        omega (arith, h.3, z, w),
        ErrorsOf-report aborted error h.4,
      )

  ErrorsOf-message :
      (aborted : Bool) (e : ℕ) (ts : List Place)
      → In (some e) reported
      → ErrorsOf aborted errmsg reported ts
      → ErrorsOf aborted (some e) reported ts
  ErrorsOf-message true e ts i h = i
  ErrorsOf-message false e ts i h = h

  pub stores_error_RunPhase :
      (aborted : Bool) (e : ℕ)
      → RunPhase aborted c n errmsg reported (xs ++ storing_error e ∷ ys)
      → RunPhase aborted c n (some e) reported (xs ++ aborting ∷ ys)
  stores_error_RunPhase aborted e h =
      let i = All-at (Runs aborted errmsg reported) xs (storing_error e) ys h.0 in
      let w = moved (storing_error e) aborting in
      let all =
        All-map (Runs-message aborted errmsg e reported i) (xs ++ storing_error e ∷ ys) h.0 in
      (
        All-put (Runs aborted (some e) reported) xs (storing_error e) ys aborting all i,
        ground (arith, h.1, w),
        ground (arith, h.2, w),
        omega (arith, h.3, w),
        ErrorsOf-message aborted e (xs ++ aborting ∷ ys) i
            (ErrorsOf-same aborted (storing_error e) aborting refl h.4),
      )

  turn_aborted :
      (aborted : Bool) (ts : List Place)
      → sum_by closer ts ≡ 0
      → All (Runs aborted errmsg reported) ts
      → All (Runs true errmsg reported) ts
  turn_aborted true ts z h = h
  turn_aborted false ts z h = Runs-abort errmsg reported ts h z

  pub aborts_RunPhase :
      (aborted : Bool)
      → length (xs ++ aborting ∷ ys) ≡ c
      → RunPhase aborted c n errmsg reported (xs ++ aborting ∷ ys)
      → RunPhase true c n errmsg reported (xs ++ reporting ∷ ys)
  aborts_RunPhase aborted len h =
      let (e, less, zc, zd) = unfinished aborted aborting refl len h in
      let w = moved aborting reporting in
      (
        All-put (Runs true errmsg reported) xs aborting ys reporting
            (turn_aborted aborted (xs ++ aborting ∷ ys) zc h.0) tt,
        ground (arith, h.1, w),
        ground (arith, h.2, w),
        omega (arith, h.3, w),
        All-at (Runs aborted errmsg reported) xs aborting ys h.0,
      )

  pub reports_RunPhase :
      (aborted : Bool)
      → c < 2 ^ 32
      → length (xs ++ reporting ∷ ys) ≡ c
      → RunPhase aborted c n errmsg reported (xs ++ reporting ∷ ys)
      → RunPhase aborted c
          ((n + 1) % 2 ^ 32)
          errmsg
          reported
          (xs ++ after_report ((n + 1) % 2 ^ 32 == c) ∷ ys)
  reports_RunPhase aborted no_overflow len h =
      let (e, less, zc, zd) = unfinished aborted reporting refl len h in
      let next : (n + 1) % 2 ^ 32 ≡ n + 1 = omega (arith, less, no_overflow) in
      let P =
        λ (b : Bool). RunPhase aborted c (n + 1) errmsg reported (xs ++ after_report b ∷ ys) in
      let R = Runs aborted errmsg reported in
      rw next (elim (Bool-cases (n + 1 == c)) [
        | inl t ↦
            let w = moved reporting last_done in
            subst P (sym t) (
              All-put R xs reporting ys last_done h.0 tt,
              ground (arith, w, e, zc, zd),
              ground (arith, w, e, zc, zd),
              omega (arith, h.3, w),
              ErrorsOf-same aborted reporting last_done refl h.4,
            )
        | inr f ↦
            let w = moved reporting polling in
            subst P (sym f) (
              All-put R xs reporting ys polling h.0 tt,
              ground (arith, w, e, zc, zd),
              ground (arith, w, e, zc, zd),
              omega (arith, h.3, w),
              ErrorsOf-same aborted reporting polling refl h.4,
            )
      ])

  pub resets_RunPhase :
      (aborted : Bool)
      → RunPhase aborted c n errmsg reported (xs ++ last_done ∷ ys)
      → RunPhase aborted c 0 errmsg reported (xs ++ loading_status ∷ ys)
  resets_RunPhase aborted h =
      let w = moved last_done loading_status in
      (
        All-put (Runs aborted errmsg reported) xs last_done ys loading_status h.0 tt,
        ground (arith, h.1, w),
        ground (arith, w),
        omega (arith, h.3, w),
        ErrorsOf-same aborted last_done loading_status refl h.4,
      )

  pub loads_RunPhase :
      (aborted : Bool)
      → RunPhase aborted c n errmsg reported (xs ++ loading_status ∷ ys)
      → RunPhase aborted c n errmsg reported (xs ++ storing_status aborted ∷ ys)
  loads_RunPhase aborted h =
      let w = moved loading_status (storing_status aborted) in
      (
        All-put (Runs aborted errmsg reported) xs loading_status ys (storing_status aborted) h.0
            refl,
        ground (arith, h.1, w),
        ground (arith, h.2, w),
        omega (arith, h.3, w),
        ErrorsOf-same aborted loading_status (storing_status aborted) refl h.4,
      )

  ErrorsOf-none :
      (aborted : Bool) (ts : List Place)
      → sum_by pending ts ≡ 0
      → ErrorsOf aborted errmsg reported ts
      → ErrorsOf aborted errmsg reported []
  ErrorsOf-none true ts z h = h
  ErrorsOf-none false ts z h = omega (arith, z, h)

  -- The last worker ends the run: all have reported, and no error is left to show.
  pub stores_status_RestPhase :
      (aborted b : Bool)
      → length (xs ++ storing_status b ∷ ys) ≡ c
      → RunPhase aborted c n errmsg reported (xs ++ storing_status b ∷ ys)
      → RestPhase n (xs ++ stopping ∷ ys)
        × (sum_by tail (xs ++ stopping ∷ ys) ≡ 1)
        × (length reported ≡ c)
        × ErrorsOf aborted errmsg reported []
        × (b ≡ aborted)
  stores_status_RestPhase aborted b len h =
      let R = Runs aborted errmsg reported in
      let p = storing_status b in
      let k = sum_by-append_cons closer xs p ys in
      let d = sum_by-append_cons closed xs p ys in
      let f = sum_by-append_cons finished xs p ys in
      let l = length-append_cons xs p ys in
      let full : sum_by finished (xs ++ p ∷ ys) ≡ c = ground (arith, h.1, k) in
      let kx : sum_by closer xs ≡ 0 = ground (arith, h.1, k) in
      let ky : sum_by closer ys ≡ 0 = ground (arith, h.1, k) in
      let fx = finished-le xs in
      let fy = finished-le ys in
      let ax =
        to_resting aborted errmsg reported xs (All-before R xs (p ∷ ys) h.0)
          (omega (arith, full, len, fx, fy, f, l)) kx in
      let ay =
        to_resting aborted errmsg reported ys (All-after R xs (p ∷ ys) h.0).1
          (omega (arith, full, len, fx, fy, f, l)) ky in
      (
        (All-join Rests xs (stopping ∷ ys) ax.0 (tt, ay.0), ground (arith, h.2, d)),
        omega (arith, ax.1, ay.1, sum_by-append_cons tail xs stopping ys),
        omega (arith, h.3, ax.2, ay.2, sum_by-append_cons unreported xs p ys),
        ErrorsOf-none aborted (xs ++ p ∷ ys)
            (omega (arith, ax.3, ay.3, sum_by-append_cons pending xs p ys)) h.4,
        All-at R xs p ys h.0,
      )
