-- ===== src/Sync/Gather.antt =====
-- The workers before a run: `Sync::worker_wait` (grading/grading.cpp).
use mathlib.Core.Path.{subst}
use transactional_memory.Base.{
  ℕ, ◌+◌, ◌%◌, ◌^◌, ◌≤◌, ◌<◌, ◌≡◌, refl, sym, inl, inr, false, Option, List, [], ◌∷◌, ◌++◌, ◌==◌,
  length, All, All-put, All-before, All-after, All-join, sum_by, sum_by-put, sum_by-append_cons,
  length-append_cons, Bool-cases, arith,
}
use transactional_memory.Sync.{
  Place, polling, joining, last_ready, setting_run, gathering, running, after_join,
}
use transactional_memory.Sync.Phases.{
  ready, opener, opened, finished, closer, closed, unreported, pending, Gathers, Runs, GatherPhase,
  RunPhase,
}

ready-le :
    (ts : List Place)
    → All Gathers ts
    → (sum_by ready ts ≤ length ts) × (sum_by opened ts ≤ sum_by opener ts)
ready-le [] h = (omega arith, omega arith)
ready-le (t ∷ ts) h = grind (arith, ready-le ts)

-- When all are there and none is the last, all wait for the run.
to_running :
    (ts : List Place) (errmsg : Option ℕ)
    → All Gathers ts
    → sum_by ready ts ≡ length ts
    → sum_by opener ts ≡ 0
    → All (Runs false errmsg []) ts
      × (sum_by finished ts ≡ 0)
      × (sum_by closer ts ≡ 0)
      × (sum_by closed ts ≡ 0)
      × (sum_by unreported ts ≡ length ts)
      × (sum_by pending ts ≡ 0)
to_running [] errmsg h r o = (tt, refl, refl, refl, refl, refl)
to_running (t ∷ ts) errmsg h r o = grind (arith, to_running ts errmsg, ready-le ts)

module _ (xs ys : List Place) (c n : ℕ) (some_workers : 0 < c) (no_overflow : c < 2 ^ 32) where
  -- The sums before and behind an operation of one worker.
  abbrev Moved : (p q : Place) → Type 0
  Moved p q =
      (sum_by ready (xs ++ q ∷ ys) + ready p ≡ sum_by ready (xs ++ p ∷ ys) + ready q)
      × (sum_by opener (xs ++ q ∷ ys) + opener p ≡ sum_by opener (xs ++ p ∷ ys) + opener q)
      × (sum_by opened (xs ++ q ∷ ys) + opened p ≡ sum_by opened (xs ++ p ∷ ys) + opened q)

  moved : (p q : Place) → Moved p q
  moved p q = (sum_by-put ready xs p q ys, sum_by-put opener xs p q ys, sum_by-put opened xs p q ys)

  pub polls_GatherPhase :
      GatherPhase c n (xs ++ polling ∷ ys) → GatherPhase c n (xs ++ joining ∷ ys)
  polls_GatherPhase h = (
    All-put Gathers xs polling ys joining h.0 tt,
    ground (arith, moved polling joining),
    ground (arith, moved polling joining),
  )

  -- Before the `fetch_add` of a worker, `nbready` counts those before it.
  joining-count :
      length (xs ++ joining ∷ ys) ≡ c
      → GatherPhase c n (xs ++ joining ∷ ys)
      → (n ≡ sum_by ready (xs ++ joining ∷ ys))
        × (n < c)
        × (sum_by opener (xs ++ joining ∷ ys) ≡ 0)
        × (sum_by opened (xs ++ joining ∷ ys) ≡ 0)
  joining-count len h =
      let l1 = ready-le xs (All-before Gathers xs (joining ∷ ys) h.0) in
      let l2 = ready-le ys (All-after Gathers xs (joining ∷ ys) h.0).1 in
      let s1 = sum_by-append_cons ready xs joining ys in
      let s2 = length-append_cons xs joining ys in
      let less : sum_by ready (xs ++ joining ∷ ys) < c = omega (arith, len, l1, l2, s1, s2) in
      let zero_opener : sum_by opener (xs ++ joining ∷ ys) ≡ 0 = ground (arith, h.1, less) in
      let all = ready-le (xs ++ joining ∷ ys) h.0 in
      let zero_opened : sum_by opened (xs ++ joining ∷ ys) ≡ 0 = omega (arith, all, zero_opener) in
      let e : n ≡ sum_by ready (xs ++ joining ∷ ys) = ground (arith, h.2, zero_opened) in
      (e, omega (arith, e, less), zero_opener, zero_opened)

  pub joins_GatherPhase :
      length (xs ++ joining ∷ ys) ≡ c
      → GatherPhase c n (xs ++ joining ∷ ys)
      → GatherPhase c ((n + 1) % 2 ^ 32) (xs ++ after_join ((n + 1) % 2 ^ 32 == c) ∷ ys)
  joins_GatherPhase len h =
      let (e, less, zo, zd) = joining-count len h in
      let next : (n + 1) % 2 ^ 32 ≡ n + 1 = omega (arith, less, no_overflow) in
      rw next (elim (Bool-cases (n + 1 == c)) [
        | inl t ↦
            subst (λ b. GatherPhase c (n + 1) (xs ++ after_join b ∷ ys)) (sym t)
              (
                All-put Gathers xs joining ys last_ready h.0 tt,
                ground (arith, moved joining last_ready, e, zo, zd),
                ground (arith, moved joining last_ready, e, zo, zd),
              )
        | inr f ↦
            subst (λ b. GatherPhase c (n + 1) (xs ++ after_join b ∷ ys)) (sym f)
              (
                All-put Gathers xs joining ys gathering h.0 tt,
                ground (arith, moved joining gathering, e, zo, zd),
                ground (arith, moved joining gathering, e, zo, zd),
              )
      ])

  pub resets_GatherPhase :
      GatherPhase c n (xs ++ last_ready ∷ ys) → GatherPhase c 0 (xs ++ setting_run ∷ ys)
  resets_GatherPhase h = (
    All-put Gathers xs last_ready ys setting_run h.0 tt,
    ground (arith, moved last_ready setting_run, h.1),
    ground (arith, moved last_ready setting_run),
  )

  -- The last worker opens the run: all others wait for it.
  pub sets_run_RunPhase :
      (errmsg : Option ℕ)
      → length (xs ++ setting_run ∷ ys) ≡ c
      → GatherPhase c n (xs ++ setting_run ∷ ys)
      → RunPhase false c n errmsg [] (xs ++ running ∷ ys)
  sets_run_RunPhase errmsg len h =
      let o = sum_by-append_cons opener xs setting_run ys in
      let d = sum_by-append_cons opened xs setting_run ys in
      let r = sum_by-append_cons ready xs setting_run ys in
      let l = length-append_cons xs setting_run ys in
      let full : sum_by ready (xs ++ setting_run ∷ ys) ≡ c = ground (arith, h.1, o) in
      let gx = All-before Gathers xs (setting_run ∷ ys) h.0 in
      let gy = (All-after Gathers xs (setting_run ∷ ys) h.0).1 in
      let ox : sum_by opener xs ≡ 0 = ground (arith, h.1, o) in
      let oy : sum_by opener ys ≡ 0 = ground (arith, h.1, o) in
      let lx = ready-le xs gx in
      let ly = ready-le ys gy in
      let ax = to_running xs errmsg gx (omega (arith, full, len, lx, ly, r, l)) ox in
      let ay = to_running ys errmsg gy (omega (arith, full, len, lx, ly, r, l)) oy in
      (
        All-join (Runs false errmsg []) xs (running ∷ ys) ax.0 (tt, ay.0),
        ground (
          arith,
          some_workers,
          ax,
          ay,
          sum_by-append_cons closer xs running ys,
          sum_by-append_cons finished xs running ys,
        ),
        ground (
          arith,
          h.2,
          d,
          ax,
          ay,
          sum_by-append_cons closed xs running ys,
          sum_by-append_cons finished xs running ys,
        ),
        omega (arith, len, l, ax.4, ay.4, sum_by-append_cons unreported xs running ys),
        omega (arith, ax.5, ay.5, sum_by-append_cons pending xs running ys),
      )
