-- ===== src/Sync/Rounds.antt =====
-- What `master_wait` gives (grading/grading.cpp, class `Sync`).
use mathlib.Core.Path.{subst}
use transactional_memory.Base.{
  ℕ, ◌^◌, ◌<◌, ◌≡◌, refl, sym, ap, Bool, true, false, Option, none, some, List, [], ◌∷◌, length,
  All, All-replicate, length-replicate, sum_by-replicate, replicate, sum_by, arith,
}
use transactional_memory.Clock.{Chrono}
use transactional_memory.Sync.{
  Status, wait, run, abort, done, fail, quit, new_sync, Place, polling, Master, between, starting,
  waiting, woken, joined, Result, result_in, System, Step, works, notifies, starts, wakes, loads,
  quits, Steps, none_yet, then_step,
}
use transactional_memory.Sync.Phases.{
  ready, opener, opened, tail, flag, Gathers, Rests, Quits, RestPhase, Handover, IsResult, Phase,
}
use transactional_memory.Sync.Works.{PhaseOf, IsSound, Work-PhaseOf}

-- Between two runs all workers wait.
between_runs :
    (ts : List Place)
    → All Rests ts
    → sum_by tail ts ≡ 0
    → All Gathers ts
      × (sum_by ready ts ≡ 0)
      × (sum_by opener ts ≡ 0)
      × (sum_by opened ts ≡ 0)
      × All Quits ts
between_runs [] h z = (tt, refl, refl, refl, tt)
between_runs (t ∷ ts) h z = grind (arith, between_runs ts)

module _ (c n : ℕ) (errmsg : Option ℕ) (raised : Bool) (reported : List (Option ℕ))
    (result : Option Result) (ts : List Place) where
  module _ (some_workers : 0 < c) where
    rest_notifies :
        RestPhase n ts
        → Handover between raised ts
        → Phase wait c n errmsg raised starting [] none ts
    rest_notifies h o =
        let (g, r, p, d, q) = between_runs ts h.0 o.1 in
        (tt, o.0, refl, refl, (g, ground (arith, some_workers, r, p), ground (arith, h.1, r, d)))

    notifies_in :
        (st : Status)
        → Phase st c n errmsg raised between reported result ts
        → Phase wait c n errmsg raised starting [] none ts
    notifies_in done h = rest_notifies h.0 h.1
    notifies_in fail h = rest_notifies h.0 h.1
    notifies_in wait h = absurd h.0
    notifies_in run h = absurd h.0
    notifies_in abort h = absurd h.0
    notifies_in quit h = cc h.0

  starts_in :
      (st : Status)
      → Phase st c n errmsg raised starting reported result ts
      → Phase st c n errmsg raised waiting reported result ts
  starts_in wait h = h
  starts_in run h = h
  starts_in abort h = h
  starts_in done h = h
  starts_in fail h = h
  starts_in quit h = cc h.0

  quits_in :
      (st : Status)
      → Phase st c n errmsg raised between reported result ts
      → Phase quit c n errmsg raised joined reported result ts
  quits_in done h = (refl, (between_runs ts h.0.0 h.1.1).4, h.3)
  quits_in fail h = (refl, (between_runs ts h.0.0 h.1.1).4, h.3)
  quits_in wait h = absurd h.0
  quits_in run h = absurd h.0
  quits_in abort h = absurd h.0
  quits_in quit h = cc h.0

  wakes_in :
      (st : Status)
      → raised ≡ true
      → Phase st c n errmsg raised waiting reported result ts
      → Phase st c n errmsg false woken reported result ts
  wakes_in wait e h = cc (e, h.1)
  wakes_in run e h = cc (e, h.1)
  wakes_in abort e h = cc (e, h.1)
  wakes_in done e h = (h.0, (refl, omega (arith, h.1, ap flag e)), h.2, h.3)
  wakes_in fail e h = (h.0, (refl, omega (arith, h.1, ap flag e)), h.2, h.3)
  wakes_in quit e h = cc h.0

  loads_in :
      (st : Status) (runtime : Chrono)
      → Phase st c n errmsg raised woken reported result ts
      → Phase st c n errmsg raised between reported (some (result_in st runtime errmsg)) ts
  loads_in done runtime h = (h.0, h.1, tt, h.2)
  loads_in fail runtime h = (h.0, h.1, tt, h.2)
  loads_in wait runtime h = absurd h.0
  loads_in run runtime h = absurd h.0
  loads_in abort runtime h = absurd h.0
  loads_in quit runtime h = cc h.0

module _ (s : System) where
  abbrev PhaseWith : Master → Type 0
  PhaseWith m = PhaseOf s.sync m s.reported s.result s.workers

  Step-IsSound : (s' : System) → Step s s' → IsSound s → IsSound s'
  Step-IsSound s' (works xs ys p p' sync' report e work e') h = subst IsSound (sym e') (
      Work-PhaseOf xs ys s.sync sync' s.master s.reported s.result p p' report work
        (subst (PhaseOf s.sync s.master s.reported s.result) e h))
  Step-IsSound s' (notifies em e') h =
      let g = subst PhaseWith em h in
      subst IsSound (sym e') (
        g.0,
        g.1,
        g.2,
        notifies_in s.sync.nbworkers s.sync.nbready s.sync.errmsg s.sync.raised s.reported s.result
            s.workers g.0 s.sync.status g.3,
      )
  Step-IsSound s' (starts now em e') h =
      let g = subst PhaseWith em h in
      subst IsSound (sym e') (
        g.0,
        g.1,
        g.2,
        starts_in s.sync.nbworkers s.sync.nbready s.sync.errmsg s.sync.raised s.reported s.result
            s.workers s.sync.status g.3,
      )
  Step-IsSound s' (wakes em er e') h =
      let g = subst PhaseWith em h in
      subst IsSound (sym e') (
        g.0,
        g.1,
        g.2,
        wakes_in s.sync.nbworkers s.sync.nbready s.sync.errmsg s.sync.raised s.reported s.result
            s.workers s.sync.status er g.3,
      )
  Step-IsSound s' (loads em e') h =
      let g = subst PhaseWith em h in
      subst IsSound (sym e') (
        g.0,
        g.1,
        g.2,
        loads_in s.sync.nbworkers s.sync.nbready s.sync.errmsg s.sync.raised s.reported s.result
            s.workers s.sync.status s.sync.runtime g.3,
      )
  Step-IsSound s' (quits em e') h =
      let g = subst PhaseWith em h in
      subst IsSound (sym e') (
        g.0,
        g.1,
        g.2,
        quits_in s.sync.nbworkers s.sync.nbready s.sync.errmsg s.sync.raised s.reported s.result
            s.workers s.sync.status g.3,
      )

abbrev pub begin : (n : ℕ) → Chrono → System
begin n runtime = record {
  sync = new_sync n runtime;
  master = between;
  workers = replicate n polling;
  reported = [];
  result = none;
}

module _ (n : ℕ) (runtime : Chrono) (some_workers : 0 < n) (no_overflow : n < 2 ^ 32) where
  begin-IsSound : IsSound (begin n runtime)
  unfolding new_sync
  begin-IsSound = (
    some_workers,
    no_overflow,
    length-replicate n polling,
    (
      (All-replicate Rests n polling tt, refl),
      (refl, sum_by-replicate tail n polling refl),
      tt,
      tt,
    ),
  )

  Steps-IsSound : (s : System) → Steps (begin n runtime) s → IsSound s
  Steps-IsSound s none_yet = begin-IsSound
  Steps-IsSound s (then_step {m = m} steps step) = Step-IsSound m s step (Steps-IsSound m steps)

Phase-IsResult :
    (st : Status) (c n : ℕ) (errmsg : Option ℕ) (raised : Bool) (m : Master)
    (reported : List (Option ℕ)) (result : Option Result) (ts : List Place)
    → Phase st c n errmsg raised m reported result ts
    → IsResult c reported result
Phase-IsResult done c n errmsg raised m reported result ts h = h.3
Phase-IsResult fail c n errmsg raised m reported result ts h = h.3
Phase-IsResult quit c n errmsg raised m reported result ts h = h.2
Phase-IsResult wait c n errmsg raised m reported result ts h =
    subst (IsResult c reported) (sym h.2) tt
Phase-IsResult run c n errmsg raised m reported result ts h =
    subst (IsResult c reported) (sym h.2) tt
Phase-IsResult abort c n errmsg raised m reported result ts h =
    subst (IsResult c reported) (sym h.2) tt

-- Of at least one and fewer than 2 ^ 32 workers that call `worker_wait` and `worker_notify` in turn,
-- and a master that calls `master_notify` and `master_wait` in turn until `master_join`, in whatever
-- order their operations are done: `master_wait` never finds an unexpected status. If it gives the
-- runtime, as many calls of `worker_notify` as there are workers have been made since the
-- `master_notify`, all with no error; if it gives a message, as many have, and one with that message.
pub Steps-IsResult :
    (n : ℕ) (runtime : Chrono)
    → 0 < n
    → n < 2 ^ 32
    → (s : System) → Steps (begin n runtime) s
    → IsResult (length s.workers) s.reported s.result
Steps-IsResult n runtime some_workers no_overflow s steps =
    let h = Steps-IsSound n runtime some_workers no_overflow s steps in
    subst (λ c. IsResult c s.reported s.result) (sym h.2)
      (Phase-IsResult s.sync.status s.sync.nbworkers s.sync.nbready s.sync.errmsg s.sync.raised
        s.master s.reported s.result s.workers h.3)
