-- ===== src/Barrier/Passes.antt =====
-- No thread passes the first half of `sync` before all have come as often (grading/common.hpp).
use transactional_memory.Base.{
  ℕ, ◌+◌, ◌-◌, ◌^◌, ◌≤◌, ◌<◌, ◌≡◌, refl, sym, List, ◌∷◌, ◌++◌, ◌==◌, All-at, All-In, replicate,
  All-replicate, length-replicate, sum_by-replicate, In, arith,
}
use mathlib.Core.Path.{subst}
use transactional_memory.Words.{add64, sub64}
use transactional_memory.Barrier.{
  Mode, enter, leave, new_barrier, add_step, sub_step, outside, entered_last, awaiting_leave,
  leaving, left_last, awaiting_enter, after_add, after_load_leave, after_sub, after_load_enter,
  Thread, at, System, Step, adds, sets_leave, loads_leave, subtracts, sets_enter, loads_enter,
  Steps, none_yet, then_step,
}
use transactional_memory.Barrier.Rounds.{
  is_counted, enters_last, IsEntering, IsLeaving, Round, IsRound,
}
use transactional_memory.Barrier.Moves.{
  adds-Round, subtracts-Round, set_leave-Round, set_enter-Round, move_entering, move_leaving,
}

abbrev pub start : ℕ → System
start n = record { barrier = new_barrier n; threads = replicate n (at outside 0) }

module _ (xs ys : List Thread) (k c n a : ℕ) where
  adds_in :
      (m : Mode)
      → Round k c n m (xs ++ at outside a ∷ ys)
      → Round k c (add64 n 1) m (xs ++ at (after_add (add64 n 1 == c)) (a + 1) ∷ ys)
  adds_in enter h = adds-Round xs ys k c n a h
  adds_in leave h = absurd (All-at (IsLeaving k) xs (at outside a) ys h.4.0)

  sets_leave_in :
      (m : Mode)
      → Round k c n m (xs ++ at entered_last a ∷ ys)
      → Round k c n leave (xs ++ at leaving a ∷ ys)
  sets_leave_in enter h = set_leave-Round xs ys k c n a h
  sets_leave_in leave h = absurd (All-at (IsLeaving k) xs (at entered_last a) ys h.4.0)

  loads_leave_in :
      (m : Mode)
      → Round k c n m (xs ++ at awaiting_leave a ∷ ys)
      → Round k c n m (xs ++ at (after_load_leave m) a ∷ ys)
  loads_leave_in enter h = h
  loads_leave_in leave h =
      move_leaving xs ys k c n a awaiting_leave leaving a n h (omega arith) (λ p. p) (omega arith)

  subtracts_in :
      (m : Mode)
      → Round k c n m (xs ++ at leaving a ∷ ys)
      → Round k c (sub64 n 1) m (xs ++ at (after_sub (sub64 n 1 == 0)) a ∷ ys)
  subtracts_in enter h = absurd (All-at (IsEntering k) xs (at leaving a) ys h.4.0)
  subtracts_in leave h = subtracts-Round xs ys k c n a h

  sets_enter_in :
      (m : Mode)
      → Round k c n m (xs ++ at left_last a ∷ ys)
      → Round (k + 1) c n enter (xs ++ at outside a ∷ ys)
  sets_enter_in enter h = absurd (All-at (IsEntering k) xs (at left_last a) ys h.4.0)
  sets_enter_in leave h = set_enter-Round xs ys k c n a h

  loads_enter_in :
      (m : Mode)
      → Round k c n m (xs ++ at awaiting_enter a ∷ ys)
      → Round k c n m (xs ++ at (after_load_enter m) a ∷ ys)
  loads_enter_in enter h =
      move_entering xs ys k c n a awaiting_enter outside a n h (omega arith) (λ p. p) (omega arith)
  loads_enter_in leave h = h

module _ (k : ℕ) (s s' : System) where
  abbrev RoundNow : List Thread → Type 0
  RoundNow ts = Round k s.barrier.cardinal s.barrier.step s.barrier.mode ts

  Step-IsRound : Step s s' → IsRound k s → (k' : ℕ) × IsRound k' s'
  unfolding add_step sub_step
  Step-IsRound (adds xs ys a e e') h =
      let next =
        adds_in xs ys k s.barrier.cardinal s.barrier.step a s.barrier.mode (subst RoundNow e h) in
      (k, subst (IsRound k) (sym e') next)
  Step-IsRound (sets_leave xs ys a e e') h =
      let next =
        sets_leave_in xs ys k s.barrier.cardinal s.barrier.step a s.barrier.mode
          (subst RoundNow e h) in
      (k, subst (IsRound k) (sym e') next)
  Step-IsRound (loads_leave xs ys a e e') h =
      let next =
        loads_leave_in xs ys k s.barrier.cardinal s.barrier.step a s.barrier.mode
          (subst RoundNow e h) in
      (k, subst (IsRound k) (sym e') next)
  Step-IsRound (subtracts xs ys a e e') h =
      let next =
        subtracts_in xs ys k s.barrier.cardinal s.barrier.step a s.barrier.mode
          (subst RoundNow e h) in
      (k, subst (IsRound k) (sym e') next)
  Step-IsRound (sets_enter xs ys a e e') h =
      let next =
        sets_enter_in xs ys k s.barrier.cardinal s.barrier.step a s.barrier.mode
          (subst RoundNow e h) in
      (k + 1, subst (IsRound (k + 1)) (sym e') next)
  Step-IsRound (loads_enter xs ys a e e') h =
      let next =
        loads_enter_in xs ys k s.barrier.cardinal s.barrier.step a s.barrier.mode
          (subst RoundNow e h) in
      (k, subst (IsRound k) (sym e') next)

module _ (n : ℕ) (some : 0 < n) (small : n < 2 ^ 64) where
  start-IsRound : IsRound 0 (start n)
  unfolding new_barrier
  start-IsRound = (
    some,
    small,
    length-replicate n (at outside 0),
    sum_by-replicate is_counted n (at outside 0) refl,
    (
      All-replicate (IsEntering 0) n (at outside 0) refl,
      ground (arith, some, sum_by-replicate enters_last n (at outside 0) refl),
    ),
  )

  pub Steps-IsRound : (s : System) → Steps (start n) s → (k : ℕ) × IsRound k s
  Steps-IsRound s none_yet = (0, start-IsRound)
  Steps-IsRound s (then_step {m = m} steps step) =
      let (k, h) = Steps-IsRound m steps in Step-IsRound k m s step h

-- How often a thread has passed the first half of `sync`.
abbrev pub passes : Thread → ℕ
passes t = elim (t.place) [
  | entered_last ↦ t.arrivals - 1
  | awaiting_leave ↦ t.arrivals - 1
  | _ ↦ t.arrivals
]

module _ (k : ℕ) (t : Thread) where
  entering_passes : IsEntering k t → (passes t ≡ k) × (k ≤ t.arrivals) × (t.arrivals ≤ k + 1)
  entering_passes h = ground (arith, h)

  leaving_passes : IsLeaving k t → (k ≤ passes t) × (passes t ≤ k + 1) × (t.arrivals ≡ k + 1)
  leaving_passes h = ground (arith, h)

module _ (k c n : ℕ) (ts : List Thread) (t u : Thread) (it : In t ts) (iu : In u ts) where
  Round-passes :
      (m : Mode) → Round k c n m ts → (passes t ≤ u.arrivals) × (u.arrivals ≤ passes t + 1)
  Round-passes enter h =
      let P = IsEntering k in
      omega (
        arith,
        entering_passes k t (All-In P t ts h.4.0 it),
        entering_passes k u (All-In P u ts h.4.0 iu),
      )
  Round-passes leave h =
      let P = IsLeaving k in
      omega (
        arith,
        leaving_passes k t (All-In P t ts h.4.0 it),
        leaving_passes k u (All-In P u ts h.4.0 iu),
      )

-- Of `cardinal` threads, at least one and fewer than 2 ^ 64, that call `sync` again and again, in
-- whatever order their operations are done: a thread has never passed the first half of `sync` more
-- often than any thread has called it, nor has any called it more than once more than another has
-- passed its first half.
pub Steps-passes :
    (n : ℕ)
    → 0 < n
    → n < 2 ^ 64
    → (s : System) → Steps (start n) s
    → (t u : Thread) → In t s.threads
    → In u s.threads
    → (passes t ≤ u.arrivals) × (u.arrivals ≤ passes t + 1)
Steps-passes n some small s steps t u it iu =
    let (k, h) = Steps-IsRound n some small s steps in
    Round-passes k s.barrier.cardinal s.barrier.step s.threads t u it iu s.barrier.mode h
