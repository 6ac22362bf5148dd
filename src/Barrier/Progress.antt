-- ===== src/Barrier/Progress.antt =====
-- The threads in `sync` are never all stuck (grading/common.hpp).
use transactional_memory.Base.{
  ℕ, ◌^◌, ◌<◌, ◌≡◌, ◌≢◌, refl, ◌⊎◌, inl, inr, List, [], ◌∷◌, length, All, In, sum_by, arith,
}
use transactional_memory.Barrier.{
  Mode, enter, leave, Place, outside, entered_last, awaiting_leave, leaving, left_last,
  awaiting_enter, Thread, at, System, Steps,
}
use transactional_memory.Barrier.Rounds.{
  is_counted, enters_last, leaves_last, IsEntering, IsLeaving, Round,
}
use transactional_memory.Barrier.Passes.{start, Steps-IsRound}

-- The next operation of a thread in `sync` brings it on: it is not a load that lets it wait.
abbrev pub Moves : Mode → Place → Type 0
Moves m outside = ⊥
Moves m entered_last = Unit
Moves m awaiting_leave = m ≡ leave
Moves m leaving = Unit
Moves m left_last = Unit
Moves m awaiting_enter = m ≡ enter

abbrev pub IsInside : Thread → Type 0
IsInside t = t.place ≢ outside

-- Some thread moves.
abbrev pub SomeMoves : Mode → List Thread → Type 0
SomeMoves m ts = (t : Thread) × In t ts × Moves m t.place

moves_later : (m : Mode) (t : Thread) (ts : List Thread) → SomeMoves m ts → SomeMoves m (t ∷ ts)
moves_later m t ts (u, i, h) = (u, inr i, h)

move_or_wait_entering :
    (k a : ℕ) (p : Place)
    → IsEntering k (at p a)
    → p ≢ outside
    → Moves enter p ⊎ ((is_counted (at p a) ≡ 1) × (enters_last (at p a) ≡ 0))
move_or_wait_entering k a outside h i = absurd (i refl)
move_or_wait_entering k a entered_last h i = inl tt
move_or_wait_entering k a awaiting_leave h i = inr (refl, refl)
move_or_wait_entering k a leaving h i = absurd h
move_or_wait_entering k a left_last h i = absurd h
move_or_wait_entering k a awaiting_enter h i = inl refl

move_or_wait_leaving :
    (k a : ℕ) (p : Place)
    → IsLeaving k (at p a)
    → Moves leave p ⊎ ((is_counted (at p a) ≡ 0) × (leaves_last (at p a) ≡ 0))
move_or_wait_leaving k a outside h = absurd h
move_or_wait_leaving k a entered_last h = absurd h
move_or_wait_leaving k a awaiting_leave h = inl refl
move_or_wait_leaving k a leaving h = inl tt
move_or_wait_leaving k a left_last h = inl tt
move_or_wait_leaving k a awaiting_enter h = inr (refl, refl)

module _ (k : ℕ) where
  some_or_full :
      (ts : List Thread)
      → All (IsEntering k) ts
      → All IsInside ts
      → SomeMoves enter ts ⊎ ((sum_by is_counted ts ≡ length ts) × (sum_by enters_last ts ≡ 0))
  some_or_full [] h i = inr (refl, refl)
  some_or_full (t ∷ ts) h i = elim (move_or_wait_entering k t.arrivals t.place h.0 i.0) [
    | inl m ↦ inl (t, inl refl, m)
    | inr stuck ↦ elim (some_or_full ts h.1 i.1) [
      | inl more ↦ inl (moves_later enter t ts more)
      | inr none ↦ inr (omega (arith, stuck, none), omega (arith, stuck, none))
    ]
  ]

  some_or_empty :
      (ts : List Thread)
      → All (IsLeaving k) ts
      → SomeMoves leave ts ⊎ ((sum_by is_counted ts ≡ 0) × (sum_by leaves_last ts ≡ 0))
  some_or_empty [] h = inr (refl, refl)
  some_or_empty (t ∷ ts) h = elim (move_or_wait_leaving k t.arrivals t.place h.0) [
    | inl m ↦ inl (t, inl refl, m)
    | inr stuck ↦ elim (some_or_empty ts h.1) [
      | inl more ↦ inl (moves_later leave t ts more)
      | inr none ↦ inr (omega (arith, stuck, none), omega (arith, stuck, none))
    ]
  ]

  Round-SomeMoves :
      (c n : ℕ) (m : Mode) (ts : List Thread) → Round k c n m ts → All IsInside ts → SomeMoves m ts
  Round-SomeMoves c n enter ts h i = elim (some_or_full ts h.4.0 i) [
    | inl some ↦ some
    | inr none ↦ absurd (ground (arith, h.2, h.3, h.4.1, none.0, none.1))
  ]
  Round-SomeMoves c n leave ts h i = elim (some_or_empty ts h.4.0) [
    | inl some ↦ some
    | inr none ↦ absurd (ground (arith, h.3, h.4.1, none.0, none.1))
  ]

-- Of `cardinal` threads, at least one and fewer than 2 ^ 64, in whatever order they have called
-- `sync`: whenever all are in it, some thread's next operation brings it on.
pub Steps-SomeMoves :
    (n : ℕ)
    → 0 < n
    → n < 2 ^ 64
    → (s : System) → Steps (start n) s
    → All IsInside s.threads
    → SomeMoves s.barrier.mode s.threads
Steps-SomeMoves n some small s steps inside =
    let (k, h) = Steps-IsRound n some small s steps in
    Round-SomeMoves k s.barrier.cardinal s.barrier.step s.barrier.mode s.threads h inside
