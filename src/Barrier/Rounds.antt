-- ===== src/Barrier/Rounds.antt =====
-- The rounds of the barrier: what its fields say of the threads (grading/common.hpp).
use transactional_memory.Base.{
  ℕ, ◌+◌, ◌^◌, ◌≤◌, ◌<◌, ◌≡◌, refl, List, [], ◌∷◌, ◌==◌, if◌then◌else◌, length, All, sum_by, arith,
}
use transactional_memory.Barrier.{
  Mode, enter, leave, outside, entered_last, awaiting_leave, leaving, left_last, awaiting_enter,
  Thread, System,
}

-- A thread has added to `step`, and not subtracted yet.
abbrev pub is_counted : Thread → ℕ
is_counted t = elim (t.place) [
  | outside ↦ 0
  | entered_last ↦ 1
  | awaiting_leave ↦ 1
  | leaving ↦ 1
  | left_last ↦ 0
  | awaiting_enter ↦ 0
]

abbrev pub enters_last : Thread → ℕ
enters_last t = elim (t.place) [ entered_last ↦ 1 | _ ↦ 0 ]

abbrev pub leaves_last : Thread → ℕ
leaves_last t = elim (t.place) [ left_last ↦ 1 | _ ↦ 0 ]

-- In the k-th round, while the mode is `enter` and while it is `leave`.
abbrev pub IsEntering : ℕ → Thread → Type 0
IsEntering k t = elim (t.place) [
  | outside ↦ t.arrivals ≡ k
  | entered_last ↦ t.arrivals ≡ k + 1
  | awaiting_leave ↦ t.arrivals ≡ k + 1
  | leaving ↦ ⊥
  | left_last ↦ ⊥
  | awaiting_enter ↦ t.arrivals ≡ k
]

abbrev pub IsLeaving : ℕ → Thread → Type 0
IsLeaving k t = elim (t.place) [
  | outside ↦ ⊥
  | entered_last ↦ ⊥
  | awaiting_leave ↦ t.arrivals ≡ k + 1
  | leaving ↦ t.arrivals ≡ k + 1
  | left_last ↦ t.arrivals ≡ k + 1
  | awaiting_enter ↦ t.arrivals ≡ k + 1
]

abbrev pub InMode : Mode → (cardinal step k : ℕ) → List Thread → Type 0
InMode enter c n k ts = All (IsEntering k) ts × (sum_by enters_last ts ≡ (if n == c then 1 else 0))
InMode leave c n k ts = All (IsLeaving k) ts × (sum_by leaves_last ts ≡ (if n == 0 then 1 else 0))

abbrev pub Round : (k c n : ℕ) → Mode → List Thread → Type 0
Round k c n m ts =
    (0 < c) × (c < 2 ^ 64) × (length ts ≡ c) × (sum_by is_counted ts ≡ n) × InMode m c n k ts

-- The k-th round of the barrier.
abbrev pub IsRound : ℕ → System → Type 0
IsRound k s = Round k s.barrier.cardinal s.barrier.step s.barrier.mode s.threads

pub counted-le : (ts : List Thread) → sum_by is_counted ts ≤ length ts
counted-le [] = omega arith
counted-le (t ∷ ts) = grind (arith, counted-le ts)

-- All have added, and none is the last: all wait for the mode `leave`.
pub to_leaving :
    (k : ℕ) (ts : List Thread)
    → All (IsEntering k) ts
    → sum_by is_counted ts ≡ length ts
    → sum_by enters_last ts ≡ 0
    → All (IsLeaving k) ts × (sum_by leaves_last ts ≡ 0)
to_leaving k [] h c e = (tt, refl)
to_leaving k (t ∷ ts) h c e = ground (arith, counted-le ts, to_leaving k ts)

-- All have subtracted, and none is the last: all wait for the mode `enter`.
pub to_entering :
    (k : ℕ) (ts : List Thread)
    → All (IsLeaving k) ts
    → sum_by is_counted ts ≡ 0
    → sum_by leaves_last ts ≡ 0
    → All (IsEntering (k + 1)) ts × (sum_by enters_last ts ≡ 0)
to_entering k [] h c e = (tt, refl)
to_entering k (t ∷ ts) h c e = ground (arith, to_entering k ts)
