-- ===== src/Barrier/Moves.antt =====
-- One operation of a thread within a round (grading/common.hpp, `Barrier::sync`).
use transactional_memory.Base.{
  ℕ, suc, ◌+◌, ◌-◌, ◌≤◌, ◌<◌, ◌≡◌, sym, inl, inr, Bool, List, ◌∷◌, ◌++◌, ◌==◌, if◌then◌else◌,
  length, All-at, All-put, All-join, All-before, All-after, length-append_cons, sum_by,
  sum_by-append_cons, Bool-cases, arith,
}
use mathlib.Core.Path.{subst}
use transactional_memory.Words.{add64, sub64}
use transactional_memory.Barrier.{
  enter, leave, Place, outside, entered_last, awaiting_leave, leaving, left_last, awaiting_enter,
  after_add, after_sub, Thread, at,
}
use transactional_memory.Barrier.Rounds.{
  is_counted, enters_last, leaves_last, IsEntering, IsLeaving, Round, counted-le, to_leaving,
  to_entering,
}

module _ (xs ys : List Thread) where
  sum-counted :
      (p : Place) (a : ℕ)
      → sum_by is_counted (xs ++ at p a ∷ ys)
        ≡ sum_by is_counted xs + (is_counted (at p a) + sum_by is_counted ys)
  sum-counted p a = sum_by-append_cons is_counted xs (at p a) ys

  sum-enters :
      (p : Place) (a : ℕ)
      → sum_by enters_last (xs ++ at p a ∷ ys)
        ≡ sum_by enters_last xs + (enters_last (at p a) + sum_by enters_last ys)
  sum-enters p a = sum_by-append_cons enters_last xs (at p a) ys

  sum-leaves :
      (p : Place) (a : ℕ)
      → sum_by leaves_last (xs ++ at p a ∷ ys)
        ≡ sum_by leaves_last xs + (leaves_last (at p a) + sum_by leaves_last ys)
  sum-leaves p a = sum_by-append_cons leaves_last xs (at p a) ys

  length-threads : (p : Place) (a : ℕ) → length (xs ++ at p a ∷ ys) ≡ suc (length xs + length ys)
  length-threads p a = length-append_cons xs (at p a) ys

  module _ (k c n a : ℕ) where
    -- One step of a thread, in each mode: what it changes in the sums and at the thread.
    pub move_entering :
        (p q : Place) (b n' : ℕ)
        → Round k c n enter (xs ++ at p a ∷ ys)
        → is_counted (at q b) + n ≡ is_counted (at p a) + n'
        → (IsEntering k (at p a) → IsEntering k (at q b))
        → enters_last (at q b) + (if n == c then 1 else 0)
          ≡ enters_last (at p a) + (if n' == c then 1 else 0)
        → Round k c n' enter (xs ++ at q b ∷ ys)
    move_entering p q b n' (h0, h1, h2, h3, h4) e f g = (
      h0,
      h1,
      omega (arith, h2, length-threads p a, length-threads q b),
      omega (arith, h3, e, sum-counted p a, sum-counted q b),
      (
        All-put (IsEntering k) xs (at p a) ys (at q b) (h4.0)
            (f (All-at (IsEntering k) xs (at p a) ys (h4.0))),
        omega (arith, h4.1, g, sum-enters p a, sum-enters q b),
      ),
    )

    pub move_leaving :
        (p q : Place) (b n' : ℕ)
        → Round k c n leave (xs ++ at p a ∷ ys)
        → is_counted (at q b) + n ≡ is_counted (at p a) + n'
        → (IsLeaving k (at p a) → IsLeaving k (at q b))
        → leaves_last (at q b) + (if n == 0 then 1 else 0)
          ≡ leaves_last (at p a) + (if n' == 0 then 1 else 0)
        → Round k c n' leave (xs ++ at q b ∷ ys)
    move_leaving p q b n' (h0, h1, h2, h3, h4) e f g = (
      h0,
      h1,
      omega (arith, h2, length-threads p a, length-threads q b),
      omega (arith, h3, e, sum-counted p a, sum-counted q b),
      (
        All-put (IsLeaving k) xs (at p a) ys (at q b) (h4.0)
            (f (All-at (IsLeaving k) xs (at p a) ys (h4.0))),
        omega (arith, h4.1, g, sum-leaves p a, sum-leaves q b),
      ),
    )

    pub adds-Round :
        Round k c n enter (xs ++ at outside a ∷ ys)
        → Round k c (add64 n 1) enter (xs ++ at (after_add (add64 n 1 == c)) (a + 1) ∷ ys)
    adds-Round h =
        let below : n < c = omega (
          arith,
          h.2,
          h.3,
          length-threads outside a,
          sum-counted outside a,
          counted-le xs,
          counted-le ys,
        ) in
        let e : add64 n 1 ≡ n + 1 = omega (arith, below, h.1) in
        let P : Bool → Type 0 =
          λ b. Round k c (n + 1) enter (xs ++ at (after_add b) (a + 1) ∷ ys) in
        rw e (elim (Bool-cases (n + 1 == c)) [
          | inl t ↦ subst P (sym t) (
              move_entering outside entered_last (a + 1) (n + 1) h (omega arith)
                (λ p. omega (arith, p)) (ground arith))
          | inr f ↦ subst P (sym f) (
              move_entering outside awaiting_leave (a + 1) (n + 1) h (omega arith)
                (λ p. omega (arith, p)) (ground arith))
        ])

    pub subtracts-Round :
        Round k c n leave (xs ++ at leaving a ∷ ys)
        → Round k c (sub64 n 1) leave (xs ++ at (after_sub (sub64 n 1 == 0)) a ∷ ys)
    subtracts-Round h =
        let above : 0 < n = omega (arith, h.3, sum-counted leaving a) in
        let small : n ≤ c = omega (arith, h.2, h.3, counted-le (xs ++ at leaving a ∷ ys)) in
        let e : sub64 n 1 ≡ n - 1 = omega (arith, above, small, h.1) in
        let P : Bool → Type 0 = λ b. Round k c (n - 1) leave (xs ++ at (after_sub b) a ∷ ys) in
        rw e (elim (Bool-cases (n - 1 == 0)) [
          | inl t ↦
              subst P (sym t)
                (move_leaving leaving left_last a (n - 1) h (omega arith) (λ p. p) (ground arith))
          | inr f ↦ subst P (sym f) (
              move_leaving leaving awaiting_enter a (n - 1) h (omega arith) (λ p. p) (ground arith))
        ])

    -- The last thread of each half: every other one has done its part.
    last_enters :
        Round k c n enter (xs ++ at entered_last a ∷ ys)
        → (n ≡ c)
          × (sum_by enters_last xs ≡ 0)
          × (sum_by enters_last ys ≡ 0)
          × (sum_by is_counted xs ≡ length xs)
          × (sum_by is_counted ys ≡ length ys)
    last_enters (h0, h1, h2, h3, h4) =
        let e : n ≡ c = ground (arith, h4.1, sum-enters entered_last a) in
        (
          e,
          ground (arith, h4.1, sum-enters entered_last a),
          ground (arith, h4.1, sum-enters entered_last a),
          omega (
            arith,
            e,
            h2,
            h3,
            length-threads entered_last a,
            sum-counted entered_last a,
            counted-le xs,
            counted-le ys,
          ),
          omega (
            arith,
            e,
            h2,
            h3,
            length-threads entered_last a,
            sum-counted entered_last a,
            counted-le xs,
            counted-le ys,
          ),
        )

    last_leaves :
        Round k c n leave (xs ++ at left_last a ∷ ys)
        → (n ≡ 0)
          × (sum_by leaves_last xs ≡ 0)
          × (sum_by leaves_last ys ≡ 0)
          × (sum_by is_counted xs ≡ 0)
          × (sum_by is_counted ys ≡ 0)
    last_leaves (h0, h1, h2, h3, h4) =
        let e : n ≡ 0 = ground (arith, h4.1, sum-leaves left_last a) in
        (
          e,
          ground (arith, h4.1, sum-leaves left_last a),
          ground (arith, h4.1, sum-leaves left_last a),
          omega (arith, e, h3, sum-counted left_last a),
          omega (arith, e, h3, sum-counted left_last a),
        )

    pub set_leave-Round :
        Round k c n enter (xs ++ at entered_last a ∷ ys)
        → Round k c n leave (xs ++ at leaving a ∷ ys)
    set_leave-Round h =
        let (full, ex, ey, cx, cy) = last_enters h in
        let all = h.4 in
        let P = IsEntering k in
        let (lx, zx) = to_leaving k xs (All-before P xs (at entered_last a ∷ ys) all.0) cx ex in
        let (ly, zy) = to_leaving k ys ((All-after P xs (at entered_last a ∷ ys) all.0).1) cy ey in
        (
          h.0,
          h.1,
          omega (arith, h.2, length-threads entered_last a, length-threads leaving a),
          omega (arith, h.3, sum-counted entered_last a, sum-counted leaving a),
          (
            All-join (IsLeaving k) xs (at leaving a ∷ ys) lx
                (All-at P xs (at entered_last a) ys all.0, ly),
            ground (arith, h.0, full, zx, zy, sum-leaves leaving a),
          ),
        )

    pub set_enter-Round :
        Round k c n leave (xs ++ at left_last a ∷ ys)
        → Round (k + 1) c n enter (xs ++ at outside a ∷ ys)
    set_enter-Round h =
        let (empty, ex, ey, cx, cy) = last_leaves h in
        let all = h.4 in
        let P = IsLeaving k in
        let (lx, zx) = to_entering k xs (All-before P xs (at left_last a ∷ ys) all.0) cx ex in
        let (ly, zy) = to_entering k ys ((All-after P xs (at left_last a ∷ ys) all.0).1) cy ey in
        (
          h.0,
          h.1,
          omega (arith, h.2, length-threads left_last a, length-threads outside a),
          omega (arith, h.3, sum-counted left_last a, sum-counted outside a),
          (
            All-join (IsEntering (k + 1)) xs (at outside a ∷ ys) lx
                (All-at P xs (at left_last a) ys all.0, ly),
            ground (arith, h.0, empty, zx, zy, sum-enters outside a),
          ),
        )
