-- ===== src/Words/Pow2.antt =====
-- `next_pow2` of template/common.h gives the least power of two that holds its argument, as far
-- as its shift at type `int` reaches.
use native.Mathlib.Nat.{pow-suc, pow-le-pow_right}
use transactional_memory.Base.{
  ℕ, zero, suc, ◌-◌, ◌*◌, ◌/◌, ◌^◌, ◌≤◌, ◌<◌, ◌≡◌, ◌≢◌, refl, inl, inr, none, some, ◌==◌, lt→ltb,
  ge→ltb, Bool-cases, ==_iff, arith, dec_lt,
}
use transactional_memory.Words.{bit_length, clzl, pow2_exp, pow2, next_pow2, sub64}

pub lt_of_pow-lt : (i j : ℕ) → 2 ^ i < 2 ^ j → i < j
lt_of_pow-lt i j h = elim (dec_lt i j) [
  | yes p ↦ p
  | no p ↦
      absurd (omega (arith, pow-le-pow_right {n = 2} (omega arith) {i = j} {j = i} (omega arith)))
]

bit_length-zero : (f : ℕ) → bit_length f 0 ≡ 0
unfolding bit_length
bit_length-zero zero = refl
bit_length-zero (suc f) = refl

bit_length_top :
    (f n : ℕ)
    → (n / 2 ≢ 0 → 2 ^ bit_length f (n / 2) ≤ 2 * (n / 2))
    → n ≢ 0
    → 2 ^ suc (bit_length f (n / 2)) ≤ 2 * n
bit_length_top f n ih p = elim (Bool-cases (n / 2 == 0)) [
  | inl z ↦ let e : n / 2 ≡ 0 = (==_iff (n / 2) 0).0 z in rw (e, bit_length-zero) (omega arith)
  | inr nz ↦ omega (arith, pow-suc 2 (bit_length f (n / 2)), ih (ground arith))
]

bit_length_bounds :
    (f n : ℕ)
    → n < 2 ^ f
    → (n < 2 ^ bit_length f n) × (bit_length f n ≤ f) × (n ≢ 0 → 2 ^ bit_length f n ≤ 2 * n)
unfolding bit_length
bit_length_bounds zero n h = (omega arith, omega arith, λ p. absurd (omega arith))
bit_length_bounds (suc f) n h = elim (Bool-cases (n == 0)) [
  | inl z ↦ rw z (ground arith, omega arith, λ p. absurd (p ((==_iff n 0).0 z)))
  | inr nz ↦ rw nz (
      let ih = bit_length_bounds f (n / 2) (omega (arith, pow-suc 2 f)) in
      (
        omega (arith, pow-suc 2 (bit_length f (n / 2)), ih.0),
        omega (arith, ih.1),
        bit_length_top f n ih.2,
      ))
]

module _ (x : ℕ) (lo : 1 < x) (hi : x < 2 ^ 64) where
  -- The exponent is the least one whose power reaches `x`.
  pub pow2_exp_bounds : (x ≤ 2 ^ pow2_exp x) × (2 ^ pow2_exp x < 2 * x) × (pow2_exp x ≤ 64)
  unfolding pow2_exp clzl
  pow2_exp_bounds =
      let e : sub64 x 1 ≡ x - 1 = omega arith in
      let b = bit_length_bounds 64 (x - 1) (omega arith) in
      let s : 64 - (64 - bit_length 64 (x - 1)) ≡ bit_length 64 (x - 1) = omega (arith, b.1) in
      rw (e, s) (omega (arith, b.0), omega (arith, b.2 (omega arith)), omega (arith, b.1))

  -- From 2 up to 2 ^ 30 the result of `next_pow2` is a power of two, at least `x` and below `2 * x`, whose exponent
  -- `pow2_exp` gives.
  pub next_pow2-pow2_exp :
      x ≤ 2 ^ 30
      → (next_pow2 x ≡ some (2 ^ pow2_exp x)) × (x ≤ 2 ^ pow2_exp x) × (2 ^ pow2_exp x < 2 * x)
  unfolding next_pow2 pow2
  next_pow2-pow2_exp small =
      let b = pow2_exp_bounds in
      let e : pow2_exp x < 31 = lt_of_pow-lt (pow2_exp x) 31 (omega (arith, b.1)) in
      (rw (lt→ltb (pow2_exp x) 31 e), b.0, b.1)

  -- For a number above 2 ^ 30 and below 2 ^ 64 the shift of `next_pow2` at type `int` is undefined.
  pub next_pow2-none : 2 ^ 30 < x → next_pow2 x ≡ none
  unfolding next_pow2 pow2
  next_pow2-none big =
      let b = pow2_exp_bounds in
      let e : 30 < pow2_exp x = lt_of_pow-lt 30 (pow2_exp x) (omega (arith, b.0)) in
      rw (ge→ltb (pow2_exp x) 31 e)
