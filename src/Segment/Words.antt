-- ===== src/Segment/Words.antt =====
-- Words of a buffer: the bytes `i * align` to `i * align + align`.
use native.Mathlib.Nat.{mul-le-mul_right, div-add-mod}
use transactional_memory.Base.{
  ℕ, suc, ◌+◌, ◌-◌, ◌*◌, ◌/◌, ◌≤◌, ◌<◌, ◌≡◌, ◌≢◌, ◌⊎◌, inl, inr, arith, dec_lt, ap, ◌∙◌,
}
use transactional_memory.Segment.{Bytes, memcpy}

pub word_apart : (a i j k : ℕ) → k < a → i < j → i * a + k < j * a
word_apart a i j k h l = omega (arith, mul-le-mul_right a l)

-- Two different words share no byte.
pub words_disjoint : (a i j k : ℕ) → k < a → i ≢ j → (i * a + k < j * a) ⊎ (j * a + a ≤ i * a + k)
words_disjoint a i j k h ne = elim (dec_lt i j) [
  | yes l ↦ inl (word_apart a i j k h l)
  | no l ↦ inr (omega (arith, mul-le-mul_right {m = suc j} {n = i} a (omega arith)))
]

module _ (dst src : Bytes) (d s n : ℕ) where
  pub memcpy-inside : (j : ℕ) → d ≤ j → j < d + n → memcpy dst d src s n j ≡ src (s + (j - d))
  unfolding memcpy
  memcpy-inside j l h = ground arith

  pub memcpy-below : (j : ℕ) → j < d → memcpy dst d src s n j ≡ dst j
  unfolding memcpy
  memcpy-below j h = ground arith

  pub memcpy-above : (j : ℕ) → d + n ≤ j → memcpy dst d src s n j ≡ dst j
  unfolding memcpy
  memcpy-above j h = ground arith

module _ (dst src : Bytes) (a i s : ℕ) where
  pub memcpy-word : (k : ℕ) → k < a → memcpy dst (i * a) src s a (i * a + k) ≡ src (s + k)
  memcpy-word k h =
      let e : i * a + k - i * a ≡ k = omega arith in
      memcpy-inside dst src (i * a) s a (i * a + k) (omega arith) (omega arith)
      ∙ ap (λ t. src (s + t)) e

  pub memcpy-other_word :
      (j k : ℕ) → k < a → j ≢ i → memcpy dst (i * a) src s a (j * a + k) ≡ dst (j * a + k)
  memcpy-other_word j k h ne = elim (words_disjoint a j i k h ne) [
    | inl l ↦ memcpy-below dst src (i * a) s a (j * a + k) l
    | inr l ↦ memcpy-above dst src (i * a) s a (j * a + k) l
  ]

-- A word with a control is inside the buffer.
pub word_inside : (a size i : ℕ) → i < size / a → i * a + a ≤ size
word_inside a size i h =
    omega (arith, mul-le-mul_right {m = suc i} {n = size / a} a h, div-add-mod size a)
