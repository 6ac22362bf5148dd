-- ===== src/Bits.antt =====
-- Masks and shifted fields: what `bit_and`, `bit_or` and `bit_xor` do on the forms that the
-- opaque pointers of template/segment.h use.
use Prim.Native.Nat.{min, max, bit_and, bit_or, digits, bit_and-bitwise, bit_or-bitwise}
use native.Mathlib.Nat.{pow-suc}
use transactional_memory.Base.{ℕ, zero, suc, ◌+◌, ◌*◌, ◌/◌, ◌%◌, ◌^◌, ◌≤◌, ◌<◌, ◌≡◌, refl, arith}

-- Any fuel that reaches the first argument gives the same digits, whatever is done to each pair.
module _ (rest : ℕ → ℕ) (pair : ℕ → ℕ → ℕ) where
  digits-enough : (f g x y : ℕ) → x ≤ f → x ≤ g → digits rest pair f x y ≡ digits rest pair g x y
  digits-enough zero zero x y l r = refl
  digits-enough zero (suc g) zero y l r = refl
  digits-enough (suc f) zero zero y l r = refl
  digits-enough (suc f) (suc g) zero y l r = refl
  digits-enough zero (suc g) (suc x) y l r = absurd (omega arith)
  digits-enough (suc f) zero (suc x) y l r = absurd (omega arith)
  digits-enough (suc f) (suc g) (suc x) y l r =
      omega (arith, digits-enough f g (suc x / 2) (y / 2) (omega arith) (omega arith))

-- Each operation works digit by digit, from the lowest.
bit_and_step : (x y : ℕ) → bit_and x y ≡ bit_and (x / 2) (y / 2) * 2 + min (x % 2) (y % 2)
bit_and_step zero y = omega (arith, bit_and-bitwise 0 y, bit_and-bitwise 0 (y / 2))
bit_and_step (suc x) y =
    let half : suc x / 2 ≤ x = omega arith in
    omega (
      arith,
      bit_and-bitwise (suc x / 2) (y / 2),
      bit_and-bitwise (suc x) y,
      digits-enough (λ _. zero) min x (suc x / 2) (suc x / 2) (y / 2) half (omega arith),
    )

bit_or_step : (x y : ℕ) → bit_or x y ≡ bit_or (x / 2) (y / 2) * 2 + max (x % 2) (y % 2)
bit_or_step zero y = omega (arith, bit_or-bitwise 0 y, bit_or-bitwise 0 (y / 2))
bit_or_step (suc x) y =
    let half : suc x / 2 ≤ x = omega arith in
    omega (
      arith,
      bit_or-bitwise (suc x / 2) (y / 2),
      bit_or-bitwise (suc x) y,
      digits-enough (λ t. t) max x (suc x / 2) (suc x / 2) (y / 2) half (omega arith),
    )

bit_and-zero : (f x : ℕ) → x ≤ f → bit_and x 0 ≡ 0
bit_and-zero f zero h = refl
bit_and-zero zero (suc x) h = absurd (omega arith)
bit_and-zero (suc f) (suc x) h =
    let ih = bit_and-zero f (suc x / 2) (omega arith) in omega (arith, bit_and_step (suc x) 0, ih)

double : (q k : ℕ) → q * 2 ^ suc k ≡ 2 * (q * 2 ^ k)
double q k = rw pow-suc (omega arith)

-- A mask of `k` ones keeps the low `k` bits.
pub bit_and-mask : (k a m q r : ℕ) → m + 1 ≡ 2 ^ k → a ≡ q * 2 ^ k + r → r < 2 ^ k → bit_and a m ≡ r
bit_and-mask zero a m q r e d h =
    let z : m ≡ 0 = omega arith in rw z (omega (arith, bit_and-zero a a (omega arith)))
bit_and-mask (suc k) a m q r e d h = omega (
  arith,
  bit_and_step a m,
  bit_and-mask k (a / 2) (m / 2) q (r / 2) (omega (arith, pow-suc 2 k)) (omega (arith, double q k))
      (omega (arith, pow-suc 2 k)),
  pow-suc 2 k,
  double q k,
)

-- A mask of `n` ones whose low `e` bits are cleared clears the low `e` bits.
pub bit_and-high :
    (e n a m q r : ℕ)
    → e ≤ n
    → m + 2 ^ e ≡ 2 ^ n
    → a < 2 ^ n
    → a ≡ q * 2 ^ e + r
    → r < 2 ^ e
    → bit_and a m ≡ q * 2 ^ e
bit_and-high zero n a m q r le f b d h =
    omega (arith, bit_and-mask n a m 0 a (omega arith) (omega arith) b)
bit_and-high (suc e) zero a m q r le f b d h = absurd (omega arith)
bit_and-high (suc e) (suc n) a m q r le f b d h = omega (
  arith,
  bit_and_step a m,
  bit_and-high e n (a / 2) (m / 2) q (r / 2) (omega arith) (omega (arith, pow-suc 2 e, pow-suc 2 n))
      (omega (arith, pow-suc 2 n)) (omega (arith, double q e)) (omega (arith, pow-suc 2 e)),
  pow-suc 2 e,
  pow-suc 2 n,
  double q e,
)

-- A field above the low `k` bits is added.
pub bit_or-field : (k a b m : ℕ) → a < 2 ^ k → m ≡ b * 2 ^ k → bit_or a m ≡ a + m
bit_or-field zero a b m h e =
    let z : a ≡ 0 = omega arith in rw z (omega (arith, bit_or-bitwise 0 m))
bit_or-field (suc k) a b m h e = omega (
  arith,
  pow-suc 2 k,
  double b k,
  bit_or_step a m,
  bit_or-field k (a / 2) b (m / 2) (omega (arith, pow-suc 2 k))
      (omega (arith, pow-suc 2 k, double b k)),
)
