-- ===== src/Words.antt =====
-- template/common.h: the powers of two that size a segment. `size_t` is 64 bits wide and `int`
-- is 32 bits wide. `__builtin_clzl(0)` is undefined; here it is 64.
use transactional_memory.Base.{
  ℕ, zero, suc, ◌+◌, ◌-◌, ◌/◌, ◌%◌, ◌^◌, Option, none, some, ltb, ◌==◌, if◌then◌else◌,
}
pub mod Pow2
pub mod Tests

-- Sums and differences of `size_t` and `uint64_t` wrap.
abbrev pub add64 : ℕ → ℕ → ℕ
add64 a b = (a + b) % 2 ^ 64

abbrev pub sub64 : ℕ → ℕ → ℕ
sub64 a b = (a + 2 ^ 64 - b) % 2 ^ 64

-- The number of binary digits, of a number of at most `f` digits.
unfoldable pub bit_length : ℕ → ℕ → ℕ
bit_length zero n = 0
bit_length (suc f) n = if n == 0 then 0 else suc (bit_length f (n / 2))

-- `__builtin_clzl`
unfoldable pub clzl : ℕ → ℕ
unfolding bit_length
clzl x = 64 - bit_length 64 x

unfoldable pub pow2_exp : ℕ → ℕ
unfolding clzl
pow2_exp x = 64 - clzl (sub64 x 1)

-- `1 << exp` at type `int`: from 31 on the shift is undefined, which is `none`.
unfoldable pub pow2 : ℕ → Option ℕ
pow2 exp = if ltb exp 31 then some (2 ^ exp) else none

unfoldable pub next_pow2 : ℕ → Option ℕ
unfolding pow2
next_pow2 x = pow2 (pow2_exp x)
