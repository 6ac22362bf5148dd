-- ===== src/Words/Tests.antt =====
-- Sizes of segments (template/common.h).
use transactional_memory.Base.{◌*◌, ◌^◌, ◌≤◌, ◌<◌, ◌≡◌, refl, some, arith}
use transactional_memory.Words.{bit_length, clzl, pow2_exp, pow2, next_pow2}
use transactional_memory.Words.Pow2.{next_pow2-pow2_exp}

next_pow2-pow2_exp_example :
    (next_pow2 176 ≡ some (2 ^ pow2_exp 176))
    × (176 ≤ 2 ^ pow2_exp 176)
    × (2 ^ pow2_exp 176 < 2 * 176)
next_pow2-pow2_exp_example = next_pow2-pow2_exp 176 (omega arith) (omega arith) (omega arith)

power_is_kept : next_pow2 256 ≡ some 256
unfolding next_pow2 pow2 pow2_exp clzl bit_length
power_is_kept = refl

power_above : next_pow2 257 ≡ some 512
unfolding next_pow2 pow2 pow2_exp clzl bit_length
power_above = refl
