-- ===== src/Opaque.antt =====
-- Opaque pointers (template/segment.h, template/segment.c): the upper 16 bits of an address carry
-- the exponent of the segment's alignment, so that the segment is found from any of its addresses.
use Prim.Native.Nat.{bit_and, bit_or, bit_xor}
use transactional_memory.Base.{
  ℕ, ◌+◌, ◌-◌, ◌*◌, ◌/◌, ◌%◌, ◌^◌, Bool, Option, none, some, ltb, if◌then◌else◌,
}
use transactional_memory.Words.{sub64}
pub mod Pointer
pub mod ReadOnly
pub mod Tests

abbrev pub uint64_max : ℕ
uint64_max = 2 ^ 64 - 1

-- `*ptr = *ptr | exp << 48`
unfoldable pub cons_opaque_ptr : (exp ptr : ℕ) → ℕ
cons_opaque_ptr exp ptr = bit_or ptr (exp * 2 ^ 48 % 2 ^ 64)

unfoldable pub get_opaque_ptr_word : ℕ → ℕ
get_opaque_ptr_word ptr = bit_and ptr (2 ^ 48 - 1)

-- `1 << exp` has type `int`, so an exponent of 31 and more is undefined, which is `none`.
unfoldable pub get_opaque_ptr_seg_word : (ptr word : ℕ) → Option ℕ
get_opaque_ptr_seg_word ptr word =
    let exp = ptr / 2 ^ 48 in
    if ltb exp 31 then some (bit_and word (bit_xor uint64_max (2 ^ exp - 1))) else none

unfoldable pub get_opaque_ptr_seg : ℕ → Option ℕ
unfolding get_opaque_ptr_word get_opaque_ptr_seg_word
get_opaque_ptr_seg ptr = get_opaque_ptr_seg_word ptr (get_opaque_ptr_word ptr)

-- `word - seg->read`
abbrev pub get_word_seg_offset : (word read : ℕ) → ℕ
get_word_seg_offset word read = sub64 word read

abbrev pub read_only_tx : ℕ
read_only_tx = uint64_max / 2 + 1

unfoldable pub is_tx_readonly : ℕ → Bool
is_tx_readonly tx = ltb 0 (bit_and tx read_only_tx)
