-- ===== src/Opaque/Tests.antt =====
-- An opaque pointer (template/segment.h).
use transactional_memory.Base.{◌≡◌, refl}
use transactional_memory.Opaque.{cons_opaque_ptr, get_opaque_ptr_word}

-- Byte 150 of a segment of 256 bytes at 1024, from an opaque pointer to its byte 144.

a_pointer : cons_opaque_ptr 8 1168 ≡ 0x8000000000490
unfolding cons_opaque_ptr
a_pointer = refl

its_word : get_opaque_ptr_word 0x8000000000490 ≡ 1168
unfolding get_opaque_ptr_word
its_word = refl
