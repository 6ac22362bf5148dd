-- ===== src/Segment/Alloc.antt =====
-- `alloc_segment` (template/segment.c) and the layout of a segment in its block of memory, on an
-- LP64 platform where a `pthread_mutex_t` has 40 bytes.
use transactional_memory.Base.{
  ℕ, ◌+◌, ◌*◌, ◌/◌, ◌%◌, ◌^◌, true, false, Option, none, some, Run, ok, fault, ◌==◌, if◌then◌else◌,
}
use transactional_memory.Words.{add64, pow2_exp, next_pow2}
use transactional_memory.Word.{untouched}
use transactional_memory.Segment.{Segment}
pub mod Layout
pub mod Allocate

abbrev pub sizeof_segment : ℕ
sizeof_segment = 112

abbrev pub sizeof_control : ℕ
sizeof_control = 16

abbrev pub canary_addr : ℕ
canary_addr = 0xDEADC0DE

unfoldable pub fst_aligned_offset : ℕ → ℕ
fst_aligned_offset align =
    let ratio = sizeof_segment / align in
    let is_multiple = if sizeof_segment % align == 0 then 0 else 1 in
    ratio * align + align * is_multiple

abbrev pub control_size : (align size : ℕ) → ℕ
control_size align size = size / align * sizeof_control

-- `seg_size`, before it wraps
abbrev pub seg_size : (align size : ℕ) → ℕ
seg_size align size = fst_aligned_offset align + control_size align size + size * 2

-- The fields of a new segment in the block at `p`. `link` is set by `link_insert`.
unfoldable pub new_segment : (align size tx p : ℕ) → Segment
new_segment align size tx p =
    let at = p + fst_aligned_offset align in
    record {
      canary = canary_addr;
      size = size;
      pow2_exp = pow2_exp (seg_size align size % 2 ^ 64);
      owner = tx;
      link = 0;
      newly_alloc = true;
      should_free = false;
      dirty = true;
      rollback = false;
      control_at = at;
      read_at = at + control_size align size;
      write_at = at + control_size align size + size;
      control = λ _. untouched;
      read = λ _. 0;
      write = λ _. 0;
    }

-- `memalign` stands for `posix_memalign`: the alignment and the size, and `none` on failure, for
-- which the code returns 1. A division by `align` 0 and a shift that is undefined are faults.
unfoldable pub alloc_segment :
    (memalign : ℕ → ℕ → Option ℕ) → (align size tx : ℕ) → Run (Option (ℕ × Segment))
alloc_segment memalign align size tx =
    if align == 0 then fault else elim (next_pow2 (seg_size align size % 2 ^ 64)) [
      | none ↦ fault
      | some alloc ↦ elim (memalign alloc alloc) [
        | none ↦ ok none
        | some p ↦ ok (some (p, new_segment align size tx p))
      ]
    ]
