-- ===== src/Segment/Alloc/Allocate.antt =====
-- `alloc_segment` (template/segment.c) on each of its branches.
use transactional_memory.Base.{
  ℕ, ◌+◌, ◌%◌, ◌^◌, ◌≤◌, ◌<◌, ◌≡◌, refl, false, Option, none, some, ok, fault, Ensures, ◌==◌, arith,
}
use transactional_memory.Words.{pow2_exp}
use transactional_memory.Words.Pow2.{next_pow2-pow2_exp, next_pow2-none}
use transactional_memory.Segment.{Segment}
use transactional_memory.Segment.Alloc.{seg_size, new_segment, alloc_segment}
use transactional_memory.Segment.Alloc.Layout.{fst_aligned_offset_bounds, IsBlock}

-- What `posix_memalign` documents of a success, in a 48-bit address space.
pub record IsMemalign (memalign : ℕ → ℕ → Option ℕ) : Type 0 where
  pub aligned : (a s p : ℕ) → memalign a s ≡ some p → p % a ≡ 0
  pub user : (a s p : ℕ) → memalign a s ≡ some p → p + s ≤ 2 ^ 48

-- A block and the new segment in it, or no memory of the size that was asked for.
abbrev pub Allocated :
    (memalign : ℕ → ℕ → Option ℕ) → (align size tx : ℕ) → Option (ℕ × Segment) → Type 0
Allocated memalign align size tx none =
    let alloc = 2 ^ pow2_exp (seg_size align size) in memalign alloc alloc ≡ none
Allocated memalign align size tx (some (p, seg)) =
    let alloc = 2 ^ pow2_exp (seg_size align size) in
    IsBlock align size p × (seg ≡ new_segment align size tx p) × (memalign alloc alloc ≡ some p)

module _ (memalign : ℕ → ℕ → Option ℕ) (align size tx : ℕ) (pos : 0 < align) where
  positive : (align == 0) ≡ false
  positive = ground arith

  larger : 1 < seg_size align size
  larger = omega (arith, (fst_aligned_offset_bounds align pos).0)

  module _ (doc : IsMemalign memalign) (small : seg_size align size ≤ 2 ^ 30) where
    at_block :
        (o : Option ℕ)
        → memalign (2 ^ pow2_exp (seg_size align size)) (2 ^ pow2_exp (seg_size align size)) ≡ o
        → Ensures
            (Allocated memalign align size tx)
            (elim o [ none ↦ ok none | some p ↦ ok (some (p, new_segment align size tx p)) ])
    at_block none e = e
    at_block (some p) e = (
      record {
        aligned = pos;
        small = small;
        block_aligned = doc.aligned _ _ p e;
        user = doc.user _ _ p e;
      },
      refl,
      e,
    )

    -- With parts of up to 2 ^ 30 bytes an allocation returns: a block with the layout of a
    -- segment and the new segment in it, or no block where `posix_memalign` has none.
    pub alloc_segment-Allocated :
        Ensures (Allocated memalign align size tx) (alloc_segment memalign align size tx)
    unfolding alloc_segment
    alloc_segment-Allocated =
        let wrap : seg_size align size % 2 ^ 64 ≡ seg_size align size = omega arith in
        let sized = next_pow2-pow2_exp (seg_size align size) larger (omega arith) small in
        rw (positive, wrap, sized.0) (at_block _ refl)

  -- With an alignment that is not 0, an allocation whose parts take more than 2 ^ 30 bytes, and fewer
  -- than 2 ^ 64, has undefined behaviour in `next_pow2`, whatever memory there is.
  pub alloc_segment-fault :
      2 ^ 30 < seg_size align size
      → seg_size align size < 2 ^ 64
      → alloc_segment memalign align size tx ≡ fault
  unfolding alloc_segment
  alloc_segment-fault big bound =
      let wrap : seg_size align size % 2 ^ 64 ≡ seg_size align size = omega arith in
      rw (positive, wrap, next_pow2-none (seg_size align size) larger bound big)
