-- ===== src/Segment/Alloc/Layout.antt =====
-- The parts of a segment lie in its block one after the other, and every opaque pointer into it
-- leads back to it.
use native.Mathlib.Nat.{div-add-mod, div-add-mod', mod-lt, mul-mod_left}
use mathlib.Core.Path.{ap₂}
use transactional_memory.Base.{
  ℕ, ◌+◌, ◌-◌, ◌*◌, ◌/◌, ◌%◌, ◌^◌, ◌≤◌, ◌<◌, ◌≡◌, ◌≢◌, refl, ◌∙◌, ap, inl, inr, some, ◌==◌,
  Bool-cases, ==_iff, arith,
}
use transactional_memory.Words.{pow2_exp, next_pow2}
use transactional_memory.Words.Pow2.{next_pow2-pow2_exp, lt_of_pow-lt}
use transactional_memory.Opaque.{
  cons_opaque_ptr, get_opaque_ptr_word, get_opaque_ptr_seg, get_word_seg_offset,
}
use transactional_memory.Opaque.Pointer.{
  get_opaque_ptr_word-cons_opaque_ptr, get_opaque_ptr_seg-cons_opaque_ptr,
}
use transactional_memory.Segment.{Segment, cons_opaque_ptr_for_seg}
use transactional_memory.Segment.Alloc.{
  sizeof_segment, fst_aligned_offset, control_size, seg_size, new_segment,
}

module _ (align : ℕ) (pos : 0 < align) where
  -- The first multiple of `align` behind the header.
  pub fst_aligned_offset_bounds :
      (sizeof_segment ≤ fst_aligned_offset align)
      × (fst_aligned_offset align < sizeof_segment + align)
      × (fst_aligned_offset align % align ≡ 0)
  unfolding fst_aligned_offset
  fst_aligned_offset_bounds =
      let d = div-add-mod sizeof_segment align in
      let m = mod-lt sizeof_segment pos in
      let q : ℕ = sizeof_segment / align in
      elim (Bool-cases (sizeof_segment % align == 0)) [
        | inl z ↦
            let e : sizeof_segment % align ≡ 0 = (==_iff (sizeof_segment % align) 0).0 z in
            rw z (
              omega (arith, d, e),
              omega (arith, d, e, pos),
              ap (λ t. t % align) (omega arith) ∙ mul-mod_left q align,
            )
        | inr nz ↦
            let e : sizeof_segment % align ≢ 0 = ground arith in
            rw nz (
              omega (arith, d, m),
              omega (arith, d, e),
              ap (λ t. t % align) (omega arith) ∙ mul-mod_left (q + 1) align,
            )
      ]

-- The block of a segment, at an address that `posix_memalign` gave.
pub record IsBlock (align size p : ℕ) : Type 0 where
  pub aligned : 0 < align
  pub small : seg_size align size ≤ 2 ^ 30
  pub block_aligned : p % 2 ^ pow2_exp (seg_size align size) ≡ 0
  pub user : p + 2 ^ pow2_exp (seg_size align size) ≤ 2 ^ 48

module _ (align size tx p : ℕ) (block : IsBlock align size p) where
  open block use {aligned, small, block_aligned, user}

  abbrev seg : Segment
  seg = new_segment align size tx p

  seg_size-gt_one : 1 < seg_size align size
  seg_size-gt_one = omega (arith, (fst_aligned_offset_bounds align aligned).0)

  no_wrap : seg_size align size % 2 ^ 64 ≡ seg_size align size
  no_wrap = omega arith

  sized :
      (next_pow2 (seg_size align size) ≡ some (2 ^ pow2_exp (seg_size align size)))
      × (seg_size align size ≤ 2 ^ pow2_exp (seg_size align size))
      × (2 ^ pow2_exp (seg_size align size) < 2 * seg_size align size)
  sized = next_pow2-pow2_exp (seg_size align size) seg_size-gt_one (omega arith) small

  -- In a block that `posix_memalign` gave (`IsBlock`), for parts of up to 2 ^ 30 bytes, the header,
  -- the controls and the two copies follow one another without overlap inside the
  -- block, whose size and alignment are the power of two of the segment's `pow2_exp`.
  pub new_segment_layout :
      (p + sizeof_segment ≤ seg.control_at)
      × (seg.control_at + control_size align size ≡ seg.read_at)
      × (seg.read_at + size ≡ seg.write_at)
      × (seg.write_at + size ≤ p + 2 ^ seg.pow2_exp)
      × (p % 2 ^ seg.pow2_exp ≡ 0)
  unfolding new_segment
  new_segment_layout = rw no_wrap (
    omega (arith, (fst_aligned_offset_bounds align aligned).0),
    refl,
    refl,
    omega (arith, sized.1),
    block_aligned,
  )

  abbrev exp : ℕ
  exp = pow2_exp (seg_size align size)

  abbrev off : ℕ
  off = fst_aligned_offset align + control_size align size

  block_start : p / 2 ^ exp * 2 ^ exp ≡ p
  block_start = omega (arith, div-add-mod' p (2 ^ exp), block_aligned)

  in_int : exp < 31
  in_int = lt_of_pow-lt exp 31 (omega (arith, sized.2))

  opaque : seg.pow2_exp ≡ exp
  unfolding new_segment
  opaque = rw no_wrap

  at_read : seg.read_at ≡ p / 2 ^ exp * 2 ^ exp + off
  unfolding new_segment
  at_read = omega (arith, block_start)

  module _ (k : ℕ) (h : k < size) where
    in_block : off + k < 2 ^ exp
    in_block = omega (arith, sized.1)

    in_user : p / 2 ^ exp * 2 ^ exp + (off + k) < 2 ^ 48
    in_user = omega (arith, block_start, in_block)

    packed : cons_opaque_ptr_for_seg seg ≡ cons_opaque_ptr exp (p / 2 ^ exp * 2 ^ exp + off)
    packed = ap₂ cons_opaque_ptr opaque at_read

    at_word : get_opaque_ptr_word (cons_opaque_ptr_for_seg seg + k) ≡ seg.read_at + k
    at_word =
        ap (λ t. get_opaque_ptr_word (t + k)) packed
        ∙ get_opaque_ptr_word-cons_opaque_ptr exp (p / 2 ^ exp) off k in_int in_block in_user
        ∙ omega (arith, at_read)

    -- For a segment whose parts take up to 2 ^ 30 bytes, in a block that `posix_memalign` gave
    -- (`IsBlock`), the opaque pointer to its first byte, moved to any byte `k` of it, leads
    -- back: to the segment's address, to the address of the byte in the committed copy, and to its
    -- offset there.
    pub cons_opaque_ptr_for_seg_lem :
        (get_opaque_ptr_seg (cons_opaque_ptr_for_seg seg + k) ≡ some p)
        × (get_opaque_ptr_word (cons_opaque_ptr_for_seg seg + k) ≡ seg.read_at + k)
        × (get_word_seg_offset (get_opaque_ptr_word (cons_opaque_ptr_for_seg seg + k)) seg.read_at
            ≡ k)
    cons_opaque_ptr_for_seg_lem = (
      ap (λ t. get_opaque_ptr_seg (t + k)) packed
          ∙ get_opaque_ptr_seg-cons_opaque_ptr exp (p / 2 ^ exp) off k in_int in_block in_user
          ∙ ap some block_start,
      at_word,
      omega (arith, at_word, at_read, in_user),
    )

-- Where `align` is a multiple of 32 and the number of words is odd, the first byte that a user is
-- given is not aligned: its distance from the segment, which has a larger alignment, is no
-- multiple of 32.
pub new_segment-misaligned :
    (a m size tx p : ℕ)
    → 0 < a
    → size / (32 * a) ≡ 2 * m + 1
    → ((new_segment (32 * a) size tx p).read_at - p) % 32 ≡ 16
unfolding new_segment
new_segment-misaligned a m size tx p pos odd =
    let e : fst_aligned_offset (32 * a) % 32 ≡ 0 = omega (
      arith,
      div-add-mod (fst_aligned_offset (32 * a)) (32 * a),
      (fst_aligned_offset_bounds (32 * a) (omega arith)).2,
    ) in
    rw odd (omega arith)
