-- ===== src/Reference/Layout.antt =====
-- The room before a segment (reference/tm.c, `tm_create`).
use native.Mathlib.Nat.{div-add-mod', mod-lt}
use transactional_memory.Base.{ℕ, ◌+◌, ◌*◌, ◌/◌, ◌^◌, ◌≤◌, ◌<◌, ◌≡◌, refl, arith}
use transactional_memory.Words.{add64, sub64}
use transactional_memory.Reference.{link_size, align_alloc_of, delta_alloc_of}

pub align_alloc_of-ge : (align : ℕ) → 8 ≤ align_alloc_of align
unfolding align_alloc_of
align_alloc_of-ge align = ground arith

align_alloc_of-le : (align : ℕ) → align ≤ 2 ^ 63 → align_alloc_of align ≤ 2 ^ 63
unfolding align_alloc_of
align_alloc_of-le align h = ground arith

pub plain_sum : (a : ℕ) → a ≤ 2 ^ 63 → sub64 (add64 link_size a) 1 ≡ a + 15
plain_sum a h = omega arith

-- For every alignment up to 2 ^ 63: allocations are aligned for pointers, the room before a segment
-- holds a link, keeps the segment aligned, and is less than a link and an alignment.
pub delta_alloc_of-bounds :
    (align : ℕ)
    → align ≤ 2 ^ 63
    → (8 ≤ align_alloc_of align)
      × (link_size ≤ delta_alloc_of (align_alloc_of align))
      × (delta_alloc_of (align_alloc_of align) < link_size + align_alloc_of align)
      × (k : ℕ) × (delta_alloc_of (align_alloc_of align) ≡ k * align_alloc_of align)
unfolding delta_alloc_of
delta_alloc_of-bounds align h =
    let a = align_alloc_of align in
    let e : sub64 (add64 link_size a) 1 ≡ a + 15 = plain_sum a (align_alloc_of-le align h) in
    let m = mod-lt (a + 15) {m = a} (omega (arith, align_alloc_of-ge align)) in
    let d = div-add-mod' (a + 15) a in
    rw e (align_alloc_of-ge align, omega (arith, m, d), omega (arith, m, d), (a + 15) / a, refl)
