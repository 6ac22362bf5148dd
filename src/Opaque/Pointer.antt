-- ===== src/Opaque/Pointer.antt =====
-- The round trip of opaque pointers, arithmetic on them included.
use Prim.Native.Nat.{bit_xor}
use transactional_memory.Base.{
  ℕ, zero, suc, ◌+◌, ◌-◌, ◌*◌, ◌/◌, ◌%◌, ◌^◌, ◌<◌, ◌≡◌, refl, ap, Bool, true, false, some, ◌==◌,
  lt→ltb, if◌then◌else◌, ℕ_discrete, ==_iff, arith,
}
use transactional_memory.Bits.{bit_and-mask, bit_and-high, bit_or-field}
use transactional_memory.Opaque.{
  cons_opaque_ptr, get_opaque_ptr_word, get_opaque_ptr_seg, uint64_max,
}

-- The mask of an exponent has zeros below it and ones up to bit 64.
mask_fits : ℕ → Bool
mask_fits e = bit_xor uint64_max (2 ^ e - 1) + 2 ^ e == 2 ^ 64

masks_fit : ℕ → Bool
masks_fit zero = true
masks_fit (suc n) = if mask_fits n then masks_fit n else false

masks_fit-mask_fits : (n e : ℕ) → e < n → masks_fit n ≡ true → mask_fits e ≡ true
unfolding masks_fit
masks_fit-mask_fits zero e below all = absurd (omega arith)
masks_fit-mask_fits (suc n) e below all = elim (ℕ_discrete e n) [
  | yes same ↦ rw same (ground arith)
  | no other ↦ masks_fit-mask_fits n e (omega arith) (ground arith)
]

every_mask : masks_fit 31 ≡ true
unfolding masks_fit mask_fits
every_mask = refl

mask_lem : (e : ℕ) → e < 31 → bit_xor uint64_max (2 ^ e - 1) + 2 ^ e ≡ 2 ^ 64
unfolding mask_fits
mask_lem e h = (==_iff _ (2 ^ 64)).0 (masks_fit-mask_fits 31 e h every_mask)

-- A segment at a multiple `base` of `2 ^ exp`, and the address `k` bytes behind the address `off`
-- bytes into the segment.
module _ (exp q off k : ℕ) (small : exp < 31) (inside : off + k < 2 ^ exp)
    (user : q * 2 ^ exp + (off + k) < 2 ^ 48) where
  abbrev base : ℕ
  base = q * 2 ^ exp

  cons_opaque_ptr-eq_add : cons_opaque_ptr exp (base + off) + k ≡ base + (off + k) + exp * 2 ^ 48
  unfolding cons_opaque_ptr
  cons_opaque_ptr-eq_add =
      let m : exp * 2 ^ 48 % 2 ^ 64 ≡ exp * 2 ^ 48 = omega arith in
      omega (arith, m, bit_or-field 48 (base + off) exp (exp * 2 ^ 48 % 2 ^ 64) (omega arith) m)

  -- The word is the address that was packed, moved by `k`.
  pub get_opaque_ptr_word-cons_opaque_ptr :
      get_opaque_ptr_word (cons_opaque_ptr exp (base + off) + k) ≡ base + (off + k)
  unfolding get_opaque_ptr_word
  get_opaque_ptr_word-cons_opaque_ptr =
      bit_and-mask 48 _ (2 ^ 48 - 1) exp (base + (off + k)) refl
        (omega (arith, cons_opaque_ptr-eq_add)) user

  -- With an exponent below 31 and addresses below 2 ^ 48: from an opaque pointer to any place of a
  -- segment, moved forward to any other place of it, the segment's address is found.
  pub get_opaque_ptr_seg-cons_opaque_ptr :
      get_opaque_ptr_seg (cons_opaque_ptr exp (base + off) + k) ≡ some base
  unfolding get_opaque_ptr_seg
  get_opaque_ptr_seg-cons_opaque_ptr =
      let p = cons_opaque_ptr-eq_add in
      let e : (cons_opaque_ptr exp (base + off) + k) / 2 ^ 48 ≡ exp = omega (arith, p) in
      rw (get_opaque_ptr_word-cons_opaque_ptr, e, lt→ltb exp 31 small)
        (ap some (
          bit_and-high exp 64 (base + (off + k)) _ q (off + k) (omega arith) (mask_lem exp small)
            (omega arith) refl inside))
