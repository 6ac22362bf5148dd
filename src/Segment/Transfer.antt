-- ===== src/Segment/Transfer.antt =====
-- `_tm_read` and `_tm_write` (template/tm.c) of whole words, on every branch.
use native.Mathlib.Nat.{mul-le-mul_left, mul-le-mul_right, div-mul-le_self, mul-div_left}
use transactional_memory.Base.{
  ℕ, suc, ◌+◌, ◌*◌, ◌/◌, ◌^◌, ◌≤◌, ◌<◌, ◌≡◌, refl, ◌∙◌, ap, inl, inr, Bool, true, false, ok,
  Ensures, Ensures-bind, Ensures-mono, le→leb, ge→ltb, Bool-cases, arith,
}
use transactional_memory.Opaque.{is_tx_readonly}
use transactional_memory.Word.{wrote}
use transactional_memory.Segment.{
  Bytes, Segment, words_count, memcpy, is_foreign, _tm_read, _tm_write,
}
use transactional_memory.Segment.WriteLoop.{WriteLoop, write_words-WriteLoop}
use transactional_memory.Segment.ReadLoop.{ReadLoop, read_words-ReadLoop}

-- `n` whole words of a segment, from word `w` on.
pub record IsRange (align w n : ℕ) (seg : Segment) : Type 0 where
  pub aligned : 0 < align
  pub bounded : seg.size < 2 ^ 64
  pub inside : w + n ≤ words_count align seg

-- What `_tm_read` leaves: the loop's result, and the private buffer as it was.
abbrev pub Asked : (align tx w n : ℕ) → Segment → Bytes → Bool × Segment × Bytes → Type 0
Asked align tx w n seg target r = ReadLoop align tx w n seg (r.0, r.1) × (r.2 ≡ target)

abbrev pub Granted : Bytes → Bool × Segment × Bytes → Type 0
Granted copy r = (r.0 ≡ true) × (r.1.write ≡ copy)

-- The read is granted, and the working copy holds `source` at the words.
abbrev pub ReadsBack : (align w n : ℕ) → Bytes → Bool × Segment × Bytes → Type 0
ReadsBack align w n source r =
    (r.0 ≡ true) × ((p : ℕ) → p < n * align → r.1.write (w * align + p) ≡ source p)

module _ (align tx w n : ℕ) (seg : Segment) (range : IsRange align w n seg) where
  open range use {aligned, bounded, inside}

  range-le-size : w * align + n * align ≤ seg.size
  range-le-size = omega (
    arith,
    mul-le-mul_right {m = w + n} {n = seg.size / align} align inside,
    div-mul-le_self seg.size align,
  )

  words-le-bytes : n ≤ n * align
  words-le-bytes = omega (arith, mul-le-mul_left {m = 1} {n = align} n aligned)

  first_word : w * align / align ≡ w
  first_word = mul-div_left w aligned

  -- A write of whole words inside a segment of fewer than 2 ^ 64 bytes that is not another's new one
  -- returns within its fuel and without a fault. Other words keep their controls and bytes. Where
  -- it is granted, each of the words is marked as written by the transaction and holds the bytes of
  -- the source; where it is refused, one of the words refuses. Unmarked words still agree in both
  -- copies if they did.
  pub _tm_write-WriteLoop :
      (source : Bytes)
      → is_foreign tx seg ≡ false
      → Ensures
          (WriteLoop align tx source 0 w n seg)
          (_tm_write align tx source (n * align) seg (w * align))
  unfolding _tm_write
  _tm_write-WriteLoop source near =
      rw (near, ge→ltb seg.size (w * align) (omega (arith, range-le-size)), first_word)
        (write_words-WriteLoop align tx source n (suc (n * align)) (n * align) (w * align) 0 w seg
          aligned (omega (arith, words-le-bytes)) (omega (arith, range-le-size)) bounded
          (omega arith) inside (omega arith))

  -- A read of whole words inside a segment of fewer than 2 ^ 64 bytes that is not another's new one,
  -- by a read-write transaction, returns within its fuel
  -- and without a fault. It leaves both copies, the marks and the private buffer as they are, and
  -- the controls of other words. Where it is granted, nobody else has written one of the words; where
  -- it is refused, another transaction has written one.
  pub _tm_read-ReadLoop :
      (target : Bytes)
      → is_foreign tx seg ≡ false
      → is_tx_readonly tx ≡ false
      → Ensures
          (Asked align tx w n seg target)
          (_tm_read align tx (n * align) target seg (w * align))
  unfolding _tm_read
  _tm_read-ReadLoop target near rw_tx =
      rw (near, rw_tx, first_word)
        (Ensures-bind (ReadLoop align tx w n seg) (Asked align tx w n seg target) _
          (λ (r : Bool × Segment). ok (r.0, r.1, target))
          (read_words-ReadLoop align tx n (suc (n * align)) (n * align) 0 w seg aligned
            (omega (arith, words-le-bytes)) (omega (arith, range-le-size)) bounded (omega arith)
            inside)
          (λ r post. (post, refl)))

  -- A segment that another transaction allocated in this epoch refuses both, and stays as it is.
  pub _tm_write-foreign :
      (source : Bytes)
      → is_foreign tx seg ≡ true
      → _tm_write align tx source (n * align) seg (w * align) ≡ ok (false, seg)
  unfolding _tm_write
  _tm_write-foreign source far = rw far

  pub _tm_read-foreign :
      (target : Bytes)
      → is_foreign tx seg ≡ true
      → _tm_read align tx (n * align) target seg (w * align) ≡ ok (false, seg, target)
  unfolding _tm_read
  _tm_read-foreign target far = rw far

  -- A read-only transaction reads the committed copy, and never fails in a segment in reach.
  pub _tm_read-readonly :
      (target : Bytes)
      → is_foreign tx seg ≡ false
      → is_tx_readonly tx ≡ true
      → _tm_read align tx (n * align) target seg (w * align)
        ≡ ok (true, seg, memcpy target 0 seg.read (w * align) (n * align))
  unfolding _tm_read
  _tm_read-readonly target near ro =
      rw (near, ro, le→leb (w * align + n * align) seg.size range-le-size)

  -- Its own writes leave the words readable: the read succeeds and the working copy is the same.
  module _ (target : Bytes) (near : is_foreign tx seg ≡ false) (rw_tx : is_tx_readonly tx ≡ false)
      (mine : (j : ℕ) → w ≤ j → j < w + n → wrote tx (seg.control j) ≡ true) where
    _tm_read_own :
        Ensures (Granted seg.write) (_tm_read align tx (n * align) target seg (w * align))
    _tm_read_own =
        Ensures-mono (Asked align tx w n seg target) (Granted seg.write) _
          (_tm_read-ReadLoop target near rw_tx)
          λ r (post, _). (
            elim (Bool-cases r.0) [
              | inl yes' ↦ yes'
              | inr refused ↦
                  let (j, lo, hi, _, other) = post.refused refused in
                  absurd (ground (arith, mine j lo hi))
            ],
            ap (λ (t : Segment). t.write) post.frame,
          )

-- The range of a segment whose size is the same.
pub IsRange-size :
    (align w n : ℕ) (seg seg' : Segment)
    → seg'.size ≡ seg.size
    → IsRange align w n seg
    → IsRange align w n seg'
IsRange-size align w n seg seg' e range = record {
  aligned = range.aligned;
  bounded = rw e range.bounded;
  inside = rw e range.inside;
}

-- A transaction reads its own writes: once `_tm_write` of `n` whole words has been granted to a
-- read-write transaction, `_tm_read` of these words is granted to it, and the working copy, which
-- `tm_read` then copies to the caller, holds there the bytes that were written.
pub _tm_read-_tm_write :
    (align tx w n : ℕ) (seg seg' : Segment) (source target : Bytes)
    → IsRange align w n seg
    → is_foreign tx seg ≡ false
    → is_tx_readonly tx ≡ false
    → _tm_write align tx source (n * align) seg (w * align) ≡ ok (true, seg')
    → Ensures (ReadsBack align w n source) (_tm_read align tx (n * align) target seg' (w * align))
_tm_read-_tm_write align tx w n seg seg' source target range near rw_tx granted =
    let post : WriteLoop align tx source 0 w n seg (true, seg') =
      rw granted at (_tm_write-WriteLoop align tx w n seg range source near) in
    let range' = IsRange-size align w n seg seg' (ap (λ (t : Segment). t.size) post.frame) range in
    let near' = ap (is_foreign tx) post.frame ∙ near in
    Ensures-mono (Granted seg'.write) (ReadsBack align w n source) _
      (_tm_read_own align tx w n seg' range' target near' rw_tx (post.claimed refl))
      λ q (yes', same). (
        yes',
        λ p h.
            ap (λ (f : Bytes). f (w * align + p)) same
            ∙ post.bytes refl p h
            ∙ ap source (omega arith),
      )
