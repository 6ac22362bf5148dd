-- ===== src/Segment/ReadLoop.antt =====
-- The loop of `_tm_read` (template/tm.c) of a read-write transaction: it ends, stays inside the
-- segment, and touches nothing but the controls of the words that it asks for.
use native.Mathlib.Nat.{div-le_self}
use mathlib.Core.Path.{subst}
use transactional_memory.Base.{
  ℕ, zero, suc, ◌+◌, ◌*◌, ◌^◌, ◌≤◌, ◌<◌, ◌≡◌, ◌≢◌, refl, sym, ◌∙◌, ap, ◌⊎◌, inl, inr, Bool, true,
  false, ◌==◌, ok, Ensures, Ensures-mono, ltb, lt→ltb, ge→ltb, Bool-cases, arith, ℕ_discrete,
}
use transactional_memory.Words.{add64}
use transactional_memory.Word.{Control, can_read_word, wrote}
use transactional_memory.Word.Cases.{
  written-can_read_word, can_read_word-wrote, can_read_word_refused,
}
use transactional_memory.Segment.{Segment, words_count, set_control, read_word, read_words}

-- Nobody has written the word, or the transaction has.
abbrev pub IsReadable : ℕ → Control → Type 0
IsReadable tx c = (c.written ≡ false) ⊎ (wrote tx c ≡ true)

-- The words `wc` to `wc + n` have been asked for by transaction `tx`.
pub record ReadLoop (align tx wc n : ℕ) (seg : Segment) (r : Bool × Segment) : Type 0 where
  pub frame : r.1 ≡ record seg { control = r.1.control }
  pub kept : (j : ℕ) → (j < wc) ⊎ (wc + n ≤ j) → r.1.control j ≡ seg.control j
  pub marks : (j : ℕ) → (r.1.control j).written ≡ (seg.control j).written
  pub free : r.0 ≡ true → (j : ℕ) → wc ≤ j → j < wc + n → IsReadable tx (r.1.control j)
  pub refused :
      r.0 ≡ false
      → (j : ℕ) × (wc ≤ j)
        × (j < wc + n)
        × ((seg.control j).written ≡ true)
        × (((seg.control j).access == tx) ≡ false)

module _ (align tx : ℕ) where
  module _ (i : ℕ) (seg : Segment) where
    abbrev answer : Bool × Control
    answer = can_read_word tx (seg.control i)

    abbrev asked : Segment
    asked = record seg { control = set_control i answer.1 seg.control }

    read_word_lem : i < words_count align seg → read_word align tx i seg ≡ ok (answer.0, asked)
    unfolding read_word
    read_word_lem inside = rw (lt→ltb i (words_count align seg) inside)

    asked-other : (j : ℕ) → j ≢ i → asked.control j ≡ seg.control j
    unfolding set_control
    asked-other j ne = ground arith

    asked-same : asked.control i ≡ answer.1
    unfolding set_control
    asked-same = ground arith

    asked-written : (j : ℕ) → (asked.control j).written ≡ (seg.control j).written
    unfolding set_control
    asked-written j = ground (arith, written-can_read_word tx (seg.control i))

  ReadLoop-end : (wc : ℕ) (seg : Segment) → ReadLoop align tx wc 0 seg (true, seg)
  ReadLoop-end wc seg = record {
    frame = refl;
    kept = λ j _. refl;
    marks = λ j. refl;
    free = λ _ j l h. absurd (omega arith);
    refused = λ e. cc;
  }

  module _ (wc n : ℕ) (seg : Segment) where
    ReadLoop-refused :
        (answer wc seg).0 ≡ false → ReadLoop align tx wc (suc n) seg (false, asked wc seg)
    ReadLoop-refused g =
        let blocked = can_read_word_refused tx (seg.control wc) g in
        record {
          frame = refl;
          kept = λ j out. asked-other wc seg j (omega arith);
          marks = asked-written wc seg;
          free = λ e. cc;
          refused = λ _. (wc, omega arith, omega arith, blocked.0, blocked.1);
        }

    ReadLoop-granted :
        (r : Bool × Segment)
        → (answer wc seg).0 ≡ true
        → ReadLoop align tx (wc + 1) n (asked wc seg) r
        → ReadLoop align tx wc (suc n) seg r
    ReadLoop-granted r g ih = record {
      frame = ih.frame;
      kept = λ j out. ih.kept j (omega arith) ∙ asked-other wc seg j (omega arith);
      marks = λ j. ih.marks j ∙ asked-written wc seg j;
      free = λ e j l h. elim (ℕ_discrete wc j) [
        | yes same ↦
            subst (IsReadable tx)
              (sym (ap r.1.control (sym same) ∙ ih.kept wc (inl (omega arith)) ∙ asked-same wc seg))
              (can_read_word-wrote tx (seg.control wc) g)
        | no ne ↦ ih.free e j (omega arith) (omega arith)
      ];
      refused = λ e.
          let (j, lo, hi, w, a) = ih.refused e in
          let same = asked-other wc seg j (omega arith) in
          (
            j,
            omega arith,
            omega arith,
            ap (λ (c : Control). c.written) (sym same) ∙ w,
            ap (λ (c : Control). c.access == tx) (sym same) ∙ a,
          );
    }

  pub read_words-ReadLoop :
      (n fuel size offset wc : ℕ) (seg : Segment)
      → 0 < align
      → n < fuel
      → size < 2 ^ 64
      → seg.size < 2 ^ 64
      → offset + n * align ≡ size
      → wc + n ≤ words_count align seg
      → Ensures (ReadLoop align tx wc n seg) (read_words align tx fuel size seg offset wc)
  unfolding read_words
  read_words-ReadLoop n zero size offset wc seg pos fuel small bound len room = absurd (omega arith)
  read_words-ReadLoop zero (suc f) size offset wc seg pos fuel small bound len room =
      rw (ge→ltb offset size (omega arith)) (ReadLoop-end wc seg)
  read_words-ReadLoop (suc n) (suc f) size offset wc seg pos fuel small bound len room =
      let step = read_word_lem wc seg (omega arith) in
      let here : ltb offset size ≡ true = lt→ltb offset size (omega arith) in
      let o : add64 offset align ≡ offset + align = omega arith in
      let w : add64 wc 1 ≡ wc + 1 = omega (arith, div-le_self seg.size align) in
      elim (Bool-cases (answer wc seg).0) [
        | inl g ↦
            rw (here, step, g, o, w)
              (Ensures-mono _ _ _
                (read_words-ReadLoop n f size (offset + align) (wc + 1) (asked wc seg) pos
                  (omega arith) small bound (omega arith) (omega arith))
                (λ r. ReadLoop-granted wc n seg r g))
        | inr g ↦ rw (here, step, g) (ReadLoop-refused wc n seg g)
      ]
