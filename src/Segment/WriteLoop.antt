-- ===== src/Segment/WriteLoop.antt =====
-- The loop of `_tm_write` (template/tm.c) over whole words: it ends, it never leaves the segment,
-- and what it leaves behind.
use native.Mathlib.Nat.{div-le_self}
use transactional_memory.Base.{
  ℕ, zero, suc, ◌+◌, ◌-◌, ◌*◌, ◌^◌, ◌≤◌, ◌<◌, ◌≡◌, ◌≢◌, refl, sym, ◌∙◌, ap, ◌⊎◌, inl, inr, Bool,
  true, false, ok, Ensures, Ensures-mono, ltb, lt→ltb, le→leb, ge→ltb, Bool-cases, arith,
  ℕ_discrete, dec_lt,
}
use transactional_memory.Words.{add64}
use transactional_memory.Word.{Control, can_write_word, wrote}
use transactional_memory.Word.Cases.{wrote-can_write_word, written-can_write_word_refused}
use transactional_memory.Segment.{
  Bytes, Segment, words_count, memcpy, set_control, write_word, write_words,
}
use transactional_memory.Segment.Words.{
  memcpy-word, memcpy-other_word, memcpy-below, memcpy-above, word_inside,
}

-- Words that nobody has written in this epoch are equal in both copies.
pub record Agrees (align : ℕ) (seg : Segment) : Type 0 where
  pub agrees :
      (i k : ℕ)
      → i < words_count align seg
      → k < align
      → (seg.control i).written ≡ false
      → seg.write (i * align + k) ≡ seg.read (i * align + k)

-- The words `wc` to `wc + n` have been offered to transaction `tx`, with the bytes of `source`
-- from `offset` on.
pub record WriteLoop (align tx : ℕ) (source : Bytes) (offset wc n : ℕ) (seg : Segment)
    (r : Bool × Segment) : Type 0 where
  pub frame : r.1 ≡ record seg { control = r.1.control; write = r.1.write }
  pub kept : (j : ℕ) → (j < wc) ⊎ (wc + n ≤ j) → r.1.control j ≡ seg.control j
  pub kept_bytes : (p : ℕ) → (p < wc * align) ⊎ ((wc + n) * align ≤ p) → r.1.write p ≡ seg.write p
  pub claimed : r.0 ≡ true → (j : ℕ) → wc ≤ j → j < wc + n → wrote tx (r.1.control j) ≡ true
  pub bytes :
      r.0 ≡ true → (p : ℕ) → p < n * align → r.1.write (wc * align + p) ≡ source (offset + p)
  pub refused :
      r.0 ≡ false
      → (j : ℕ) × (wc ≤ j) × (j < wc + n) × ((can_write_word tx (seg.control j)).0 ≡ false)
  pub agrees : Agrees align seg → Agrees align r.1

module _ (align tx : ℕ) (source : Bytes) where
  module _ (offset i : ℕ) (seg : Segment) (inside : i < words_count align seg) where
    abbrev answer : Bool × Control
    answer = can_write_word tx (seg.control i)

    abbrev refused_seg : Segment
    refused_seg = record seg { control = set_control i answer.1 seg.control }

    abbrev granted_seg : Segment
    granted_seg = record refused_seg { write = memcpy seg.write (i * align) source offset align }

    write_word_granted :
        answer.0 ≡ true
        → write_word align tx source seg offset (i * align) i ≡ ok (true, granted_seg)
    unfolding write_word
    write_word_granted g = rw (
      lt→ltb i (words_count align seg) inside,
      g,
      le→leb (i * align + align) seg.size (word_inside align seg.size i inside),
    )

    write_word_refused :
        answer.0 ≡ false
        → write_word align tx source seg offset (i * align) i ≡ ok (false, refused_seg)
    unfolding write_word
    write_word_refused g = rw (lt→ltb i (words_count align seg) inside, g)

    set_control-other :
        (c : Control) (j : ℕ) → j ≢ i → set_control i c seg.control j ≡ seg.control j
    unfolding set_control
    set_control-other c j ne = ground arith

    set_control-same : (c : Control) → set_control i c seg.control i ≡ c
    unfolding set_control
    set_control-same c = ground arith

    refused_seg-Agrees : answer.0 ≡ false → Agrees align seg → Agrees align refused_seg
    unfolding set_control
    refused_seg-Agrees g a =
        let same = written-can_write_word_refused tx (seg.control i) g in
        record { agrees = λ j k h l w. a.agrees j k h l (ground arith) }

    granted_seg-Agrees : answer.0 ≡ true → Agrees align seg → Agrees align granted_seg
    unfolding set_control
    granted_seg-Agrees g a =
        let mine = wrote-can_write_word tx (seg.control i) g in
        record {
          agrees = λ j k h l w. elim (ℕ_discrete j i) [
            | yes e ↦ ground arith
            | no ne ↦
                memcpy-other_word seg.write source align i offset j k l ne
                ∙ a.agrees j k h l (ground arith)
          ];
        }

  -- No round left.
  WriteLoop-end :
      (offset wc : ℕ) (seg : Segment) → WriteLoop align tx source offset wc 0 seg (true, seg)
  WriteLoop-end offset wc seg = record {
    frame = refl;
    kept = λ j _. refl;
    kept_bytes = λ p _. refl;
    claimed = λ _ j l h. absurd (omega arith);
    bytes = λ _ p h. absurd (omega arith);
    refused = λ e. cc;
    agrees = λ a. a;
  }

  module _ (offset wc n : ℕ) (seg : Segment) (inside : wc < words_count align seg) where
    WriteLoop-refused :
        (can_write_word tx (seg.control wc)).0 ≡ false
        → WriteLoop align tx source offset wc (suc n) seg (false, refused_seg offset wc seg inside)
    WriteLoop-refused g = record {
      frame = refl;
      kept = λ j out. set_control-other offset wc seg inside _ j (omega arith);
      kept_bytes = λ p _. refl;
      claimed = λ e. cc;
      bytes = λ e. cc;
      refused = λ _. (wc, omega arith, omega arith, g);
      agrees = refused_seg-Agrees offset wc seg inside g;
    }

    WriteLoop-granted :
        (r : Bool × Segment)
        → (can_write_word tx (seg.control wc)).0 ≡ true
        → WriteLoop align tx source (offset + align) (wc + 1) n (granted_seg offset wc seg inside) r
        → WriteLoop align tx source offset wc (suc n) seg r
    WriteLoop-granted r g ih = record {
      frame = ih.frame;
      kept = λ j out.
          ih.kept j (omega arith) ∙ set_control-other offset wc seg inside _ j (omega arith);
      kept_bytes = λ p out. ih.kept_bytes p (omega arith) ∙ (elim out [
        | inl l ↦ memcpy-below seg.write source (wc * align) offset align p l
        | inr l ↦ memcpy-above seg.write source (wc * align) offset align p (omega arith)
      ]);
      claimed = λ e j l h. elim (ℕ_discrete wc j) [
        | yes same ↦
            ap (λ t. wrote tx (r.1.control t)) (sym same)
            ∙ ap (wrote tx)
                (ih.kept wc (inl (omega arith)) ∙ set_control-same offset wc seg inside _)
            ∙ wrote-can_write_word tx (seg.control wc) g
        | no ne ↦ ih.claimed e j (omega arith) (omega arith)
      ];
      bytes = λ e p h. elim (dec_lt p align) [
        | yes l ↦
            ih.kept_bytes (wc * align + p) (inl (omega arith))
            ∙ memcpy-word seg.write source align wc offset p l
        | no l ↦
            let at : wc * align + p ≡ (wc + 1) * align + (p - align) = omega arith in
            let from : offset + align + (p - align) ≡ offset + p = omega arith in
            ap r.1.write at ∙ ih.bytes e (p - align) (omega arith) ∙ ap source from
      ];
      refused = λ e.
          let (j, lo, hi, w) = ih.refused e in
          let same = set_control-other offset wc seg inside _ j (omega arith) in
          (j, omega arith, omega arith, ap (λ c. (can_write_word tx c).0) (sym same) ∙ w);
      agrees = λ a. ih.agrees (granted_seg-Agrees offset wc seg inside g a);
    }

  -- From any round on, with the fuel that `_tm_write` gives it, the loop ends and offers exactly
  -- the words that are left.
  pub write_words-WriteLoop :
      (n fuel size write_offset offset wc : ℕ) (seg : Segment)
      → 0 < align
      → n < fuel
      → size < 2 ^ 64
      → seg.size < 2 ^ 64
      → offset + n * align ≡ size
      → wc + n ≤ words_count align seg
      → write_offset + offset ≡ wc * align
      → Ensures
          (WriteLoop align tx source offset wc n seg)
          (write_words align tx fuel size source seg write_offset offset wc)
  unfolding write_words
  write_words-WriteLoop n zero size wo offset wc seg pos fuel small bound len room at =
      absurd (omega arith)
  write_words-WriteLoop zero (suc f) size wo offset wc seg pos fuel small bound len room at =
      rw (ge→ltb offset size (omega arith)) (WriteLoop-end offset wc seg)
  write_words-WriteLoop (suc n) (suc f) size wo offset wc seg pos fuel small bound len room at =
      let inside : wc < words_count align seg = omega arith in
      let here : ltb offset size ≡ true = lt→ltb offset size (omega arith) in
      let o : add64 offset align ≡ offset + align = omega arith in
      let w : add64 wc 1 ≡ wc + 1 = omega (arith, div-le_self seg.size align) in
      elim (Bool-cases (can_write_word tx (seg.control wc)).0) [
        | inl g ↦
            rw (here, at, write_word_granted offset wc seg inside g, o, w)
              (Ensures-mono _ _ _
                (write_words-WriteLoop n f size wo (offset + align) (wc + 1)
                  (granted_seg offset wc seg inside) pos (omega arith) small bound (omega arith)
                  (omega arith) (omega arith))
                (λ r. WriteLoop-granted offset wc n seg inside r g))
        | inr g ↦
            rw (here, at, write_word_refused offset wc seg inside g)
              (WriteLoop-refused offset wc n seg inside g)
      ]
