-- ===== src/Segment/Rollback.antt =====
-- `rollback_transaction` and `epoch_cleanup` (template/tm.c, template/batcher.c) on the words of
-- one segment: what an aborted transaction wrote is gone, and an epoch publishes exactly the words
-- that are still marked as written.
use transactional_memory.Base.{
  ℕ, zero, suc, ◌+◌, ◌*◌, ◌≤◌, ◌<◌, ◌≡◌, ◌≢◌, refl, ◌∙◌, ap, ◌⊎◌, inl, inr, true, false,
  if◌then◌else◌, ltb, Bool-cases, arith, ℕ_discrete,
}
use transactional_memory.Word.{wrote, rollback_control}
use transactional_memory.Segment.{Segment, memcpy, set_control, rollback_word, rollback_words}
use transactional_memory.Segment.Words.{memcpy-word, memcpy-other_word}

-- What rolling back the words below `n` leaves: of the words that `tx` wrote the committed bytes,
-- unmarked, and all other words as they were.
pub record RolledBack (align tx n : ℕ) (seg seg' : Segment) : Type 0 where
  pub frame : seg' ≡ record seg { control = seg'.control; write = seg'.write }
  pub control_at :
      (j : ℕ)
      → seg'.control j ≡ (if ltb j n then rollback_control tx (seg.control j) else seg.control j)
  pub restored :
      (j k : ℕ)
      → j < n
      → k < align
      → wrote tx (seg.control j) ≡ true
      → seg'.write (j * align + k) ≡ seg.read (j * align + k)
  pub spared :
      (j k : ℕ)
      → k < align
      → (n ≤ j) ⊎ (wrote tx (seg.control j) ≡ false)
      → seg'.write (j * align + k) ≡ seg.write (j * align + k)

module _ (align tx : ℕ) (seg : Segment) where
  RolledBack-zero : RolledBack align tx 0 seg seg
  RolledBack-zero = record {
    frame = refl;
    control_at = λ j. ground arith;
    restored = λ j k h. absurd (omega arith);
    spared = λ j k h o. refl;
  }

  module _ (n : ℕ) (mid : Segment) (ih : RolledBack align tx n seg mid) where
    mid-control : mid.control n ≡ seg.control n
    mid-control = ih.control_at n ∙ ground arith

    weaken :
        (j : ℕ)
        → (suc n ≤ j) ⊎ (wrote tx (seg.control j) ≡ false)
        → (n ≤ j) ⊎ (wrote tx (seg.control j) ≡ false)
    weaken j (inl b) = inl (omega arith)
    weaken j (inr f) = inr f

    apart :
        (j : ℕ)
        → wrote tx (seg.control n) ≡ true
        → (suc n ≤ j) ⊎ (wrote tx (seg.control j) ≡ false)
        → j ≢ n
    apart j w (inl b) e = absurd (omega arith)
    apart j w (inr f) e = cc (ap (λ t. wrote tx (seg.control t)) e)

    below :
        (j : ℕ)
        → j < suc n
        → wrote tx (seg.control n) ≡ false
        → wrote tx (seg.control j) ≡ true
        → j < n
    below j h w wj = elim (ℕ_discrete j n) [
      | yes e ↦ cc (ap (λ t. wrote tx (seg.control t)) e)
      | no ne ↦ omega arith
    ]

    rolled : Segment
    rolled = record mid {
      write = memcpy mid.write (n * align) mid.read (n * align) align;
      control = set_control n (rollback_control tx (mid.control n)) mid.control;
    }

    rollback_word-wrote : wrote tx (seg.control n) ≡ true → rollback_word align tx n mid ≡ rolled
    unfolding rollback_word rolled
    rollback_word-wrote w =
        let e : wrote tx (mid.control n) ≡ true = ap (wrote tx) mid-control ∙ w in rw e

    rollback_word_spared : wrote tx (seg.control n) ≡ false → rollback_word align tx n mid ≡ mid
    unfolding rollback_word
    rollback_word_spared w =
        let e : wrote tx (mid.control n) ≡ false = ap (wrote tx) mid-control ∙ w in rw e

    RolledBack-rolled : wrote tx (seg.control n) ≡ true → RolledBack align tx (suc n) seg rolled
    unfolding rolled set_control
    RolledBack-rolled w = record {
      frame =
          ap (λ (t : Segment). record t { write = rolled.write; control = rolled.control })
            ih.frame;
      control_at = λ j. ground (arith, ih.control_at j, mid-control);
      restored = λ j k h l wj. elim (ℕ_discrete j n) [
        | yes same ↦ rw same (
            memcpy-word mid.write mid.read align n (n * align) k l
            ∙ ap (λ (t : Segment). t.read (n * align + k)) ih.frame)
        | no ne ↦
            memcpy-other_word mid.write mid.read align n (n * align) j k l ne
            ∙ ih.restored j k (omega arith) l wj
      ];
      spared = λ j k l o.
          memcpy-other_word mid.write mid.read align n (n * align) j k l (apart j w o)
          ∙ ih.spared j k l (weaken j o);
    }

    RolledBack-spared : wrote tx (seg.control n) ≡ false → RolledBack align tx (suc n) seg mid
    unfolding rollback_control
    RolledBack-spared w = record {
      frame = ih.frame;
      control_at = λ j. ground (arith, ih.control_at j);
      restored = λ j k h l wj. ih.restored j k (below j h w wj) l wj;
      spared = λ j k l o. ih.spared j k l (weaken j o);
    }

    RolledBack-suc : RolledBack align tx (suc n) seg (rollback_word align tx n mid)
    RolledBack-suc = elim (Bool-cases (wrote tx (seg.control n))) [
      | inl w ↦ rw (rollback_word-wrote w) (RolledBack-rolled w)
      | inr nw ↦ rw (rollback_word_spared nw) (RolledBack-spared nw)
    ]

  pub rollback_words-RolledBack :
      (n : ℕ) → RolledBack align tx n seg (rollback_words align tx n seg)
  unfolding rollback_words
  rollback_words-RolledBack zero = RolledBack-zero
  rollback_words-RolledBack (suc n) =
      RolledBack-suc n (rollback_words align tx n seg) (rollback_words-RolledBack n)
