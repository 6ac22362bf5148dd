-- ===== src/Segment/Commit.antt =====
-- The end of an epoch on one segment: what `epoch_cleanup` (template/batcher.c) publishes, also
-- after transactions that `rollback_transaction` (template/tm.c) undid.
use transactional_memory.Base.{
  ℕ, ◌+◌, ◌*◌, ◌<◌, ◌≡◌, sym, ◌∙◌, ap, inl, inr, true, false, ◌==◌, ◌&&◌, not, if◌then◌else◌, ltb,
  lt→ltb, Bool-cases, arith,
}
use transactional_memory.Word.{Control, wrote, rollback_control, untouched}
use transactional_memory.Segment.{
  Segment, words_count, flag_rollback, rollback_segment, commit_segment, clear_control,
}
use transactional_memory.Segment.Words.{memcpy-inside, word_inside}
use transactional_memory.Segment.WriteLoop.{Agrees}
use transactional_memory.Segment.Rollback.{RolledBack, rollback_words-RolledBack}

rollback_control_spared : (tx : ℕ) (c : Control) → wrote tx c ≡ false → rollback_control tx c ≡ c
unfolding rollback_control
rollback_control_spared tx c nw = rw nw

if_below : {A : Type 0} (n i : ℕ) (x y : A) → i < n → (if ltb i n then x else y) ≡ x
if_below n i x y h = rw (lt→ltb i n h)

module _ (align : ℕ) (seg : Segment) where
  pub commit_segment-read : (p : ℕ) → p < seg.size → (commit_segment align seg).read p ≡ seg.write p
  unfolding commit_segment
  commit_segment-read p h =
      memcpy-inside seg.read seg.write 0 0 seg.size p (omega arith) (omega arith)
      ∙ ap seg.write (omega arith)

  pub commit_segment-control :
      (i : ℕ) → i < words_count align seg → (commit_segment align seg).control i ≡ untouched
  unfolding commit_segment clear_control
  commit_segment-control i h = rw (lt→ltb i (words_count align seg) h)

  -- After the commit both copies of the segment agree on every word.
  pub commit_segment-Agrees : Agrees align (commit_segment align seg)
  unfolding commit_segment
  commit_segment-Agrees = record {
    agrees = λ i k h l w.
        sym (commit_segment-read (i * align + k) (omega (arith, word_inside align seg.size i h)));
  }

module _ (align tx : ℕ) (seg : Segment) where
  pub flag_rollback-frame :
      flag_rollback align tx seg ≡ record seg { rollback = (flag_rollback align tx seg).rollback }
  unfolding flag_rollback
  flag_rollback-frame = elim (Bool-cases (seg.owner == tx)) [
    | inl mine ↦ rw mine
    | inr other ↦ rw other
  ]

  abbrev pub flagged : Segment
  flagged = flag_rollback align tx seg

  abbrev pub undone : Segment
  undone = rollback_segment align tx seg

  pub undone-RolledBack : RolledBack align tx (words_count align seg) flagged undone
  unfolding rollback_segment
  undone-RolledBack = rollback_words-RolledBack align tx flagged (words_count align seg)

  -- A word that the transaction did not write keeps its mark.
  pub undone-written :
      (i : ℕ)
      → i < words_count align seg
      → wrote tx (seg.control i) ≡ false
      → (undone.control i).written ≡ (seg.control i).written
  undone-written i h nw =
      let same : flagged.control i ≡ seg.control i =
        ap (λ (t : Segment). t.control i) flag_rollback-frame in
      let kept : rollback_control tx (flagged.control i) ≡ flagged.control i =
        rollback_control_spared tx (flagged.control i) (ap (wrote tx) same ∙ nw) in
      ap (λ (c : Control). c.written)
        (undone-RolledBack.control_at i ∙ if_below (words_count align seg) i _ _ h ∙ kept ∙ same)

  module _ (i k : ℕ) (h : i < words_count align seg) (l : k < align) where
    -- A word that the transaction wrote has its committed bytes again in the working copy.
    pub undone-restored :
        wrote tx (seg.control i) ≡ true → undone.write (i * align + k) ≡ seg.read (i * align + k)
    undone-restored w =
        undone-RolledBack.restored i k h l
          (ap (λ (t : Segment). wrote tx (t.control i)) flag_rollback-frame ∙ w)
        ∙ ap (λ (t : Segment). t.read (i * align + k)) flag_rollback-frame

    pub undone-spared :
        wrote tx (seg.control i) ≡ false → undone.write (i * align + k) ≡ seg.write (i * align + k)
    undone-spared w =
        undone-RolledBack.spared i k l
          (inr (ap (λ (t : Segment). wrote tx (t.control i)) flag_rollback-frame ∙ w))
        ∙ ap (λ (t : Segment). t.write (i * align + k)) flag_rollback-frame

    pub undone-size : undone.size ≡ seg.size
    undone-size =
        ap (λ (t : Segment). t.size) undone-RolledBack.frame
        ∙ ap (λ (t : Segment). t.size) flag_rollback-frame

    published : (commit_segment align undone).read (i * align + k) ≡ undone.write (i * align + k)
    published =
        commit_segment-read align undone (i * align + k)
          (rw undone-size (omega (arith, word_inside align seg.size i h)))

    -- An aborted transaction leaves no trace in what the epoch publishes, and takes nothing from
    -- the others: of a segment whose copies agree where nobody wrote, roll one transaction back
    -- and commit. A word that it wrote, and a word that nobody wrote, keeps its committed bytes; a
    -- word that another transaction wrote is published.
    pub commit_segment-rollback_segment :
        Agrees align seg
        → (commit_segment align undone).read (i * align + k) ≡ (
            if (seg.control i).written && not (wrote tx (seg.control i))
            then seg.write (i * align + k)
            else seg.read (i * align + k))
    commit_segment-rollback_segment a = elim (Bool-cases (wrote tx (seg.control i))) [
      | inl w ↦ published ∙ undone-restored w ∙ ground arith
      | inr nw ↦ published ∙ undone-spared nw ∙ ground (arith, a.agrees i k h l)
    ]
