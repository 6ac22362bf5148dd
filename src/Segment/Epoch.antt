-- ===== src/Segment/Epoch.antt =====
-- A segment between two commits: any number of transactions read, write and roll back, in any
-- order (template/tm.c).
use transactional_memory.Base.{
  ℕ, ◌+◌, ◌*◌, ◌/◌, ◌^◌, ◌≤◌, ◌<◌, ◌≡◌, refl, sym, ◌∙◌, ap, inl, inr, Bool, false, List, [], ◌∷◌,
  Run, ok, ◌>>=◌, Ensures, Ensures-bind, Ensures-mono, All, Bool-cases,
}
use transactional_memory.Opaque.{is_tx_readonly}
use transactional_memory.Word.{wrote}
use transactional_memory.Segment.{
  Bytes, Segment, words_count, is_foreign, _tm_read, _tm_write, rollback_segment,
}
use transactional_memory.Segment.WriteLoop.{Agrees, WriteLoop}
use transactional_memory.Segment.ReadLoop.{ReadLoop}
use transactional_memory.Segment.Commit.{
  undone, undone-RolledBack, flag_rollback-frame, undone-restored, undone-spared, undone-written,
}
use transactional_memory.Segment.Transfer.{
  IsRange, Asked, _tm_write-WriteLoop, _tm_read-ReadLoop, _tm_write-foreign, _tm_read-foreign,
  _tm_read-readonly,
}

-- What a transaction asks of one segment, of `n` whole words from word `w` on.
pub data SegOp : Type 0 where
  write_op : (tx : ℕ) → Bytes → (w n : ℕ) → SegOp
  read_op : (tx : ℕ) → Bytes → (w n : ℕ) → SegOp
  undo_op : (tx : ℕ) → SegOp

pub seg_step : (align : ℕ) → SegOp → Segment → Run Segment
seg_step align (write_op tx source w n) seg =
    _tm_write align tx source (n * align) seg (w * align) >>= λ r. ok r.1
seg_step align (read_op tx target w n) seg =
    _tm_read align tx (n * align) target seg (w * align) >>= λ r. ok r.1
seg_step align (undo_op tx) seg = ok (rollback_segment align tx seg)

pub seg_run : (align : ℕ) → List SegOp → Segment → Run Segment
unfolding seg_step
seg_run align [] seg = ok seg
seg_run align (o ∷ os) seg = seg_step align o seg >>= seg_run align os

-- The words that an operation names lie in a segment of `words` words.
abbrev pub IsInside : ℕ → SegOp → Type 0
IsInside words (write_op tx source w n) = w + n ≤ words
IsInside words (read_op tx target w n) = w + n ≤ words
IsInside words (undo_op tx) = Unit

-- A segment with the same committed copy and size.
pub record IsSnapshot (align : ℕ) (seg seg' : Segment) : Type 0 where
  pub size : seg'.size ≡ seg.size
  pub read : seg'.read ≡ seg.read
  pub agrees : Agrees align seg'

IsSnapshot-trans :
    (align : ℕ) (a b c : Segment)
    → IsSnapshot align a b
    → IsSnapshot align b c
    → IsSnapshot align a c
IsSnapshot-trans align a b c p q = record {
  size = q.size ∙ p.size;
  read = q.read ∙ p.read;
  agrees = q.agrees;
}

module _ (align tx w n : ℕ) (seg : Segment) (a : Agrees align seg) where
  WriteLoop-IsSnapshot :
      (source : Bytes) (r : Bool × Segment)
      → WriteLoop align tx source 0 w n seg r
      → IsSnapshot align seg r.1
  WriteLoop-IsSnapshot source r post = record {
    size = ap (λ (t : Segment). t.size) post.frame;
    read = ap (λ (t : Segment). t.read) post.frame;
    agrees = post.agrees a;
  }

  ReadLoop-Agrees : (r : Bool × Segment) → ReadLoop align tx w n seg r → Agrees align r.1
  ReadLoop-Agrees r post = record {
    agrees = λ i k h l u.
        ap (λ (t : Segment). t.write (i * align + k)) post.frame
        ∙ a.agrees i k (rw (ap (λ (t : Segment). t.size) post.frame) at h) l
            (sym (post.marks i) ∙ u)
        ∙ sym (ap (λ (t : Segment). t.read (i * align + k)) post.frame);
  }

  ReadLoop-IsSnapshot :
      (target : Bytes) (r : Bool × Segment × Bytes)
      → Asked align tx w n seg target r
      → IsSnapshot align seg r.1
  ReadLoop-IsSnapshot target r (post, _) = record {
    size = ap (λ (t : Segment). t.size) post.frame;
    read = ap (λ (t : Segment). t.read) post.frame;
    agrees = ReadLoop-Agrees (r.0, r.1) post;
  }

  IsSnapshot-refl : IsSnapshot align seg seg
  IsSnapshot-refl = record { size = refl; read = refl; agrees = a }

  module _ (range : IsRange align w n seg) where
    write-IsSnapshot :
        (source : Bytes)
        → Ensures
            (λ (r : Bool × Segment). IsSnapshot align seg r.1)
            (_tm_write align tx source (n * align) seg (w * align))
    write-IsSnapshot source = elim (Bool-cases (is_foreign tx seg)) [
      | inl far ↦ rw (_tm_write-foreign align tx w n seg range source far) IsSnapshot-refl
      | inr near ↦
          Ensures-mono (WriteLoop align tx source 0 w n seg) _ _
            (_tm_write-WriteLoop align tx w n seg range source near) (WriteLoop-IsSnapshot source)
    ]

    read-IsSnapshot :
        (target : Bytes)
        → Ensures
            (λ (r : Bool × Segment × Bytes). IsSnapshot align seg r.1)
            (_tm_read align tx (n * align) target seg (w * align))
    read-IsSnapshot target = elim (Bool-cases (is_foreign tx seg)) [
      | inl far ↦ rw (_tm_read-foreign align tx w n seg range target far) IsSnapshot-refl
      | inr near ↦ elim (Bool-cases (is_tx_readonly tx)) [
        | inl ro ↦ rw (_tm_read-readonly align tx w n seg range target near ro) IsSnapshot-refl
        | inr rw_tx ↦
            Ensures-mono (Asked align tx w n seg target)
              (λ (r : Bool × Segment × Bytes). IsSnapshot align seg r.1) _
              (_tm_read-ReadLoop align tx w n seg range target near rw_tx)
              (ReadLoop-IsSnapshot target)
      ]
    ]

module _ (align tx : ℕ) (seg : Segment) (a : Agrees align seg) where
  undone-word :
      (i k : ℕ) (h : i < words_count align seg) (l : k < align)
      → ((undone align tx seg).control i).written ≡ false
      → (undone align tx seg).write (i * align + k) ≡ seg.read (i * align + k)
  undone-word i k h l u = elim (Bool-cases (wrote tx (seg.control i))) [
    | inl w ↦ undone-restored align tx seg i k h l w
    | inr nw ↦
        undone-spared align tx seg i k h l nw
        ∙ a.agrees i k h l (sym (undone-written align tx seg i h nw) ∙ u)
  ]

  undo-IsSnapshot : IsSnapshot align seg (rollback_segment align tx seg)
  undo-IsSnapshot = record {
    size = same_size;
    read = same_read;
    agrees = record {
      agrees = λ i k h l u.
          undone-word i k (rw same_size at h) l u
          ∙ sym (ap (λ (f : Bytes). f (i * align + k)) same_read);
    };
  }
    where
      same_size : (undone align tx seg).size ≡ seg.size
      same_size =
          ap (λ (t : Segment). t.size) (undone-RolledBack align tx seg).frame
          ∙ ap (λ (t : Segment). t.size) (flag_rollback-frame align tx seg)

      same_read : (undone align tx seg).read ≡ seg.read
      same_read =
          ap (λ (t : Segment). t.read) (undone-RolledBack align tx seg).frame
          ∙ ap (λ (t : Segment). t.read) (flag_rollback-frame align tx seg)

seg_step-IsSnapshot :
    (align : ℕ) (o : SegOp) (seg : Segment)
    → 0 < align
    → seg.size < 2 ^ 64
    → Agrees align seg
    → IsInside (words_count align seg) o
    → Ensures (IsSnapshot align seg) (seg_step align o seg)
unfolding seg_step
seg_step-IsSnapshot align (write_op tx source w n) seg pos bound a inside =
    Ensures-bind (λ (r : Bool × Segment). IsSnapshot align seg r.1) (IsSnapshot align seg) _
      (λ (r : Bool × Segment). ok r.1)
      (write-IsSnapshot align tx w n seg a
        (record { aligned = pos; bounded = bound; inside = inside }) source)
      (λ r s. s)
seg_step-IsSnapshot align (read_op tx target w n) seg pos bound a inside =
    Ensures-bind (λ (r : Bool × Segment × Bytes). IsSnapshot align seg r.1) (IsSnapshot align seg) _
      (λ (r : Bool × Segment × Bytes). ok r.1)
      (read-IsSnapshot align tx w n seg a
        (record { aligned = pos; bounded = bound; inside = inside }) target)
      (λ r s. s)
seg_step-IsSnapshot align (undo_op tx) seg pos bound a inside = undo-IsSnapshot align tx seg a

-- Between two commits a segment of fewer than 2 ^ 64 bytes, whose copies agree where nobody wrote, is
-- a snapshot: whatever transactions read, write and roll back whole words inside it, each call
-- returns without a fault, the committed copy, which read-only transactions read, does not change,
-- and the working copy differs from it at most in words that are marked as written.
pub seg_run-IsSnapshot :
    (align words : ℕ) (os : List SegOp) (seg : Segment)
    → 0 < align
    → seg.size < 2 ^ 64
    → words ≡ words_count align seg
    → Agrees align seg
    → All (IsInside words) os
    → Ensures (IsSnapshot align seg) (seg_run align os seg)
unfolding seg_run
seg_run-IsSnapshot align words [] seg pos bound e a inside = record {
  size = refl;
  read = refl;
  agrees = a;
}
seg_run-IsSnapshot align words (o ∷ os) seg pos bound e a inside =
    Ensures-bind (IsSnapshot align seg) (IsSnapshot align seg) _ (seg_run align os)
      (seg_step-IsSnapshot align o seg pos bound a (rw e at inside.0))
      λ t s.
        Ensures-mono (IsSnapshot align t) (IsSnapshot align seg) _
          (seg_run-IsSnapshot align words os t pos (rw s.size bound)
            (e ∙ ap (λ z. z / align) (sym s.size)) s.agrees inside.1)
          (λ u. IsSnapshot-trans align seg t u s)
