-- ===== src/Segment/Tests.antt =====
-- A segment of two words of 8 bytes at address 1024 (template/segment.c, template/tm.c).
use transactional_memory.Base.{
  ℕ, ◌+◌, ◌*◌, ◌%◌, ◌^◌, ◌≤◌, ◌≡◌, refl, true, false, not, ◌&&◌, some, List, [], ◌∷◌, Ensures, ltb,
  ◌==◌, if◌then◌else◌, arith,
}
use transactional_memory.Word.{Control, untouched, can_write_word, cas_access, claim_word, wrote}
use transactional_memory.Words.{bit_length, clzl, pow2_exp}
use transactional_memory.Opaque.{
  get_opaque_ptr_seg, get_opaque_ptr_word, get_word_seg_offset, is_tx_readonly,
}
use transactional_memory.Segment.{
  Bytes, Segment, memcpy, set_control, write_word, write_words, _tm_write, _tm_read, commit_segment,
  cons_opaque_ptr_for_seg,
}
use transactional_memory.Segment.WriteLoop.{Agrees, WriteLoop}
use transactional_memory.Segment.Transfer.{
  IsRange, Asked, ReadsBack, _tm_write-WriteLoop, _tm_read-ReadLoop, _tm_read-_tm_write,
}
use transactional_memory.Segment.Commit.{undone, commit_segment-rollback_segment}
use transactional_memory.Segment.Epoch.{
  SegOp, write_op, read_op, undo_op, IsSnapshot, seg_run, seg_run-IsSnapshot,
}
use transactional_memory.Segment.Alloc.{
  sizeof_segment, fst_aligned_offset, control_size, new_segment,
}
use transactional_memory.Segment.Alloc.Layout.{
  IsBlock, new_segment_layout, cons_opaque_ptr_for_seg_lem,
}

abbrev pub sample : Segment
sample = record {
  canary = 0xDEADC0DE;
  size = 16;
  pow2_exp = 8;
  owner = 0;
  link = 10;
  newly_alloc = false;
  should_free = false;
  dirty = false;
  rollback = false;
  control_at = 1136;
  read_at = 1168;
  write_at = 1184;
  control = λ _. untouched;
  read = λ _. 0;
  write = λ _. 0;
}

pub sample-Agrees : Agrees 8 sample
sample-Agrees = record { agrees = λ i k h l u. refl }

pub sample-IsRange : IsRange 8 0 1 sample
sample-IsRange = record { aligned = omega arith; bounded = omega arith; inside = omega arith }

abbrev pub source : Bytes
source p = p + 1

-- The first word, written by transaction 1.
abbrev pub marked : ℕ → Control
marked i =
    if i == 0 then record { access = 1; written = true; many_accesses = false } else untouched

abbrev pub half_written : Segment
half_written = record sample { control = marked; write = λ p. if ltb p 8 then p + 1 else 0 }

pub half_written-Agrees : Agrees 8 half_written
half_written-Agrees = record { agrees = λ i k h l u. ground arith }

_tm_write-WriteLoop_example :
    Ensures (WriteLoop 8 1 source 0 0 1 sample) (_tm_write 8 1 source (1 * 8) sample (0 * 8))
_tm_write-WriteLoop_example = _tm_write-WriteLoop 8 1 0 1 sample sample-IsRange source refl

a_reader : is_tx_readonly 2 ≡ false
unfolding is_tx_readonly
a_reader = refl

_tm_read-ReadLoop_example :
    Ensures (Asked 8 2 0 1 sample source) (_tm_read 8 2 (1 * 8) source sample (0 * 8))
_tm_read-ReadLoop_example = _tm_read-ReadLoop 8 2 0 1 sample sample-IsRange source refl a_reader

abbrev written : Segment
unfolding set_control memcpy can_write_word cas_access claim_word
written = record sample {
  control =
      set_control 0 (record { access = 2; written = true; many_accesses = false }) (λ _. untouched);
  write = memcpy (λ _. 0) 0 source 0 8;
}

_tm_read-_tm_write_example :
    Ensures (ReadsBack 8 0 1 source) (_tm_read 8 2 (1 * 8) source written (0 * 8))
unfolding _tm_write write_words write_word can_write_word cas_access claim_word written
_tm_read-_tm_write_example =
    _tm_read-_tm_write 8 2 0 1 sample written source source sample-IsRange refl a_reader refl

commit_segment-rollback_segment_example :
    (commit_segment 8 (undone 8 1 half_written)).read (0 * 8 + 3) ≡ (
      if (half_written.control 0).written && not (wrote 1 (half_written.control 0))
      then half_written.write (0 * 8 + 3)
      else half_written.read (0 * 8 + 3))
commit_segment-rollback_segment_example =
    commit_segment-rollback_segment 8 1 half_written 0 3 (omega arith) (omega arith)
      half_written-Agrees

abbrev ops : List SegOp
ops = write_op 1 source 0 1 ∷ read_op 2 source 0 2 ∷ undo_op 1 ∷ []

seg_run-IsSnapshot_example : Ensures (IsSnapshot 8 sample) (seg_run 8 ops sample)
seg_run-IsSnapshot_example =
    seg_run-IsSnapshot 8 2 ops sample (omega arith) (omega arith) refl sample-Agrees
      (omega arith, (omega arith, (tt, tt)))

block : IsBlock 8 16 1024
unfolding fst_aligned_offset pow2_exp clzl bit_length
block = record {
  aligned = omega arith;
  small = omega arith;
  block_aligned = refl;
  user = omega arith;
}

new_segment_layout_example :
    (1024 + sizeof_segment ≤ (new_segment 8 16 1 1024).control_at)
    × ((new_segment 8 16 1 1024).control_at + control_size 8 16 ≡ (new_segment 8 16 1 1024).read_at)
    × ((new_segment 8 16 1 1024).read_at + 16 ≡ (new_segment 8 16 1 1024).write_at)
    × ((new_segment 8 16 1 1024).write_at + 16 ≤ 1024 + 2 ^ (new_segment 8 16 1 1024).pow2_exp)
    × (1024 % 2 ^ (new_segment 8 16 1 1024).pow2_exp ≡ 0)
new_segment_layout_example = new_segment_layout 8 16 1 1024 block

cons_opaque_ptr_for_seg_lem_example :
    (get_opaque_ptr_seg (cons_opaque_ptr_for_seg (new_segment 8 16 1 1024) + 5) ≡ some 1024)
    × (get_opaque_ptr_word (cons_opaque_ptr_for_seg (new_segment 8 16 1 1024) + 5)
        ≡ (new_segment 8 16 1 1024).read_at + 5)
    × (get_word_seg_offset
          (get_opaque_ptr_word (cons_opaque_ptr_for_seg (new_segment 8 16 1 1024) + 5))
          (new_segment 8 16 1 1024).read_at
        ≡ 5)
cons_opaque_ptr_for_seg_lem_example = cons_opaque_ptr_for_seg_lem 8 16 1 1024 block 5 (omega arith)
