-- ===== src/Segment.antt =====
-- A segment of transactional memory (template/segment.h: `segment_t`): two copies of its bytes and
-- a control word for each `align` bytes. The operations of template/tm.c on one segment.
use transactional_memory.Base.{
  ℕ, zero, suc, ◌+◌, ◌-◌, ◌*◌, ◌/◌, Bool, true, false, not, ◌&&◌, ◌||◌, Run, ok, fault, out_of_fuel,
  ◌>>=◌, ltb, leb, ◌==◌, if◌then◌else◌,
}
use transactional_memory.Words.{add64}
use transactional_memory.Opaque.{is_tx_readonly, cons_opaque_ptr}
use transactional_memory.Word.{
  Control, untouched, can_read_word, can_write_word, wrote, rollback_control,
}
pub mod Words
pub mod WriteLoop
pub mod ReadLoop
pub mod Transfer
pub mod Rollback
pub mod Commit
pub mod Epoch
pub mod Alloc
pub mod Tests

-- A buffer, by offset. Its size stands beside it, and each access is checked against that.
abbrev pub Bytes : Type 0
Bytes = ℕ → ℕ

-- `memcpy(dst + d, src + s, n)`
unfoldable pub memcpy : (dst : Bytes) (d : ℕ) (src : Bytes) (s n : ℕ) → Bytes
memcpy dst d src s n j = if leb d j && ltb j (d + n) then src (s + (j - d)) else dst j

-- `link` is the address of the segment's link, and 0 for none. `control_at`, `read_at` and
-- `write_at` are the addresses in the fields `control`, `read` and `write`; the fields that are
-- named so here hold what lies there.
pub record Segment : Type 0 where
  pub canary : ℕ
  pub size : ℕ
  pub pow2_exp : ℕ
  pub owner : ℕ
  pub link : ℕ
  pub newly_alloc : Bool
  pub should_free : Bool
  pub dirty : Bool
  pub rollback : Bool
  pub control_at : ℕ
  pub read_at : ℕ
  pub write_at : ℕ
  pub control : ℕ → Control
  pub read : Bytes
  pub write : Bytes

-- `cons_opaque_ptr_for_seg`
abbrev pub cons_opaque_ptr_for_seg : Segment → ℕ
cons_opaque_ptr_for_seg seg = cons_opaque_ptr seg.pow2_exp seg.read_at

abbrev pub words_count : (align : ℕ) → Segment → ℕ
words_count align seg = seg.size / align

unfoldable pub set_control : ℕ → Control → (ℕ → Control) → ℕ → Control
set_control i c f j = if i == j then c else f j

-- A segment that another transaction allocated in this epoch is out of reach.
abbrev pub is_foreign : ℕ → Segment → Bool
is_foreign tx seg = seg.newly_alloc && not (seg.owner == tx)

-- `if (!success) return false;`, and what follows.
abbrev pub if_success : Bool × Segment → (Segment → Run (Bool × Segment)) → Run (Bool × Segment)
if_success (true, seg) rest = rest seg
if_success (false, seg) rest = ok (false, seg)

module _ (align tx : ℕ) where
  -- One round of the loop of `_tm_read`, under the word's lock.
  unfoldable pub read_word : ℕ → Segment → Run (Bool × Segment)
  unfolding set_control
  read_word i seg =
      if ltb i (words_count align seg)
      then (let r = can_read_word tx (seg.control i) in
          ok (r.0, record seg { control = set_control i r.1 seg.control }))
      else fault

  -- `while (offset < size)` of `_tm_read`; a word that refuses ends it.
  unfoldable pub read_words :
      (fuel size : ℕ) → Segment → (offset word_count : ℕ) → Run (Bool × Segment)
  read_words zero size seg offset word_count = out_of_fuel
  read_words (suc fuel) size seg offset word_count =
      if ltb offset size
      then (read_word word_count seg >>= λ r.
          if_success r λ seg'. read_words fuel size seg' (add64 offset align) (add64 word_count 1))
      else ok (true, seg)

  -- `_tm_read`. The result is the answer, the segment, and the private buffer, which a read-only
  -- transaction fills here, from the committed copy.
  unfoldable pub _tm_read :
      (size : ℕ) → (target : Bytes) → Segment → (read_offset : ℕ) → Run (Bool × Segment × Bytes)
  _tm_read size target seg read_offset =
      if is_foreign tx seg
      then ok (false, seg, target)
      else (if is_tx_readonly tx
          then (if leb (read_offset + size) seg.size
              then ok (true, seg, memcpy target 0 seg.read read_offset size)
              else fault)
          else (read_words (suc size) size seg 0 (read_offset / align) >>= λ r.
              ok (r.0, r.1, target)))

  -- One round of the loop of `_tm_write`: the test under the word's lock, then the copy of one
  -- word to `actual_target + offset`, that is to `at` in the working copy.
  unfoldable pub write_word : (source : Bytes) → Segment → (offset at i : ℕ) → Run (Bool × Segment)
  unfolding set_control memcpy
  write_word source seg offset at i =
      if ltb i (words_count align seg)
      then (let r = can_write_word tx (seg.control i) in
          let seg' = record seg { control = set_control i r.1 seg.control } in
          if r.0
          then (if leb (at + align) seg.size
              then ok (true, record seg' { write = memcpy seg.write at source offset align })
              else fault)
          else ok (false, seg'))
      else fault

  unfoldable pub write_words :
      (fuel size : ℕ)
      → (source : Bytes) → Segment
      → (write_offset offset word_count : ℕ) → Run (Bool × Segment)
  write_words zero size source seg write_offset offset word_count = out_of_fuel
  write_words (suc fuel) size source seg write_offset offset word_count =
      if ltb offset size
      then (write_word source seg offset (write_offset + offset) word_count >>= λ r.
          if_success r λ seg'.
            write_words fuel size source seg' write_offset (add64 offset align)
              (add64 word_count 1))
      else ok (true, seg)

  unfoldable pub _tm_write :
      (source : Bytes) → (size : ℕ) → Segment → (write_offset : ℕ) → Run (Bool × Segment)
  _tm_write source size seg write_offset =
      if is_foreign tx seg
      then ok (false, seg)
      else (if ltb seg.size write_offset
          then ok (false, seg)
          else write_words (suc size) size source seg write_offset 0 (write_offset / align))

  -- The body of the inner loop of `rollback_transaction`.
  unfoldable pub rollback_word : ℕ → Segment → Segment
  unfolding set_control memcpy
  rollback_word i seg =
      if wrote tx (seg.control i)
      then record seg {
        write = memcpy seg.write (i * align) seg.read (i * align) align;
        control = set_control i (rollback_control tx (seg.control i)) seg.control;
      }
      else seg

  -- The words below `n`, from the first.
  unfoldable pub rollback_words : ℕ → Segment → Segment
  rollback_words zero seg = seg
  rollback_words (suc n) seg = rollback_word n (rollback_words n seg)

  -- `if (seg->owner == tx) seg->rollback = true;`
  unfoldable pub flag_rollback : Segment → Segment
  flag_rollback seg = if seg.owner == tx then record seg { rollback = true } else seg

  -- The body of the outer loop of `rollback_transaction`.
  unfoldable pub rollback_segment : Segment → Segment
  rollback_segment seg = rollback_words (words_count align seg) (flag_rollback seg)

-- `memset(seg->control, 0, control_size)`
unfoldable pub clear_control : ℕ → (ℕ → Control) → ℕ → Control
clear_control n f j = if ltb j n then untouched else f j

-- The branch of `epoch_cleanup` that commits a segment, up to the call of `move_to_clean`.
abbrev pub publish : (align : ℕ) → Segment → Segment
publish align seg = record seg {
  control = clear_control (words_count align seg) seg.control;
  read = memcpy seg.read 0 seg.write 0 seg.size;
}

-- And from there on.
abbrev pub reset : Segment → Segment
reset seg = record seg {
  owner = 0;
  newly_alloc = false;
  should_free = false;
  dirty = false;
  rollback = false;
}

unfoldable pub commit_segment : (align : ℕ) → Segment → Segment
unfolding clear_control memcpy
commit_segment align seg = reset (publish align seg)

-- The branch of `epoch_cleanup` that frees it.
abbrev pub is_released : Segment → Bool
is_released seg = (not seg.rollback && seg.should_free) || (seg.rollback && seg.newly_alloc)
