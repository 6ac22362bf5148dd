-- ===== src/Word.antt =====
-- One word of a segment (template/segment.h: `control_t`) and the two tests that decide whether a
-- transaction may touch it (template/tm.c: `can_read_word`, `can_write_word`). Each runs between
-- the acquire and the release of the word's spinlock, so it is one step.
use transactional_memory.Base.{ℕ, Bool, true, false, not, ◌&&◌, ◌==◌, if◌then◌else◌}
pub mod Cases
pub mod History
pub mod Tracks
pub mod Conflicts
pub mod Tests

-- `access` is the transaction that owns the word, and 0 for none.
pub record Control : Type 0 where
  pub access : ℕ
  pub written : Bool
  pub many_accesses : Bool

-- What `memset` to 0 leaves.
abbrev pub untouched : Control
untouched = record { access = 0; written = false; many_accesses = false }

-- `CAS(&access, 0, tx)`
unfoldable pub cas_access : ℕ → Control → Control
cas_access tx c = if c.access == 0 then record c { access = tx } else c

unfoldable pub note_reader : ℕ → Control → Control
note_reader tx c = if c.access == tx then c else record c { many_accesses = true }

unfoldable pub can_read_word : ℕ → Control → Bool × Control
unfolding cas_access note_reader
can_read_word tx c =
    if c.written
    then (if c.access == tx then (true, c) else (false, c))
    else (true, note_reader tx (cas_access tx c))

unfoldable pub claim_word : ℕ → Control → Bool × Control
claim_word tx c =
    if c.access == tx && not c.many_accesses
    then (true, record c { written = true })
    else (false, c)

unfoldable pub can_write_word : ℕ → Control → Bool × Control
unfolding cas_access claim_word
can_write_word tx c =
    if c.written
    then (if c.access == tx
        then (if c.many_accesses then (false, c) else (true, c))
        else (false, c))
    else claim_word tx (cas_access tx c)

-- The test that `rollback_transaction` makes of a word, and what it leaves of the control.
abbrev pub wrote : ℕ → Control → Bool
wrote tx c = c.written && c.access == tx

unfoldable pub rollback_control : ℕ → Control → Control
rollback_control tx c = if wrote tx c then record c { access = 0; written = false } else c
