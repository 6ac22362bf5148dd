-- ===== src/Word/Cases.antt =====
-- The branches of the word operations, as equations.
use transactional_memory.Base.{ℕ, ◌≡◌, ◌⊎◌, true, false, not, ◌&&◌, ◌==◌, arith}
use transactional_memory.Word.{
  Control, cas_access, note_reader, claim_word, can_read_word, can_write_word, wrote,
}

module _ (t : ℕ) (c : Control) where
  pub cas_access_free : (c.access == 0) ≡ true → cas_access t c ≡ record c { access = t }
  unfolding cas_access
  cas_access_free z = rw z

  pub cas_access_taken : (c.access == 0) ≡ false → cas_access t c ≡ c
  unfolding cas_access
  cas_access_taken z = rw z

  pub written-cas_access : (cas_access t c).written ≡ c.written
  unfolding cas_access
  written-cas_access = ground arith

  pub many_accesses-cas_access : (cas_access t c).many_accesses ≡ c.many_accesses
  unfolding cas_access
  many_accesses-cas_access = ground arith

  pub note_reader_own : (c.access == t) ≡ true → note_reader t c ≡ c
  unfolding note_reader
  note_reader_own z = rw z

  pub note_reader_other :
      (c.access == t) ≡ false → note_reader t c ≡ record c { many_accesses = true }
  unfolding note_reader
  note_reader_other z = rw z

  pub claim_word_alone :
      (c.access == t && not c.many_accesses) ≡ true
      → claim_word t c ≡ (true, record c { written = true })
  unfolding claim_word
  claim_word_alone z = rw z

  pub claim_word_shared :
      (c.access == t && not c.many_accesses) ≡ false → claim_word t c ≡ (false, c)
  unfolding claim_word
  claim_word_shared z = rw z

  pub can_read_word_own : c.written ≡ true → (c.access == t) ≡ true → can_read_word t c ≡ (true, c)
  unfolding can_read_word
  can_read_word_own w m = ground arith

  pub can_read_word_other :
      c.written ≡ true → (c.access == t) ≡ false → can_read_word t c ≡ (false, c)
  unfolding can_read_word
  can_read_word_other w m = ground arith

  pub can_read_word_free :
      c.written ≡ false → can_read_word t c ≡ (true, note_reader t (cas_access t c))
  unfolding can_read_word
  can_read_word_free w = ground arith

  pub can_write_word_own :
      c.written ≡ true
      → (c.access == t) ≡ true
      → c.many_accesses ≡ false
      → can_write_word t c ≡ (true, c)
  unfolding can_write_word
  can_write_word_own w m s = ground arith

  pub can_write_word_other :
      c.written ≡ true → (c.access == t) ≡ false → can_write_word t c ≡ (false, c)
  unfolding can_write_word
  can_write_word_other w m = ground arith

  pub can_write_word_free : c.written ≡ false → can_write_word t c ≡ claim_word t (cas_access t c)
  unfolding can_write_word
  can_write_word_free w = ground arith

  -- A granted write leaves the word written by the transaction, and a refused one or a read leaves
  -- the mark as it was.
  pub wrote-can_write_word : (can_write_word t c).0 ≡ true → wrote t (can_write_word t c).1 ≡ true
  unfolding can_write_word
  wrote-can_write_word h = ground arith

  pub written-can_write_word_refused :
      (can_write_word t c).0 ≡ false → (can_write_word t c).1.written ≡ c.written
  unfolding can_write_word
  written-can_write_word_refused h = ground arith

  pub written-can_read_word : (can_read_word t c).1.written ≡ c.written
  unfolding can_read_word
  written-can_read_word = ground arith

  -- A granted read leaves a word that nobody has written, or that the reader has.
  pub can_read_word-wrote :
      (can_read_word t c).0 ≡ true
      → ((can_read_word t c).1.written ≡ false) ⊎ (wrote t (can_read_word t c).1 ≡ true)
  unfolding can_read_word
  can_read_word-wrote h = ground arith

  -- A read is refused only if another transaction has written the word.
  pub can_read_word_refused :
      (can_read_word t c).0 ≡ false → (c.written ≡ true) × ((c.access == t) ≡ false)
  unfolding can_read_word
  can_read_word_refused h = ground arith
