-- ===== src/Word/Tracks.antt =====
-- What the control of a word records of the accesses that it granted: an invariant of the two
-- word operations of template/tm.c.
use transactional_memory.Base.{
  ℕ, ◌≡◌, ◌≢◌, refl, sym, ◌∙◌, inl, inr, true, false, not, ◌&&◌, List, [], ◌∷◌, ◌==◌, arith,
  Bool-cases, ==_iff, All, All-map,
}
use transactional_memory.Word.{
  Control, can_read_word, can_write_word, cas_access, note_reader, claim_word,
}
use transactional_memory.Word.Cases.{
  cas_access_free, cas_access_taken, written-cas_access, note_reader_own, note_reader_other,
  claim_word_alone, claim_word_shared, can_read_word_own, can_read_word_other, can_read_word_free,
  can_write_word_own, can_write_word_other, can_write_word_free,
}
use transactional_memory.Word.History.{Access, read_by, write_by, tx_of, Word, fresh, granted}

abbrev pub IsWrite : Access → Type 0
IsWrite (read_by t) = ⊥
IsWrite (write_by t) = Unit

-- What the control of a word says about the log.
pub record Tracks (w : Word) : Type 0 where
  pub known : All (λ a. tx_of a ≢ 0) w.log
  pub sole : w.control.many_accesses ≡ false → All (λ a. tx_of a ≡ w.control.access) w.log
  pub exclusive : w.control.written ≡ true → w.control.many_accesses ≡ false
  pub writes : All (λ a. IsWrite a → w.control.written ≡ true) w.log

pub Tracks-fresh : Tracks fresh
Tracks-fresh = record { known = tt; sole = λ _. tt; exclusive = λ _. refl; writes = tt }

-- A log whose accesses have an owner that is 0 is empty.
no_owner :
    (l : List Access) (k : ℕ) → k ≡ 0 → All (λ a. tx_of a ≢ 0) l → All (λ a. tx_of a ≡ k) l → l ≡ []
no_owner [] k z p q = refl
no_owner (a ∷ l) k z p q = absurd (p.0 (q.0 ∙ z))

abbrev pub word : Control → List Access → Word
word c l = record { control = c; log = l }

module _ (t : ℕ) (nz : t ≢ 0) (l : List Access) where
  Tracks-cas_access : (c : Control) → Tracks (word c l) → Tracks (word (cas_access t c) l)
  Tracks-cas_access c i = elim (Bool-cases (c.access == 0)) [
    | inl z ↦ rw (cas_access_free t c z) (record {
      known = i.known;
      sole = λ m. rw (no_owner l c.access ((==_iff c.access 0).0 z) i.known (i.sole m)) tt;
      exclusive = i.exclusive;
      writes = i.writes;
    })
    | inr taken ↦ rw (cas_access_taken t c taken) i
  ]

  -- The owner of a word may add a read.
  Tracks-read :
      (c : Control) → (c.access == t) ≡ true → Tracks (word c l) → Tracks (word c (read_by t ∷ l))
  Tracks-read c mine i = record {
    known = (nz, i.known);
    sole = λ m. (sym ((==_iff c.access t).0 mine), i.sole m);
    exclusive = i.exclusive;
    writes = (λ e. absurd e, i.writes);
  }

  -- Another reader marks the word, which then takes no write.
  Tracks-shared_read :
      (c : Control)
      → c.written ≡ false
      → Tracks (word c l)
      → Tracks (word (record c { many_accesses = true }) (read_by t ∷ l))
  Tracks-shared_read c w i = record {
    known = (nz, i.known);
    sole = λ m. cc;
    exclusive = λ v. cc;
    writes = (λ e. absurd e, i.writes);
  }

  -- A transaction that owns the word alone may add a write.
  Tracks-write :
      (c : Control)
      → (c.access == t) ≡ true
      → c.many_accesses ≡ false
      → Tracks (word c l)
      → Tracks (word (record c { written = true }) (write_by t ∷ l))
  Tracks-write c mine single i = record {
    known = (nz, i.known);
    sole = λ m. (sym ((==_iff c.access t).0 mine), i.sole m);
    exclusive = λ _. single;
    writes = (λ _. refl, All-map (λ a _ _. refl) l i.writes);
  }

  Tracks-rewrite :
      (c : Control)
      → (c.access == t) ≡ true
      → c.written ≡ true
      → Tracks (word c l)
      → Tracks (word c (write_by t ∷ l))
  Tracks-rewrite c mine w i = record {
    known = (nz, i.known);
    sole = λ m. (sym ((==_iff c.access t).0 mine), i.sole m);
    exclusive = i.exclusive;
    writes = (λ _. w, i.writes);
  }

  Tracks-note_reader :
      (c : Control)
      → c.written ≡ false
      → Tracks (word c l)
      → Tracks (word (note_reader t c) (read_by t ∷ l))
  Tracks-note_reader c w i = elim (Bool-cases (c.access == t)) [
    | inl mine ↦ rw (note_reader_own t c mine) (Tracks-read c mine i)
    | inr other ↦ rw (note_reader_other t c other) (Tracks-shared_read c w i)
  ]

  Tracks-claim_word :
      (c : Control) → Tracks (word c l) → Tracks (granted (write_by t) l (claim_word t c))
  Tracks-claim_word c i = elim (Bool-cases (c.access == t && not c.many_accesses)) [
    | inl alone ↦ rw (claim_word_alone t c alone) (Tracks-write c (ground arith) (ground arith) i)
    | inr shared ↦ rw (claim_word_shared t c shared) i
  ]

  pub Tracks-can_read_word :
      (c : Control) → Tracks (word c l) → Tracks (granted (read_by t) l (can_read_word t c))
  Tracks-can_read_word c i = elim (Bool-cases c.written) [
    | inl w ↦ elim (Bool-cases (c.access == t)) [
      | inl mine ↦ rw (can_read_word_own t c w mine) (Tracks-read c mine i)
      | inr other ↦ rw (can_read_word_other t c w other) i
    ]
    | inr free ↦ rw (can_read_word_free t c free) (
        Tracks-note_reader (cas_access t c) (written-cas_access t c ∙ free) (Tracks-cas_access c i))
  ]

  pub Tracks-can_write_word :
      (c : Control) → Tracks (word c l) → Tracks (granted (write_by t) l (can_write_word t c))
  Tracks-can_write_word c i = elim (Bool-cases c.written) [
    | inl w ↦ elim (Bool-cases (c.access == t)) [
      | inl mine ↦ rw (can_write_word_own t c w mine (i.exclusive w)) (Tracks-rewrite c mine w i)
      | inr other ↦ rw (can_write_word_other t c w other) i
    ]
    | inr free ↦
        rw (can_write_word_free t c free)
          (Tracks-claim_word (cas_access t c) (Tracks-cas_access c i))
  ]
