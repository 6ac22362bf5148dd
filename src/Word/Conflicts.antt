-- ===== src/Word/Conflicts.antt =====
-- The accesses that one word grants between two epochs never conflict, whatever transactions try
-- and however they interleave.
use transactional_memory.Base.{
  ℕ, ◌≡◌, ◌≢◌, refl, sym, ◌∙◌, inl, inr, true, false, List, [], ◌∷◌, ◌==◌, arith, Bool-cases,
  ==_iff, All, In,
}
use transactional_memory.Word.{Control, can_write_word, rollback_control, wrote}
use transactional_memory.Word.Cases.{can_write_word_own}
use transactional_memory.Word.History.{
  Access, write_by, tx_of, Op, try_read, try_write, rollback, op_tx, Word, fresh, forget, step, run,
}
use transactional_memory.Word.Tracks.{
  Tracks, Tracks-fresh, word, Tracks-can_read_word, Tracks-can_write_word,
}

All-forget : (P : Access → Type 0) (t : ℕ) (l : List Access) → All P l → All P (forget t l)
unfolding forget
All-forget P t [] h = tt
All-forget P t (a ∷ l) h = elim (Bool-cases (tx_of a == t)) [
  | inl mine ↦ rw mine (All-forget P t l h.1)
  | inr other ↦ rw other (h.0, All-forget P t l h.1)
]

-- Where all accesses are those of one transaction, forgetting it empties the log.
forget-own : (t : ℕ) (l : List Access) → All (λ a. tx_of a ≡ t) l → forget t l ≡ []
unfolding forget
forget-own t [] h = refl
forget-own t (a ∷ l) h = rw (h.0, (==_iff t t).1 refl) (forget-own t l h.1)

module _ (t : ℕ) (l : List Access) where
  Tracks-wrote :
      (c : Control)
      → wrote t c ≡ true
      → Tracks (word c l)
      → Tracks (word (record c { access = 0; written = false }) (forget t l))
  Tracks-wrote c h i =
      let w : c.written ≡ true = ground arith in
      let mine : c.access ≡ t = ground arith in
      rw (forget-own t l (rw mine at (i.sole (i.exclusive w))))
        (record { known = tt; sole = λ _. tt; exclusive = λ v. cc; writes = tt })

  Tracks-forget : (c : Control) → Tracks (word c l) → Tracks (word c (forget t l))
  Tracks-forget c i = record {
    known = All-forget _ t l i.known;
    sole = λ m. All-forget _ t l (i.sole m);
    exclusive = i.exclusive;
    writes = All-forget _ t l i.writes;
  }

  Tracks-rollback_control :
      (c : Control) → Tracks (word c l) → Tracks (word (rollback_control t c) (forget t l))
  unfolding rollback_control
  Tracks-rollback_control c i = elim (Bool-cases (wrote t c)) [
    | inl w ↦ rw w (Tracks-wrote c w i)
    | inr nw ↦ rw nw (Tracks-forget c i)
  ]

Tracks-step : (o : Op) (w : Word) → op_tx o ≢ 0 → Tracks w → Tracks (step o w)
unfolding step
Tracks-step (try_read t) w nz i = Tracks-can_read_word t nz w.log w.control i
Tracks-step (try_write t) w nz i = Tracks-can_write_word t nz w.log w.control i
Tracks-step (rollback t) w nz i = Tracks-rollback_control t w.log w.control i

pub Tracks-run :
    (os : List Op) (w : Word) → All (λ o. op_tx o ≢ 0) os → Tracks w → Tracks (run os w)
unfolding run
Tracks-run [] w nz i = i
Tracks-run (o ∷ os) w nz i = Tracks-run os (step o w) nz.1 (Tracks-step o w nz.0 i)

module _ (P : Access → Type 0) where
  In-All : (a : Access) (l : List Access) → All P l → In a l → P a
  In-All a [] h m = absurd m
  In-All a (b ∷ l) h (inl e) = rw e h.0
  In-All a (b ∷ l) h (inr m) = In-All a l h.1 m

-- Isolation of one word: of transactions whose identifiers are not 0, in whatever order they read,
-- write and roll back, if a write was granted to one that did not roll back, then every read and
-- every write that the word granted to one that did not is of the same transaction.
pub run-conflict_free :
    (os : List Op) (t : ℕ) (b : Access)
    → All (λ o. op_tx o ≢ 0) os
    → In (write_by t) (run os fresh).log
    → In b (run os fresh).log
    → tx_of b ≡ t
run-conflict_free os t b nz m n =
    let i = Tracks-run os fresh nz Tracks-fresh in
    let sole = i.sole (i.exclusive (In-All _ _ _ i.writes m tt)) in
    In-All _ _ _ sole n ∙ sym (In-All _ _ _ sole m)

-- After any reads, writes and rollbacks by transactions whose identifiers are not 0, the owner of a written word
-- can write it again: the test of `many_accesses` in the first branch of `can_write_word` never
-- refuses.
pub can_write_word-own :
    (os : List Op) (t : ℕ)
    → All (λ o. op_tx o ≢ 0) os
    → wrote t (run os fresh).control ≡ true
    → can_write_word t (run os fresh).control ≡ (true, (run os fresh).control)
can_write_word-own os t nz h =
    let i = Tracks-run os fresh nz Tracks-fresh in
    let w : (run os fresh).control.written ≡ true = ground arith in
    can_write_word_own t (run os fresh).control w (ground arith) (i.exclusive w)
