-- ===== src/Word/Tests.antt =====
-- Concrete runs of one word (template/tm.c: `can_read_word`, `can_write_word`).
use transactional_memory.Base.{◌≡◌, ◌≢◌, refl, inl, inr, true, false, List, [], ◌∷◌, All}
use transactional_memory.Word.{
  cas_access, note_reader, claim_word, can_read_word, can_write_word, rollback_control,
}
use transactional_memory.Word.History.{
  Op, try_read, try_write, rollback, read_by, op_tx, tx_of, forget, step, run, fresh,
}
use transactional_memory.Word.Conflicts.{run-conflict_free, can_write_word-own}

-- Transaction 1 reads and writes the word, 2 is refused and rolls back.
abbrev ops : List Op
ops = try_read 1 ∷ try_write 1 ∷ try_write 2 ∷ rollback 2 ∷ []

ops-IsReal : All (λ o. op_tx o ≢ 0) ops
ops-IsReal = ((λ e. cc), ((λ e. cc), ((λ e. cc), ((λ e. cc), tt))))

run-conflict_free_example : tx_of (read_by 1) ≡ 1
unfolding run step forget can_read_word can_write_word cas_access note_reader claim_word
    rollback_control
run-conflict_free_example =
    run-conflict_free ops 1 (read_by 1) ops-IsReal (inl refl) (inr (inl refl))

can_write_word-own_example :
    can_write_word 1 (run ops fresh).control ≡ (true, (run ops fresh).control)
unfolding run step forget can_read_word can_write_word cas_access note_reader claim_word
    rollback_control
can_write_word-own_example = can_write_word-own ops 1 ops-IsReal refl

-- A second reader shuts out every writer of the epoch.
two_readers : (can_write_word 1 (run (try_read 1 ∷ try_read 2 ∷ []) fresh).control).0 ≡ false
unfolding run step can_read_word can_write_word cas_access note_reader claim_word
two_readers = refl
