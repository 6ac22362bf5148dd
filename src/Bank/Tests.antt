-- ===== src/Bank/Tests.antt =====
-- A bank of two segments with three accounts (grading/workload.hpp).
use transactional_memory.Base.{
  ◌*◌, ◌%◌, ◌^◌, ◌≡◌, refl, Bool, true, false, List, none, some, [], ◌∷◌, ok, Ensures, ◌==◌,
  if◌then◌else◌, arith,
}
use transactional_memory.Bank.{
  AccountSegment, Memory, find, short_tx, sum_accounts, sum_segments, long_tx, Choice, control,
  allocation, transfers, init, run,
}
use transactional_memory.Bank.Accounts.{total, accounts_in, IsChain, long_tx-total}
use transactional_memory.Bank.Transfer.{Exists, Kept}
use transactional_memory.Bank.Search.{short_tx-Kept}
use transactional_memory.Bank.Banks.{IsBank}
use transactional_memory.Bank.Initial.{init-run-IsSound}
use transactional_memory.Bank.Rounds.{IsSound, run-IsSound}

abbrev first_segment : AccountSegment
first_segment = record { count = 2; next = 16; parity = 0; accounts = λ _. 100 }

abbrev second_segment : AccountSegment
second_segment = record { count = 1; next = 0; parity = 0; accounts = λ _. 100 }

abbrev bank : Memory
bank p = if p == 8 then some first_segment else (if p == 16 then some second_segment else none)

bank-IsChain : IsChain bank 8 (8 ∷ 16 ∷ [])
bank-IsChain = (
  refl,
  (λ e. cc),
  (first_segment, refl, λ i h. omega arith),
  (refl, (λ e. cc), (second_segment, refl, λ i h. omega arith), refl),
)

long_tx-total_example :
    long_tx 3 100 bank 8
    ≡ ok (
      total bank (8 ∷ 16 ∷ []) % 2 ^ 64 == 100 * (accounts_in bank (8 ∷ 16 ∷ []) % 2 ^ 64) % 2 ^ 64,
      accounts_in bank (8 ∷ 16 ∷ []) % 2 ^ 64,
    )
long_tx-total_example = long_tx-total 3 100 bank 8 (8 ∷ 16 ∷ []) (omega arith) bank-IsChain

consistent : long_tx 3 100 bank 8 ≡ ok (true, 3)
unfolding long_tx sum_segments sum_accounts find
consistent = refl

inconsistent : long_tx 3 99 bank 8 ≡ ok (false, 3)
unfolding long_tx sum_segments sum_accounts find
inconsistent = refl

sender : Exists bank (8 ∷ 16 ∷ []) (8, 1)
sender = record { seg = first_segment; found = refl; listed = refl; held = omega arith }

recver : Exists bank (8 ∷ 16 ∷ []) (16, 0)
recver = record { seg = second_segment; found = refl; listed = refl; held = omega arith }

short_tx-Kept_example :
    Ensures (λ (r : Bool × Memory). Kept (8 ∷ 16 ∷ []) bank r.1) (short_tx 2 bank 8 1 2)
short_tx-Kept_example =
    short_tx-Kept 2 8 (16 ∷ []) bank 8 1 2 (omega arith) (refl, (refl, tt)) bank-IsChain

bank-IsBank : IsBank 100 3 bank 8 (8 ∷ 16 ∷ [])
bank-IsBank = record {
  path = (refl, (λ e. omega arith), omega arith, (refl, (λ e. omega arith), omega arith, refl));
  distinct = (refl, (refl, tt));
  sum = refl;
  bounded = omega arith;
  counted = omega arith;
}

-- The second segment is freed, one is opened, and a transfer comes to the first account.
abbrev choices : List Choice
choices = control ∷ allocation 2 24 ∷ allocation 9 32 ∷ transfers ((7, 1) ∷ (0, 0) ∷ []) ∷ []

run-IsSound_example :
    Ensures
      (IsSound 100 2 7 8 7 (omega arith) (omega arith) (omega arith))
      (run 7 100 2 8 choices bank)
run-IsSound_example =
    run-IsSound 100 2 7 8 7 (omega arith) (omega arith) (omega arith) choices 3 bank 8 (16 ∷ [])
      (8 ∷ 16 ∷ []) bank-IsBank (λ q out. out)
      ((λ e. omega arith), refl, ((λ e. omega arith), refl, (refl, tt))) (omega arith) (omega arith)

-- The first segment of a new region.
abbrev empty_segment : AccountSegment
empty_segment = record { count = 0; next = 0; parity = 0; accounts = λ _. 0 }

abbrev new_region : Memory
new_region p = if p == 8 then some empty_segment else none

init-run-IsSound_example :
    Ensures
      (λ (r : Bool × Memory).
        (r.0 ≡ true)
        × Ensures
            (IsSound 100 2 6 8 6 (omega arith) (omega arith) (omega arith))
            (run 6 100 2 8 choices r.1))
      (init 2 100 8 new_region)
init-run-IsSound_example =
    init-run-IsSound 2 100 8 new_region empty_segment refl refl refl (λ e. omega arith)
      (omega arith) 6 6 choices (omega arith) (omega arith) (omega arith)
      ((λ e. omega arith), refl, ((λ e. omega arith), refl, (refl, tt))) (omega arith) (omega arith)
