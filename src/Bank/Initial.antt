-- ===== src/Bank/Initial.antt =====
-- The bank that `init` makes, and a worker on it (grading/workload.hpp).
use transactional_memory.Base.{
  ℕ, zero, suc, ◌+◌, ◌*◌, ◌%◌, ◌^◌, ◌≤◌, ◌<◌, ◌≡◌, ◌≢◌, refl, sym, ◌∙◌, ap, Bool, true, some, List,
  [], ◌∷◌, ok, ◌>>=◌, Ensures, ◌==◌, ==_iff, length, ℕ_discrete, arith,
}
use mathlib.Core.Path.{subst}
use transactional_memory.Bank.{
  AccountSegment, Memory, put, set_account, read_account, fill_accounts, init, Choice, run,
}
use transactional_memory.Bank.Accounts.{
  sum_of, weigh, parity_of, no_weight, seg_count, seg_next, accounts_in, find-ok,
}
use transactional_memory.Bank.Sums.{put-same}
use transactional_memory.Bank.Banks.{IsUsed, IsBank}
use transactional_memory.Bank.Sums.{times_suc}
use transactional_memory.Bank.Rounds.{IsServed, IsSound, run-IsSound}

fill_accounts-below :
    (init_balance n i : ℕ) (f : ℕ → ℕ) (j : ℕ) → j < i → fill_accounts init_balance n i f j ≡ f j
unfolding fill_accounts set_account
fill_accounts-below init_balance zero i f j lt = refl
fill_accounts-below init_balance (suc n) i f j lt =
    let there : set_account i init_balance f j ≡ f j = ground arith in
    fill_accounts-below init_balance n (suc i) (set_account i init_balance f) j (omega arith)
    ∙ there

fill_accounts-within :
    (init_balance n i : ℕ) (f : ℕ → ℕ) (j : ℕ)
    → i ≤ j
    → j < i + n
    → fill_accounts init_balance n i f j ≡ init_balance
unfolding fill_accounts set_account
fill_accounts-within init_balance zero i f j lo hi = absurd (omega arith)
fill_accounts-within init_balance (suc n) i f j lo hi = elim (ℕ_discrete j i) [
  | yes e ↦
      let there : set_account i init_balance f j ≡ init_balance = ground arith in
      fill_accounts-below init_balance n (suc i) (set_account i init_balance f) j (omega (arith, e))
      ∙ there
  | no ne ↦
      fill_accounts-within init_balance n (suc i) (set_account i init_balance f) j (omega arith)
        (omega arith)
]

sum_of-even :
    (init_balance : ℕ) (f : ℕ → ℕ) (n i : ℕ)
    → ((j : ℕ) → i ≤ j → j < i + n → f j ≡ init_balance)
    → sum_of f n i ≡ init_balance * n
sum_of-even init_balance f zero i h = grind arith
sum_of-even init_balance f (suc n) i h =
    let one_more : init_balance * suc n ≡ init_balance * n + init_balance =
      ap (λ k. init_balance * k) (omega arith) ∙ times_suc init_balance n in
    omega (
      arith,
      one_more,
      h i (omega arith) (omega arith),
      sum_of-even init_balance f n (suc i) (λ j lo hi. h j (omega arith) (omega arith)),
    )

module _ (nbaccounts init_balance start : ℕ) (m : Memory) (s : AccountSegment)
    (at : m start ≡ some s) (last : s.next ≡ 0) (clean : s.parity ≡ 0) (real : start ≢ 0)
    (some_account : 0 < nbaccounts) where
  abbrev filled : AccountSegment
  filled = record s {
    count = nbaccounts;
    accounts = fill_accounts init_balance nbaccounts 0 s.accounts;
  }

  abbrev pub opening : Memory
  opening = put start (some filled) m

  at_start : opening start ≡ some filled
  at_start = put-same start (some filled) m

  opening-sum : sum_of filled.accounts filled.count 0 ≡ init_balance * nbaccounts
  opening-sum =
      sum_of-even init_balance filled.accounts nbaccounts 0
        (λ j lo hi. fill_accounts-within init_balance nbaccounts 0 s.accounts j lo hi)

  pub opening-IsBank : IsBank init_balance nbaccounts opening start (start ∷ [])
  opening-IsBank =
      let count : accounts_in opening (start ∷ []) ≡ nbaccounts =
        omega (arith, ap seg_count at_start) in
      record {
        path = (refl, real, subst IsUsed (sym at_start) some_account, ap seg_next at_start ∙ last);
        distinct = (refl, tt);
        sum =
            ap (λ x. x % 2 ^ 64)
              (omega (arith, ap (weigh parity_of) at_start, opening-sum, clean)
                ∙ ap (λ n. init_balance * n) (sym count));
        bounded = omega (arith, ap (weigh no_weight) at_start, opening-sum);
        counted = omega (arith, count);
      }

  first_value : read_account opening (start, 0) ≡ ok init_balance
  unfolding read_account
  first_value =
      ap (λ r. r >>= λ t. ok (t.accounts 0)) (find-ok opening start filled at_start)
      ∙ ap ok (
          fill_accounts-within init_balance nbaccounts 0 s.accounts 0 (omega arith)
            (omega (arith, some_account)))

  init-opening : init nbaccounts init_balance start m ≡ ok (true, opening)
  unfolding init
  init-opening =
      ap
        (λ r. r >>= λ t.
          (let m' =
              put start
                (some (record t {
                  count = nbaccounts;
                  accounts = fill_accounts init_balance nbaccounts 0 t.accounts;
                }))
                m in
            read_account m' (start, 0) >>= λ v. ok (v == init_balance, m')))
        (find-ok m start s at)
      ∙ ap (λ r. r >>= λ v. ok (v == init_balance, opening)) first_value
      ∙ ap (λ b. ok (b, opening)) ((==_iff init_balance init_balance).1 refl)

  -- In a first segment as it is allocated, alone and with a parity of 0, `init` reads its first account
  -- as written, and a worker that runs its transactions on what it leaves, whatever it chooses, ends
  -- without a fault and finds no violation: if each address that an allocation gets is not null and is in
  -- no use and not given before, the short transactions come to a pair of the first account, what all
  -- accounts ever there are opened with is below 2 ^ 63, as are the number of accounts and the balance
  -- of one, and there is fuel for each segment that there can be.
  pub init-run-IsSound :
      (fuel limit : ℕ) (cs : List Choice)
      → (small : init_balance < 2 ^ 63) (bounded : init_balance * limit < 2 ^ 63)
        (few : limit < 2 ^ 63)
      → IsServed cs (start ∷ [])
      → nbaccounts + length cs ≤ limit
      → length cs + 1 < fuel
      → Ensures
          (λ (r : Bool × Memory).
            (r.0 ≡ true)
            × Ensures
                (IsSound init_balance nbaccounts fuel start limit small bounded few)
                (run fuel init_balance nbaccounts start cs r.1))
          (init nbaccounts init_balance start m)
  init-run-IsSound fuel limit cs small bounded few served within enough =
      subst
        (λ r.
          Ensures
            (λ (r : Bool × Memory).
              (r.0 ≡ true)
              × Ensures (IsSound init_balance nbaccounts fuel start limit small bounded few)
                  (run fuel init_balance nbaccounts start cs r.1))
            r)
        (sym init-opening)
        (
          refl,
          run-IsSound init_balance nbaccounts fuel start limit small bounded few cs nbaccounts
              opening start [] (start ∷ []) opening-IsBank (λ q out. out) served within
              (omega (arith, enough)),
        )
