-- ===== src/Bank/Closed.antt =====
-- `alloc_tx` closes an account: in the last segment, or with it (grading/workload.hpp).
use mathlib.Core.Path.{subst}
use mathlib.Core.List.{append_assoc}
use transactional_memory.Base.{
  ℕ, zero, suc, ◌+◌, ◌*◌, ◌%◌, ◌^◌, ◌≤◌, ◌<◌, ◌≡◌, ◌≢◌, sym, ◌∙◌, ap, true, false, none, some, List,
  [], ◌∷◌, ◌++◌, ◌==◌, arith,
}
use transactional_memory.Words.{add64, sub64}
use transactional_memory.Links.Ring.{has, Distinct, has-append}
use transactional_memory.Bank.{AccountSegment, Memory, put}
use transactional_memory.Bank.Accounts.{
  sum_of, weigh, parity_of, no_weight, seg_count, seg_next, total_with, total, balances,
  accounts_in,
}
use transactional_memory.Bank.Sums.{put-same, put-other, total_with-other}
use transactional_memory.Bank.Banks.{IsUsed, IsPath, IsBank}
use transactional_memory.Bank.Walk.{total_with-append, accounts_in-append, IsPath-end}
use transactional_memory.Bank.Sums.{
  accounts_in-other, apart_last, Distinct-first, times_suc, sum_of-next,
}
use transactional_memory.Bank.Opened.{total_with-put, put_accounts, put_elsewhere}

-- One account less, and its balance in a parity.
closed-IsBank :
    (init_balance created : ℕ) (m m' : Memory) (start : ℕ) (all ps : List ℕ)
    → IsBank init_balance created m start all
    → IsPath m' start ps
    → Distinct ps
    → (total m' ps + init_balance) % 2 ^ 64 ≡ total m all % 2 ^ 64
    → balances m' ps ≤ balances m all
    → accounts_in m' ps + 1 ≡ accounts_in m all
    → IsBank init_balance (created + 1) m' start ps
closed-IsBank init_balance created m m' start all ps bank path distinct t b c =
    let n = accounts_in m' ps in
    let e : init_balance * accounts_in m all ≡ init_balance * n + init_balance =
      ap (λ z. init_balance * z) (sym c) ∙ times_suc init_balance n in
    record {
      path = path;
      distinct = distinct;
      sum = omega (arith, t, e, bank.sum);
      bounded = omega (arith, b, bank.bounded, times_suc init_balance created);
      counted = omega (arith, c, bank.counted);
    }

-- The parity that takes up the balance of the account `left`.
abbrev pub new_parity : ℕ → AccountSegment → ℕ → ℕ
new_parity init_balance s left = sub64 (add64 s.parity (s.accounts left)) init_balance

module _ (init_balance created : ℕ) (m : Memory) (start l : ℕ) (rs : List ℕ) (s : AccountSegment)
    (left : ℕ) (bank : IsBank init_balance created m start (rs ++ l ∷ [])) (at : m l ≡ some s)
    (one_less : left + 1 ≡ s.count) (more : 0 < left) (small : init_balance < 2 ^ 63) where
  abbrev narrower : AccountSegment
  narrower = record s { count = left; parity = new_parity init_balance s left }

  last_account : sum_of s.accounts s.count 0 ≡ sum_of s.accounts left 0 + s.accounts left
  last_account =
      ap (λ k. sum_of s.accounts k 0) (sym one_less)
      ∙ sum_of-next s.accounts left 0
      ∙ ap (λ k. sum_of s.accounts left 0 + s.accounts k) (omega arith)

  narrower_end :
      (from : ℕ) → IsPath m from (l ∷ []) → IsPath (put l (some narrower) m) from (l ∷ [])
  narrower_end from (e, real, used, end) =
      let here = put-same l (some narrower) m in
      (e, real, subst IsUsed (sym here) more, ap seg_next here ∙ sym (ap seg_next at) ∙ end)

  pub narrower-IsBank :
      IsBank init_balance (created + 1) (put l (some narrower) m) start (rs ++ l ∷ [])
  narrower-IsBank =
      let sums = λ (w : AccountSegment → ℕ).
        total_with-put init_balance created m start l rs bank s at w (some narrower) in
      closed-IsBank init_balance created m (put l (some narrower) m) start (rs ++ l ∷ [])
        (rs ++ l ∷ []) bank
        (IsPath-end m (put l (some narrower) m) start rs (l ∷ []) (l ∷ [])
          (put_elsewhere init_balance created m start l rs bank s at (some narrower)) narrower_end
          bank.path)
        bank.distinct (omega (arith, sums parity_of, last_account, small))
        (omega (arith, sums no_weight, last_account))
        (omega (
          arith,
          put_accounts init_balance created m start l rs bank s at (some narrower),
          one_less,
        ))

-- The last segment goes with its only account, and the one before takes up its parity.
module _ (init_balance created : ℕ) (m : Memory) (start l p : ℕ) (rs : List ℕ)
    (s t : AccountSegment) (bank : IsBank init_balance created m start (rs ++ p ∷ l ∷ []))
    (at : m l ≡ some s) (at_p : m p ≡ some t) (single : s.count ≡ 1)
    (small : init_balance < 2 ^ 63) where
  abbrev merged : AccountSegment
  merged = record t { next = 0; parity = add64 t.parity (new_parity init_balance s 0) }

  abbrev shorter : Memory
  shorter = put p (some merged) (put l none m)

  split : Distinct ((rs ++ p ∷ []) ++ l ∷ [])
  split = subst Distinct (sym (append_assoc rs (p ∷ []) (l ∷ []))) bank.distinct

  shorter-Distinct : Distinct (rs ++ p ∷ [])
  shorter-Distinct = Distinct-first l (rs ++ p ∷ []) split

  p_apart : has p rs ≡ false
  p_apart = apart_last p rs shorter-Distinct

  l_apart : has l rs ≡ false
  l_apart = ground (arith, apart_last l (rs ++ p ∷ []) split, has-append l rs (p ∷ []))

  l_not_p : (l == p) ≡ false
  l_not_p = ground (arith, apart_last l (rs ++ p ∷ []) split, has-append l rs (p ∷ []))

  shorter_elsewhere : (q : ℕ) → has q rs ≡ true → shorter q ≡ m q
  shorter_elsewhere q k =
      put-other p q (some merged) (put l none m) (ground (arith, ne p p_apart))
      ∙ put-other l q none m (ground (arith, ne l l_apart))
    where
      ne : (x : ℕ) → has x rs ≡ false → q ≢ x
      ne x out e = cc (ap (λ z. has z rs) e, k, out)

  shorter_end : (from : ℕ) → IsPath m from (p ∷ l ∷ []) → IsPath shorter from (p ∷ [])
  shorter_end from (e, real, used, rest) =
      let here = put-same p (some merged) (put l none m) in
      (e, real, subst IsUsed (sym here) (subst IsUsed at_p used), ap seg_next here)

  total_with-shorter :
      (w : AccountSegment → ℕ)
      → total_with w shorter (rs ++ p ∷ []) + weigh w (some t) + weigh w (some s)
        ≡ total_with w m (rs ++ p ∷ l ∷ []) + weigh w (some merged)
  total_with-shorter w = omega (
    arith,
    total_with-append w shorter rs (p ∷ []),
    total_with-append w m rs (p ∷ l ∷ []),
    total_with-other w (put l none m) p (some merged) rs p_apart,
    total_with-other w m l none rs l_apart,
    ap (weigh w) (put-same p (some merged) (put l none m)),
    ap (weigh w) at_p,
    ap (weigh w) at,
  )

  shorter_accounts : accounts_in shorter (rs ++ p ∷ []) + s.count ≡ accounts_in m (rs ++ p ∷ l ∷ [])
  shorter_accounts = omega (
    arith,
    accounts_in-append shorter rs (p ∷ []),
    accounts_in-append m rs (p ∷ l ∷ []),
    accounts_in-other (put l none m) p (some merged) rs p_apart,
    accounts_in-other m l none rs l_apart,
    ap seg_count (put-same p (some merged) (put l none m)),
    ap seg_count at_p,
    ap seg_count at,
  )

  only_account : sum_of s.accounts s.count 0 ≡ s.accounts 0
  only_account =
      let one : s.count ≡ suc zero = omega (arith, single) in
      ap (λ k. sum_of s.accounts k 0) one ∙ omega arith

  pub shorter-IsBank : IsBank init_balance (created + 1) shorter start (rs ++ p ∷ [])
  shorter-IsBank =
      closed-IsBank init_balance created m shorter start (rs ++ p ∷ l ∷ []) (rs ++ p ∷ []) bank
        (IsPath-end m shorter start rs (p ∷ l ∷ []) (p ∷ []) shorter_elsewhere shorter_end
          bank.path)
        shorter-Distinct (omega (arith, total_with-shorter parity_of, only_account, small))
        (omega (arith, total_with-shorter no_weight, only_account))
        (omega (arith, shorter_accounts, single))
