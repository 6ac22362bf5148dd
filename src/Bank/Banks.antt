-- ===== src/Bank/Banks.antt =====
-- The invariant of the bank (grading/workload.hpp), and what control transactions and transfers make
-- of it.
use mathlib.Core.Path.{subst}
use transactional_memory.Base.{
  ℕ, zero, suc, ◌+◌, ◌*◌, ◌%◌, ◌^◌, ◌≤◌, ◌<◌, ◌≡◌, ◌≢◌, refl, sym, ◌∙◌, ap, true, Option, none,
  some, List, [], ◌∷◌, ok, ==_iff, length, ℕ_discrete, arith,
}
use transactional_memory.Links.Ring.{has, Distinct}
use transactional_memory.Bank.{AccountSegment, Memory, long_tx}
use transactional_memory.Bank.Accounts.{
  sum_of, weigh, no_weight, seg_next, total, balances, accounts_in, NoneNegative, IsChain,
  long_tx-total,
}
use transactional_memory.Bank.Transfer.{SameShape, Kept}

abbrev pub IsUsed : Option AccountSegment → Type 0
IsUsed none = ⊥
IsUsed (some s) = 0 < s.count

-- The segments that `next` leads through, each with an account.
abbrev pub IsPath : Memory → (start : ℕ) → List ℕ → Type 0
IsPath m start [] = start ≡ 0
IsPath m start (p ∷ ps) = (start ≡ p) × (p ≢ 0) × IsUsed (m p) × IsPath m (seg_next (m p)) ps

-- A bank in which at most `created` accounts have been opened: the sum of all balances and parities
-- is the initial balance for each account, modulo 2 ^ 64, and the balances are no more than what the
-- accounts were opened with.
pub record IsBank (init_balance created : ℕ) (m : Memory) (start : ℕ) (ps : List ℕ) : Type 0 where
  pub path : IsPath m start ps
  pub distinct : Distinct ps
  pub sum : total m ps % 2 ^ 64 ≡ init_balance * accounts_in m ps % 2 ^ 64
  pub bounded : balances m ps ≤ init_balance * created
  pub counted : accounts_in m ps ≤ created

sum_of-le : (f : ℕ → ℕ) (n i j : ℕ) → i ≤ j → j < i + n → f j ≤ sum_of f n i
sum_of-le f zero i j lo hi = absurd (omega arith)
sum_of-le f (suc n) i j lo hi = elim (ℕ_discrete i j) [
  | yes e ↦ omega (arith, ap f e)
  | no ne ↦ omega (arith, sum_of-le f n (suc i) j (omega arith) (omega arith))
]

segment_of :
    (o : Option AccountSegment)
    → IsUsed o
    → weigh no_weight o < 2 ^ 63
    → (s : AccountSegment) × (o ≡ some s) × NoneNegative s
segment_of none u b = absurd u
segment_of (some s) u b = (
  s,
  refl,
  λ i lt. omega (arith, b, sum_of-le s.accounts s.count 0 i (omega arith) (omega (arith, lt))),
)

-- With small balances, no account is negative.
pub IsPath-IsChain :
    (m : Memory) (start : ℕ) (ps : List ℕ)
    → IsPath m start ps
    → balances m ps < 2 ^ 63
    → IsChain m start ps
IsPath-IsChain m start [] path b = path
IsPath-IsChain m start (p ∷ ps) (e, real, used, rest) b = (
  e,
  real,
  segment_of (m p) used (omega (arith, b)),
  IsPath-IsChain m (seg_next (m p)) ps rest (omega (arith, b)),
)

shape-IsUsed : (a b : Option AccountSegment) → SameShape a b → IsUsed a → IsUsed b
shape-IsUsed none none h u = u
shape-IsUsed none (some t) h u = absurd h
shape-IsUsed (some s) none h u = absurd h
shape-IsUsed (some s) (some t) h u = omega (arith, h.1, u)

shape-next : (a b : Option AccountSegment) → SameShape a b → seg_next b ≡ seg_next a
shape-next none none h = refl
shape-next none (some t) h = absurd h
shape-next (some s) none h = absurd h
shape-next (some s) (some t) h = h.0

pub shape-IsPath :
    (m m' : Memory) (start : ℕ) (ps : List ℕ)
    → ((q : ℕ) → has q ps ≡ true → SameShape (m q) (m' q))
    → IsPath m start ps
    → IsPath m' start ps
shape-IsPath m m' start [] shape path = path
shape-IsPath m m' start (p ∷ ps) shape (e, real, used, rest) =
    let here = shape p (ground arith) in
    (
      e,
      real,
      shape-IsUsed (m p) (m' p) here used,
      subst (λ z. IsPath m' z ps) (sym (shape-next (m p) (m' p) here))
          (shape-IsPath m m' (seg_next (m p)) ps (λ q k. shape q (ground arith)) rest),
    )

module _ (init_balance created fuel : ℕ) (m : Memory) (start : ℕ) (ps : List ℕ)
    (bank : IsBank init_balance created m start ps) (enough : length ps < fuel)
    (small : init_balance * created < 2 ^ 63) (few : created < 2 ^ 63) where
  bank-IsChain : IsChain m start ps
  bank-IsChain = IsPath-IsChain m start ps bank.path (omega (arith, bank.bounded, small))

  -- The control transaction finds no violation.
  pub long_tx-consistent : (n : ℕ) × (long_tx fuel init_balance m start ≡ ok (true, n))
  long_tx-consistent =
      let c : accounts_in m ps % 2 ^ 64 ≡ accounts_in m ps = omega (arith, bank.counted, few) in
      let e : total m ps % 2 ^ 64 ≡ init_balance * (accounts_in m ps % 2 ^ 64) % 2 ^ 64 =
        bank.sum ∙ ap (λ z. init_balance * z % 2 ^ 64) (sym c) in
      (
        accounts_in m ps % 2 ^ 64,
        long_tx-total fuel init_balance m start ps enough bank-IsChain
            ∙ ap (λ b. ok (b, accounts_in m ps % 2 ^ 64)) ((==_iff _ _).1 e),
      )

  pub Kept-IsBank : (m' : Memory) → Kept ps m m' → IsBank init_balance created m' start ps
  Kept-IsBank m' kept = record {
    path = shape-IsPath m m' start ps (λ q k. kept.shape q) bank.path;
    distinct = bank.distinct;
    sum = kept.sum ∙ bank.sum ∙ ap (λ z. init_balance * z % 2 ^ 64) (sym kept.counts);
    bounded = omega (arith, kept.bounded, bank.bounded);
    counted = omega (arith, kept.counts, bank.counted);
  }
