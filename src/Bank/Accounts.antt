-- ===== src/Bank/Accounts.antt =====
-- The balances of the bank (grading/workload.hpp): their sum, and what `long_tx` finds.
use transactional_memory.Base.{
  ℕ, zero, suc, ◌+◌, ◌*◌, ◌%◌, ◌^◌, ◌≤◌, ◌<◌, ◌≡◌, ◌≢◌, refl, ◌∙◌, ap, true, false, Option, none,
  some, List, [], ◌∷◌, ok, ◌==◌, length, arith,
}
use mathlib.Core.Path.{subst, ap₂}
use transactional_memory.Words.{add64}
use transactional_memory.Bank.{
  AccountSegment, Memory, find, is_negative, sum_accounts, sum_segments, long_tx,
}

-- The sum of the accounts `i` to `i + n`.
abbrev pub sum_of : (ℕ → ℕ) → (n i : ℕ) → ℕ
sum_of f zero i = 0
sum_of f (suc n) i = f i + sum_of f n (suc i)

-- The balances of a segment, with a weight of its own.
abbrev pub weigh : (AccountSegment → ℕ) → Option AccountSegment → ℕ
weigh w none = 0
weigh w (some s) = w s + sum_of s.accounts s.count 0

abbrev pub parity_of : AccountSegment → ℕ
parity_of s = s.parity

abbrev pub seg_total : Option AccountSegment → ℕ
seg_total = weigh parity_of

abbrev pub seg_count : Option AccountSegment → ℕ
seg_count none = 0
seg_count (some s) = s.count

abbrev pub seg_next : Option AccountSegment → ℕ
seg_next none = 0
seg_next (some s) = s.next

abbrev pub total_with : (AccountSegment → ℕ) → Memory → List ℕ → ℕ
total_with w m [] = 0
total_with w m (p ∷ ps) = weigh w (m p) + total_with w m ps

abbrev pub total : Memory → List ℕ → ℕ
total = total_with parity_of

-- Without the parities.
abbrev pub no_weight : AccountSegment → ℕ
no_weight s = 0

abbrev pub balances : Memory → List ℕ → ℕ
balances = total_with no_weight

abbrev pub accounts_in : Memory → List ℕ → ℕ
accounts_in m [] = 0
accounts_in m (p ∷ ps) = seg_count (m p) + accounts_in m ps

abbrev pub NoneNegative : AccountSegment → Type 0
NoneNegative s = (i : ℕ) → i < s.count → s.accounts i < 2 ^ 63

-- The segments that `next` leads through, none of which has a negative account.
abbrev pub IsChain : Memory → (start : ℕ) → List ℕ → Type 0
IsChain m start [] = start ≡ 0
IsChain m start (p ∷ ps) =
    (start ≡ p)
    × (p ≢ 0)
    × ((s : AccountSegment) × (m p ≡ some s) × NoneNegative s)
    × IsChain m (seg_next (m p)) ps

sum_accounts-some :
    (f : ℕ → ℕ) (n i sum : ℕ)
    → sum < 2 ^ 64
    → ((j : ℕ) → i ≤ j → j < i + n → f j < 2 ^ 63)
    → sum_accounts f n i sum ≡ some ((sum + sum_of f n i) % 2 ^ 64)
unfolding sum_accounts
sum_accounts-some f zero i sum b h = ap some (omega arith)
sum_accounts-some f (suc n) i sum b h =
    let fine : is_negative (f i) ≡ false = ground (arith, h i) in
    rw fine (
      sum_accounts-some f n (suc i) (add64 sum (f i)) (omega arith)
        (λ j lo hi. h j (omega arith) (omega arith))
      ∙ ap some (omega arith))

pub find-ok : (m : Memory) (p : ℕ) (s : AccountSegment) → m p ≡ some s → find m p ≡ ok s
unfolding find
find-ok m p s e = rw (e, find) refl

module _ (fuel : ℕ) (m : Memory) (p count sum : ℕ) (s : AccountSegment) (at : m p ≡ some s)
    (real : p ≢ 0) where
  next_segment :
      (sum' : ℕ)
      → sum_accounts s.accounts s.count 0 (add64 sum s.parity) ≡ some sum'
      → sum_segments (suc fuel) m p count sum
        ≡ sum_segments fuel m s.next (add64 count s.count) sum'
  unfolding sum_segments
  next_segment sum' e =
      let ne : (p == 0) ≡ false = ground arith in
      rw (ne, find-ok m p s at)
        (ap
          (λ (o : Option ℕ). elim o [
            | none ↦ ok none
            | some sum'' ↦ sum_segments fuel m s.next (add64 count s.count) sum''
          ])
          e)

sum_segments-total :
    (ps : List ℕ) (fuel : ℕ) (m : Memory) (start count sum : ℕ)
    → length ps < fuel
    → count < 2 ^ 64
    → sum < 2 ^ 64
    → IsChain m start ps
    → sum_segments fuel m start count sum
      ≡ ok (some ((count + accounts_in m ps) % 2 ^ 64, (sum + total m ps) % 2 ^ 64))
unfolding sum_segments
sum_segments-total ps zero m start count sum lt bc bs c = absurd (omega arith)
sum_segments-total [] (suc f) m start count sum lt bc bs c =
    let z : (start == 0) ≡ true = ground arith in
    rw z (ap₂ (λ a b. ok (some (a, b))) (omega arith) (omega arith))
sum_segments-total (p ∷ ps) (suc f) m start count sum lt bc bs (e, real, (s, at, fine), rest) =
    let sums =
      sum_accounts-some s.accounts s.count 0 (add64 sum s.parity) (omega arith)
        (λ j lo hi. fine j (omega arith)) in
    let here : seg_total (m p) ≡ s.parity + sum_of s.accounts s.count 0 = ap seg_total at in
    let many : seg_count (m p) ≡ s.count = ap seg_count at in
    ap (λ z. sum_segments (suc f) m z count sum) e
    ∙ next_segment f m p count sum s at real _ sums
    ∙ sum_segments-total ps f m s.next (add64 count s.count) _ (omega arith) (omega arith)
        (omega arith) (subst (λ z. IsChain m z ps) (ap seg_next at) rest)
    ∙ ap₂ (λ a b. ok (some (a, b))) (omega arith) (omega arith)

-- On a chain of segments without a negative account, with fuel for one more segment than there
-- are, the control transaction returns: it counts the accounts, and finds no inconsistency exactly
-- if the sum of all balances and parities is the initial balance for each account, modulo 2 ^ 64.
pub long_tx-total :
    (fuel init_balance : ℕ) (m : Memory) (start : ℕ) (ps : List ℕ)
    → length ps < fuel
    → IsChain m start ps
    → long_tx fuel init_balance m start
      ≡ ok (
        total m ps % 2 ^ 64 == init_balance * (accounts_in m ps % 2 ^ 64) % 2 ^ 64,
        accounts_in m ps % 2 ^ 64,
      )
unfolding long_tx
long_tx-total fuel init_balance m start ps enough c =
    let found : sum_segments fuel m start 0 0
        ≡ ok (some (accounts_in m ps % 2 ^ 64, total m ps % 2 ^ 64)) =
      sum_segments-total ps fuel m start 0 0 enough (omega arith) (omega arith) c
      ∙ ap₂ (λ a b. ok (some (a, b))) (omega arith) (omega arith) in
    rw found refl
