-- ===== src/Bank/Sums.antt =====
-- Sums over accounts and segments where one of them is put (grading/workload.hpp).
use transactional_memory.Base.{
  ℕ, zero, suc, ◌+◌, ◌*◌, ◌++◌, ◌≤◌, ◌<◌, ◌≡◌, refl, ◌∙◌, ap, false, Option, List, [], ◌∷◌, ◌==◌,
  ℕ_discrete, arith,
}
use transactional_memory.Links.Ring.{has, Distinct, has-append}
use transactional_memory.Bank.{AccountSegment, Memory, put, set_account}
use transactional_memory.Bank.Accounts.{sum_of, total_with, accounts_in}

sum_of-below : (f : ℕ → ℕ) (k v n i : ℕ) → k < i → sum_of (set_account k v f) n i ≡ sum_of f n i
unfolding set_account
sum_of-below f k v zero i h = refl
sum_of-below f k v (suc n) i h =
    let same : set_account k v f i ≡ f i = ground arith in
    omega (arith, same, sum_of-below f k v n (suc i) (omega arith))

pub sum_of-set :
    (f : ℕ → ℕ) (k v n i : ℕ)
    → i ≤ k
    → k < i + n
    → sum_of (set_account k v f) n i + f k ≡ sum_of f n i + v
unfolding set_account
sum_of-set f k v zero i lo hi = absurd (omega arith)
sum_of-set f k v (suc n) i lo hi = elim (ℕ_discrete i k) [
  | yes e ↦
      let here : set_account k v f i ≡ v = ground arith in
      let old : f i ≡ f k = ap f e in
      omega (arith, here, old, sum_of-below f k v n (suc i) (omega arith))
  | no ne ↦
      let here : set_account k v f i ≡ f i = ground arith in
      omega (arith, here, sum_of-set f k v n (suc i) (omega arith) (omega arith))
]

pub put-same : (p : ℕ) (s : Option AccountSegment) (m : Memory) → put p s m p ≡ s
unfolding put
put-same p s m = ground arith

pub put-other :
    (p q : ℕ) (s : Option AccountSegment) (m : Memory) → (q == p) ≡ false → put p s m q ≡ m q
unfolding put
put-other p q s m ne = rw ne

pub total_with-other :
    (w : AccountSegment → ℕ) (m : Memory) (p : ℕ) (s : Option AccountSegment) (ps : List ℕ)
    → has p ps ≡ false
    → total_with w (put p s m) ps ≡ total_with w m ps
total_with-other w m p s [] out = refl
total_with-other w m p s (q ∷ qs) out =
    let far : (q == p) ≡ false = ground arith in
    rw (put-other p q s m far, total_with-other w m p s qs (ground arith)) refl

pub accounts_in-other :
    (m : Memory) (p : ℕ) (s : Option AccountSegment) (ps : List ℕ)
    → has p ps ≡ false
    → accounts_in (put p s m) ps ≡ accounts_in m ps
accounts_in-other m p s [] out = refl
accounts_in-other m p s (q ∷ qs) out =
    let far : (q == p) ≡ false = ground arith in
    rw (put-other p q s m far, accounts_in-other m p s qs (ground arith)) refl

-- The last of distinct segments.
pub apart_last : (l : ℕ) (rs : List ℕ) → Distinct (rs ++ l ∷ []) → has l rs ≡ false
apart_last l [] d = refl
apart_last l (r ∷ rs) d = ground (arith, apart_last l rs, has-append r rs (l ∷ []))

pub Distinct-first : (l : ℕ) (rs : List ℕ) → Distinct (rs ++ l ∷ []) → Distinct rs
Distinct-first l [] d = tt
Distinct-first l (r ∷ rs) (out, d) =
    (ground (arith, out, has-append r rs (l ∷ [])), Distinct-first l rs d)

pub times_suc : (a b : ℕ) → a * (b + 1) ≡ a * b + a
times_suc a b = grind arith

pub sum_of-set_account :
    (f : ℕ → ℕ) (k v n i : ℕ) → i + n ≤ k → sum_of (set_account k v f) n i ≡ sum_of f n i
unfolding set_account
sum_of-set_account f k v zero i h = refl
sum_of-set_account f k v (suc n) i h =
    let same : set_account k v f i ≡ f i = ground arith in
    omega (arith, same, sum_of-set_account f k v n (suc i) (omega arith))

pub sum_of-next : (f : ℕ → ℕ) (n i : ℕ) → sum_of f (n + 1) i ≡ sum_of f n i + f (i + n)
sum_of-next f zero i =
    let one : zero + 1 ≡ suc zero = omega arith in
    let first : f (i + 0) ≡ f i = ap f (omega arith) in
    ap (λ k. sum_of f k i) one ∙ omega (arith, first)
sum_of-next f (suc n) i =
    let more : suc n + 1 ≡ suc (n + 1) = omega arith in
    let end : f (suc i + n) ≡ f (i + suc n) = ap f (omega arith) in
    ap (λ k. sum_of f k i) more ∙ omega (arith, sum_of-next f n (suc i), end)
