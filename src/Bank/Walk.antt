-- ===== src/Bank/Walk.antt =====
-- The way of `alloc_tx` to the last segment (grading/workload.hpp).
use mathlib.Core.Path.{subst}
use transactional_memory.Base.{
  ℕ, zero, suc, ◌+◌, ◌^◌, ◌<◌, ◌≡◌, ◌≢◌, refl, sym, ◌∙◌, ap, true, false, Option, none, some, List,
  [], ◌∷◌, ◌++◌, ok, if◌then◌else◌, ◌==◌, ==_iff, length, arith,
}
use transactional_memory.Words.{add64}
use transactional_memory.Links.Ring.{has}
use transactional_memory.Bank.{AccountSegment, Memory, find, at_last, alloc_tx}
use transactional_memory.Bank.Accounts.{seg_count, seg_next, total_with, accounts_in, find-ok}
use transactional_memory.Bank.Banks.{IsUsed, IsPath}

pub total_with-append :
    (w : AccountSegment → ℕ) (m : Memory) (ps qs : List ℕ)
    → total_with w m (ps ++ qs) ≡ total_with w m ps + total_with w m qs
total_with-append w m [] qs = omega arith
total_with-append w m (p ∷ ps) qs = omega (arith, total_with-append w m ps qs)

pub accounts_in-append :
    (m : Memory) (ps qs : List ℕ) → accounts_in m (ps ++ qs) ≡ accounts_in m ps + accounts_in m qs
accounts_in-append m [] qs = omega arith
accounts_in-append m (p ∷ ps) qs = omega (arith, accounts_in-append m ps qs)

-- A path of which the end is changed.
pub IsPath-end :
    (m m' : Memory) (start : ℕ) (ps qs qs' : List ℕ)
    → ((q : ℕ) → has q ps ≡ true → m' q ≡ m q)
    → ((from : ℕ) → IsPath m from qs → IsPath m' from qs')
    → IsPath m start (ps ++ qs)
    → IsPath m' start (ps ++ qs')
IsPath-end m m' start [] qs qs' same end path = end start path
IsPath-end m m' start (p ∷ ps) qs qs' same end (e, real, used, rest) =
    let here : m' p ≡ m p = same p (ground arith) in
    (
      e,
      real,
      subst IsUsed (sym here) used,
      subst (λ o. IsPath m' (seg_next o) (ps ++ qs')) (sym here)
          (IsPath-end m m' (seg_next (m p)) ps qs qs' (λ q k. same q (ground arith)) end rest),
    )

-- The segment before the last one.
abbrev pub last_or : ℕ → List ℕ → ℕ
last_or prev [] = prev
last_or prev (r ∷ rs) = last_or r rs

used_segment : (o : Option AccountSegment) → IsUsed o → (s : AccountSegment) × (o ≡ some s)
used_segment none u = absurd u
used_segment (some s) u = (s, refl)

starts_real : (m : Memory) (start l : ℕ) (rs : List ℕ) → IsPath m start (rs ++ l ∷ []) → start ≢ 0
starts_real m start l [] path z = path.1 (sym path.0 ∙ z)
starts_real m start l (r ∷ rs) path z = path.1 (sym path.0 ∙ z)

module _ (init_balance nbaccounts trigger fresh : ℕ) (m : Memory) where
  alloc_tx_steps :
      (fuel prev start count : ℕ) (s : AccountSegment)
      → find m start ≡ ok s
      → alloc_tx (suc fuel) init_balance nbaccounts trigger fresh m prev start count ≡ (
          if s.next == 0
          then at_last init_balance nbaccounts trigger fresh m prev start (add64 count s.count) s
          else alloc_tx fuel init_balance nbaccounts trigger fresh m start s.next
              (add64 count s.count))
  unfolding alloc_tx
  alloc_tx_steps fuel prev start count s e = rw e refl

  -- The transaction comes to the last segment `l`, with all accounts counted.
  pub alloc_tx-at_last :
      (fuel prev start count l : ℕ) (s : AccountSegment) (rs : List ℕ)
      → length rs < fuel
      → count + accounts_in m (rs ++ l ∷ []) < 2 ^ 64
      → m l ≡ some s
      → IsPath m start (rs ++ l ∷ [])
      → alloc_tx fuel init_balance nbaccounts trigger fresh m prev start count
        ≡ at_last init_balance nbaccounts trigger fresh m
            (last_or prev rs)
            l
            (count + accounts_in m (rs ++ l ∷ []))
            s
  alloc_tx-at_last zero prev start count l s rs enough few at path = absurd (omega arith)
  alloc_tx-at_last (suc fuel) prev start count l s [] enough few at (e, real, used, end) =
      let z : (s.next == 0) ≡ true = (==_iff s.next 0).1 (sym (ap seg_next at) ∙ end) in
      let c : add64 count s.count ≡ count + (seg_count (m l) + 0) =
        omega (arith, few, ap seg_count at) in
      alloc_tx_steps fuel prev start count s (ap (find m) e ∙ find-ok m l s at)
      ∙ ap
          (λ b.
            if b
            then at_last init_balance nbaccounts trigger fresh m prev start (add64 count s.count) s
            else alloc_tx fuel init_balance nbaccounts trigger fresh m start s.next
                (add64 count s.count))
          z
      ∙ ap (λ x. at_last init_balance nbaccounts trigger fresh m prev x (add64 count s.count) s) e
      ∙ ap (λ x. at_last init_balance nbaccounts trigger fresh m prev l x s) c
  alloc_tx-at_last (suc fuel) prev start count l s (r ∷ rs) enough few at (e, real, used, rest) =
      let (t, there) = used_segment (m r) used in
      let rest' : IsPath m t.next (rs ++ l ∷ []) =
        subst (λ x. IsPath m x (rs ++ l ∷ [])) (ap seg_next there) rest in
      let nz : (t.next == 0) ≡ false = ground (arith, starts_real m t.next l rs rest') in
      let c : add64 count t.count ≡ count + seg_count (m r) =
        omega (arith, few, ap seg_count there) in
      alloc_tx_steps fuel prev start count t (ap (find m) e ∙ find-ok m r t there)
      ∙ ap
          (λ b.
            if b
            then at_last init_balance nbaccounts trigger fresh m prev start (add64 count t.count) t
            else alloc_tx fuel init_balance nbaccounts trigger fresh m start t.next
                (add64 count t.count))
          nz
      ∙ ap
          (λ x.
            alloc_tx fuel init_balance nbaccounts trigger fresh m x t.next (add64 count t.count))
          e
      ∙ alloc_tx-at_last fuel r t.next (add64 count t.count) l s rs (omega arith)
          (omega (arith, few, c)) at rest'
      ∙ ap (λ x. at_last init_balance nbaccounts trigger fresh m (last_or r rs) l x s)
          (omega (arith, c))
