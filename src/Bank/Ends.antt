-- ===== src/Bank/Ends.antt =====
-- The last segments of a path, and the ends of `alloc_tx` that drop an account (grading/workload.hpp).
use transactional_memory.Base.{
  ℕ, ◌<◌, ◌≡◌, refl, ◌∙◌, ap, Bool, true, false, Option, none, some, List, [], ◌∷◌, ◌++◌, ok, ◌>>=◌,
  ltb, if◌then◌else◌,
}
use transactional_memory.Words.{add64, sub64}
use transactional_memory.Bank.{AccountSegment, Memory, find, put, drop_account}
use transactional_memory.Bank.Accounts.{seg_next, find-ok}
use transactional_memory.Bank.Banks.{IsUsed, IsPath}
use transactional_memory.Bank.Walk.{last_or}
use transactional_memory.Bank.Closed.{new_parity}

-- The last of the segments.
pub last_view : (p : ℕ) (ps : List ℕ) → (rs : List ℕ) × (l : ℕ) × (p ∷ ps ≡ rs ++ l ∷ [])
last_view p [] = ([], p, refl)
last_view p (q ∷ ps) = let (rs, l, e) = last_view q ps in (p ∷ rs, l, ap (λ xs. p ∷ xs) e)

pub last_but_one : (rs : List ℕ) → (rs ≡ [] → ⊥) → (qs : List ℕ) × (p : ℕ) × (rs ≡ qs ++ p ∷ [])
last_but_one [] ne = absurd (ne refl)
last_but_one (r ∷ rs) ne = last_view r rs

pub last_or-append : (prev p : ℕ) (rs : List ℕ) → last_or prev (rs ++ p ∷ []) ≡ p
last_or-append prev p [] = refl
last_or-append prev p (r ∷ rs) = last_or-append r p rs

pub last_used :
    (m : Memory) (start l : ℕ) (rs qs : List ℕ)
    → IsPath m start (rs ++ l ∷ qs)
    → (s : AccountSegment) × (m l ≡ some s) × (0 < s.count)
last_used m start l [] qs (e, real, used, rest) = seg (m l) used
  where
    seg :
        (o : Option AccountSegment) → IsUsed o → (s : AccountSegment) × (o ≡ some s) × (0 < s.count)
    seg none u = absurd u
    seg (some s) u = (s, refl, u)
last_used m start l (r ∷ rs) qs (e, real, used, rest) = last_used m (seg_next (m r)) l rs qs rest

pub next_of :
    (m : Memory) (start p l : ℕ) (rs qs : List ℕ)
    → IsPath m start (rs ++ p ∷ l ∷ qs)
    → seg_next (m p) ≡ l
next_of m start p l [] qs (e, real, used, rest) = rest.0
next_of m start p l (r ∷ rs) qs (e, real, used, rest) = next_of m (seg_next (m r)) p l rs qs rest

module _ (init_balance nbaccounts trigger fresh prev created : ℕ) (m : Memory) (start : ℕ) where
  pub drop_account-narrower :
      (l : ℕ) (s : AccountSegment)
      → ltb 0 (sub64 s.count 1) ≡ true
      → drop_account init_balance prev l s m
        ≡ ok (
            put l
              (some (record s {
                count = sub64 s.count 1;
                parity = new_parity init_balance s (sub64 s.count 1);
              }))
              m)
  unfolding drop_account
  drop_account-narrower l s e = rw e refl

  pub drop_account-shorter :
      (l : ℕ) (s t : AccountSegment)
      → sub64 s.count 1 ≡ 0
      → m prev ≡ some t
      → t.next ≡ l
      → drop_account init_balance prev l s m
        ≡ ok (
            put prev
              (some (record t { next = 0; parity = add64 t.parity (new_parity init_balance s 0) }))
              (put l none m))
  unfolding drop_account
  drop_account-shorter l s t z at e =
      ap
        (λ left.
          if ltb 0 left
          then ok
              (put l (some (record s { count = left; parity = new_parity init_balance s left })) m)
          else (find m prev >>= λ u. ok (
              put prev
                (some
                  (record u { next = 0; parity = add64 u.parity (new_parity init_balance s left) }))
                (put u.next none m))))
        z
      ∙ ap
          (λ r. r >>= λ u. ok (
            put prev
              (some (record u { next = 0; parity = add64 u.parity (new_parity init_balance s 0) }))
              (put u.next none m)))
          (find-ok m prev t at)
      ∙ ap
          (λ x. ok (
            put prev
              (some (record t { next = 0; parity = add64 t.parity (new_parity init_balance s 0) }))
              (put x none m)))
          e

pub on_branches :
    {A : Type 0} (P : A → Type 0) (b : Bool) (x y : A)
    → (b ≡ true → P x)
    → (b ≡ false → P y)
    → P (if b then x else y)
on_branches P true x y yes_x no_y = yes_x refl
on_branches P false x y yes_x no_y = no_y refl
