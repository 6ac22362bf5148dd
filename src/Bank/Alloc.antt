-- ===== src/Bank/Alloc.antt =====
-- `alloc_tx` keeps a bank (grading/workload.hpp).
use mathlib.Core.Path.{subst}
use mathlib.Core.List.{append_assoc}
use transactional_memory.Base.{
  ℕ, ◌+◌, ◌^◌, ◌≤◌, ◌<◌, ◌≡◌, ◌≢◌, sym, ◌∙◌, ap, false, ◌&&◌, some, List, [], ◌∷◌, ◌++◌, Ensures,
  ltb, length, length-append_cons, ℕ_discrete, arith,
}
use transactional_memory.Words.{sub64}
use transactional_memory.Links.Ring.{has, has-append}
use transactional_memory.Bank.{
  AccountSegment, Memory, put, set_account, drop_account, add_account, at_last, alloc_tx,
}
use transactional_memory.Bank.Accounts.{accounts_in, seg_count, seg_next}
use transactional_memory.Bank.Banks.{IsBank}
use transactional_memory.Bank.Walk.{accounts_in-append, last_or, alloc_tx-at_last}
use transactional_memory.Bank.Opened.{wider-IsBank, longer-IsBank}
use transactional_memory.Bank.Closed.{narrower-IsBank, shorter-IsBank}
use transactional_memory.Bank.Ends.{
  last_view, last_but_one, last_or-append, last_used, next_of, drop_account-narrower,
  drop_account-shorter, on_branches,
}

-- A bank after `alloc_tx`, on a path that has grown by no more than `fresh`.
pub record IsNext (init_balance created fresh : ℕ) (start : ℕ) (ps : List ℕ) (m' : Memory)
    : Type 0 where
  pub path' : List ℕ
  pub bank : IsBank init_balance created m' start path'
  pub longer : length path' ≤ length ps + 1
  pub inside : (q : ℕ) → q ≢ fresh → has q ps ≡ false → has q path' ≡ false

module _ (init_balance nbaccounts trigger fresh created : ℕ) (m : Memory) (start : ℕ)
    (small : init_balance < 2 ^ 63) (few : created < 2 ^ 63) (real : fresh ≢ 0) where
  -- The end of `alloc_tx` at the last segment.
  module _ (l : ℕ) (rs : List ℕ) (bank : IsBank init_balance created m start (rs ++ l ∷ []))
      (s : AccountSegment) (at : m l ≡ some s) where
    abbrev Next : Memory → Type 0
    Next = IsNext init_balance (created + 1) fresh start (rs ++ l ∷ [])

    counts : accounts_in m (rs ++ l ∷ []) ≡ accounts_in m rs + s.count
    counts = omega (arith, accounts_in-append m rs (l ∷ []), ap seg_count at)

    wider-Next : Next (
        put l
          (some (record s {
            accounts = set_account s.count init_balance s.accounts;
            count = s.count + 1;
          }))
          m)
    wider-Next = record {
      path' = rs ++ l ∷ [];
      bank = wider-IsBank init_balance created m start l rs bank s at;
      longer = omega arith;
      inside = λ q ne out. out;
    }

    longer-Next :
        has fresh (rs ++ l ∷ []) ≡ false
        → Next (
            put l (some (record s { next = fresh })) (
              put fresh
                (some (record {
                  count = 1;
                  next = 0;
                  parity = 0;
                  accounts = set_account 0 init_balance (λ _. 0);
                }))
                m))
    longer-Next out = record {
      path' = rs ++ l ∷ fresh ∷ [];
      bank = longer-IsBank init_balance created m start l rs bank s at fresh real out;
      longer = omega (arith, length-append_cons rs l [], length-append_cons rs l (fresh ∷ []));
      inside =
          λ q ne not_in. ground (arith, has-append q rs (l ∷ []), has-append q rs (l ∷ fresh ∷ []));
    }

    add_account-Next :
        has fresh (rs ++ l ∷ []) ≡ false → Next (add_account init_balance nbaccounts fresh l s m)
    unfolding add_account
    add_account-Next out =
        on_branches Next (ltb s.count nbaccounts) _ _ (λ e. wider-Next) (λ e. longer-Next out)

    -- No more than 2 ^ 63 accounts are held, so that the numbers stay as they are.
    held : s.count < 2 ^ 63
    held = omega (arith, counts, bank.counted, few)

    -- With the only account of the last segment, the segment goes.
    shorter-Next :
        (qs : List ℕ) (p : ℕ)
        → rs ≡ qs ++ p ∷ []
        → s.count ≡ 1
        → Ensures Next (drop_account init_balance p l s m)
    shorter-Next qs p e single =
        let ends : rs ++ l ∷ [] ≡ qs ++ p ∷ l ∷ [] =
          ap (λ xs. xs ++ l ∷ []) e ∙ append_assoc qs (p ∷ []) (l ∷ []) in
        let bank' = subst (λ xs. IsBank init_balance created m start xs) ends bank in
        let (t, at_p, used) = last_used m start p qs (l ∷ []) bank'.path in
        subst (λ r. Ensures Next r)
          (sym (
            drop_account-shorter init_balance nbaccounts trigger fresh p created m start l s t
              (omega (arith, single)) at_p
              (sym (ap seg_next at_p) ∙ next_of m start p l qs [] bank'.path)))
          (record {
            path' = qs ++ p ∷ [];
            bank =
                shorter-IsBank init_balance created m start l p qs s t bank' at at_p single small;
            longer = omega (
              arith,
              ap length ends,
              length-append_cons qs p [],
              length-append_cons qs p (l ∷ []),
            );
            inside = λ q apart out. ground (
              arith,
              ap (λ xs. has q xs) ends,
              has-append q qs (p ∷ []),
              has-append q qs (p ∷ l ∷ []),
            );
          })

    drop_account-Next :
        2 < accounts_in m (rs ++ l ∷ [])
        → 0 < s.count
        → Ensures Next (drop_account init_balance (last_or 0 rs) l s m)
    drop_account-Next many used = elim (ℕ_discrete s.count 1) [
      | yes single ↦ merge single
      | no ne ↦
          subst (λ r. Ensures Next r)
            (sym (
              drop_account-narrower init_balance nbaccounts trigger fresh (last_or 0 rs) created m
                start l s (ground (arith, held, ne, used))))
            (record {
              path' = rs ++ l ∷ [];
              bank =
                  narrower-IsBank init_balance created m start l rs s (sub64 s.count 1) bank at
                    (omega (arith, held, used)) (omega (arith, held, ne, used)) small;
              longer = omega arith;
              inside = λ q apart out. out;
            })
    ]
      where
        merge : s.count ≡ 1 → Ensures Next (drop_account init_balance (last_or 0 rs) l s m)
        merge single =
            let (qs, p, e) =
              last_but_one rs
                (λ z. omega (arith, many, counts, single, ap (λ xs. accounts_in m xs) z)) in
            subst (λ x. Ensures Next (drop_account init_balance x l s m))
              (sym (ap (λ xs. last_or 0 xs) e ∙ last_or-append 0 p qs)) (shorter-Next qs p e single)

    at_last-Next :
        has fresh (rs ++ l ∷ []) ≡ false
        → 0 < s.count
        → Ensures Next (
            at_last init_balance nbaccounts trigger fresh m
              (last_or 0 rs)
              l
              (accounts_in m (rs ++ l ∷ []))
              s)
    unfolding at_last
    at_last-Next out used =
        let c = accounts_in m (rs ++ l ∷ []) in
        on_branches (λ r. Ensures Next r) (ltb trigger c && ltb 2 c) _ _
          (λ e. drop_account-Next (ground arith) used) (λ e. add_account-Next out)

  pub alloc_tx-IsNext :
      (fuel : ℕ) (p : ℕ) (ps : List ℕ)
      → IsBank init_balance created m start (p ∷ ps)
      → length (p ∷ ps) ≤ fuel
      → has fresh (p ∷ ps) ≡ false
      → Ensures
          (IsNext init_balance (created + 1) fresh start (p ∷ ps))
          (alloc_tx fuel init_balance nbaccounts trigger fresh m 0 start 0)
  alloc_tx-IsNext fuel p ps bank enough out =
      let (rs, l, e) = last_view p ps in
      subst
        (λ xs.
          Ensures (IsNext init_balance (created + 1) fresh start xs)
            (alloc_tx fuel init_balance nbaccounts trigger fresh m 0 start 0))
        (sym e) (on_last rs l e)
    where
      on_last :
          (rs : List ℕ) (l : ℕ)
          → p ∷ ps ≡ rs ++ l ∷ []
          → Ensures
              (IsNext init_balance (created + 1) fresh start (rs ++ l ∷ []))
              (alloc_tx fuel init_balance nbaccounts trigger fresh m 0 start 0)
      on_last rs l e =
          let b = subst (λ xs. IsBank init_balance created m start xs) e bank in
          let (s, at, used) = last_used m start l rs [] b.path in
          let none_before : 0 + accounts_in m (rs ++ l ∷ []) ≡ accounts_in m (rs ++ l ∷ []) =
            omega arith in
          subst (λ r. Ensures (IsNext init_balance (created + 1) fresh start (rs ++ l ∷ [])) r)
            (sym (
              alloc_tx-at_last init_balance nbaccounts trigger fresh m fuel 0 start 0 l s rs
                (omega (arith, ap length e, enough, length-append_cons rs l []))
                (omega (arith, b.counted, few)) at b.path
              ∙ ap (λ c. at_last init_balance nbaccounts trigger fresh m (last_or 0 rs) l c s)
                  none_before))
            (at_last-Next l rs b s at (subst (λ xs. has fresh xs ≡ false) e out) used)
