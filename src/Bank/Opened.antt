-- ===== src/Bank/Opened.antt =====
-- `alloc_tx` opens an account: in the last segment, or in a new one (grading/workload.hpp).
use mathlib.Core.Path.{subst}
use mathlib.Core.List.{append_assoc}
use transactional_memory.Base.{
  ℕ, ◌+◌, ◌*◌, ◌≡◌, ◌≢◌, refl, sym, ◌∙◌, ap, true, false, Option, some, List, [], ◌∷◌, ◌++◌, ◌==◌,
  arith,
}
use transactional_memory.Links.Ring.{has, Distinct, has-append, Distinct-snoc}
use transactional_memory.Bank.{AccountSegment, Memory, put, set_account}
use transactional_memory.Bank.Accounts.{
  weigh, parity_of, no_weight, seg_count, seg_next, total_with, total, balances, accounts_in,
}
use transactional_memory.Bank.Banks.{IsUsed, IsPath, IsBank}
use transactional_memory.Bank.Walk.{total_with-append, accounts_in-append, IsPath-end}
use transactional_memory.Bank.Sums.{
  put-same, put-other, total_with-other, accounts_in-other, apart_last, times_suc,
  sum_of-set_account, sum_of-next,
}

-- What is known before `alloc_tx` changes the last segment `l`.
module _ (init_balance created : ℕ) (m : Memory) (start l : ℕ) (rs : List ℕ)
    (bank : IsBank init_balance created m start (rs ++ l ∷ [])) where
  opened-IsBank :
      (m' : Memory) (ps : List ℕ)
      → IsPath m' start ps
      → Distinct ps
      → total m' ps ≡ total m (rs ++ l ∷ []) + init_balance
      → balances m' ps ≡ balances m (rs ++ l ∷ []) + init_balance
      → accounts_in m' ps ≡ accounts_in m (rs ++ l ∷ []) + 1
      → IsBank init_balance (created + 1) m' start ps
  opened-IsBank m' ps path distinct t b c =
      let n = accounts_in m (rs ++ l ∷ []) in
      let e : init_balance * accounts_in m' ps ≡ init_balance * n + init_balance =
        ap (λ z. init_balance * z) c ∙ times_suc init_balance n in
      record {
        path = path;
        distinct = distinct;
        sum = omega (arith, t, e, bank.sum);
        bounded = omega (arith, b, bank.bounded, times_suc init_balance created);
        counted = omega (arith, c, bank.counted);
      }

  module _ (s : AccountSegment) (at : m l ≡ some s) where
    -- Another segment in the place of the last one.
    pub total_with-put :
        (w : AccountSegment → ℕ) (o : Option AccountSegment)
        → total_with w (put l o m) (rs ++ l ∷ []) + weigh w (some s)
          ≡ total_with w m (rs ++ l ∷ []) + weigh w o
    total_with-put w o = omega (
      arith,
      total_with-append w (put l o m) rs (l ∷ []),
      total_with-append w m rs (l ∷ []),
      total_with-other w m l o rs (apart_last l rs bank.distinct),
      ap (weigh w) (put-same l o m),
      ap (weigh w) at,
    )

    pub put_accounts :
        (o : Option AccountSegment)
        → accounts_in (put l o m) (rs ++ l ∷ []) + s.count
          ≡ accounts_in m (rs ++ l ∷ []) + seg_count o
    put_accounts o = omega (
      arith,
      accounts_in-append (put l o m) rs (l ∷ []),
      accounts_in-append m rs (l ∷ []),
      accounts_in-other m l o rs (apart_last l rs bank.distinct),
      ap seg_count (put-same l o m),
      ap seg_count at,
    )

    pub put_elsewhere : (o : Option AccountSegment) (q : ℕ) → has q rs ≡ true → put l o m q ≡ m q
    put_elsewhere o q k = put-other l q o m (ground (arith, apart_last l rs bank.distinct, ne q k))
      where
        ne : (q : ℕ) → has q rs ≡ true → q ≢ l
        ne q k e = cc (ap (λ z. has z rs) e, k, apart_last l rs bank.distinct)

    abbrev wider : AccountSegment
    wider = record s { accounts = set_account s.count init_balance s.accounts; count = s.count + 1 }

    weigh-wider :
        (w : AccountSegment → ℕ)
        → w wider ≡ w s
        → weigh w (some wider) ≡ weigh w (some s) + init_balance
    unfolding set_account
    weigh-wider w e =
        let f = set_account s.count init_balance s.accounts in
        omega (
          arith,
          e,
          sum_of-next f s.count 0,
          sum_of-set_account s.accounts s.count init_balance s.count 0 (omega arith),
          here,
        )
      where
        here : set_account s.count init_balance s.accounts (0 + s.count) ≡ init_balance
        here = ground arith

    total_with-wider :
        (w : AccountSegment → ℕ)
        → w wider ≡ w s
        → total_with w (put l (some wider) m) (rs ++ l ∷ [])
          ≡ total_with w m (rs ++ l ∷ []) + init_balance
    total_with-wider w e = omega (arith, total_with-put w (some wider), weigh-wider w e)

    pub wider-IsBank : IsBank init_balance (created + 1) (put l (some wider) m) start (rs ++ l ∷ [])
    wider-IsBank =
        opened-IsBank (put l (some wider) m) (rs ++ l ∷ [])
          (IsPath-end m (put l (some wider) m) start rs (l ∷ []) (l ∷ [])
            (put_elsewhere (some wider)) wider_end bank.path)
          bank.distinct (total_with-wider parity_of refl) (total_with-wider no_weight refl)
          (omega (arith, put_accounts (some wider)))
      where
        wider_end :
            (from : ℕ) → IsPath m from (l ∷ []) → IsPath (put l (some wider) m) from (l ∷ [])
        wider_end from (e, real, used, end) =
            let here = put-same l (some wider) m in
            (
              e,
              real,
              subst IsUsed (sym here) (omega arith),
              ap seg_next here ∙ sym (ap seg_next at) ∙ end,
            )

    -- A new segment with one account, which the last one leads to.
    module _ (fresh : ℕ) (real : fresh ≢ 0) (out : has fresh (rs ++ l ∷ []) ≡ false) where
      abbrev linked : AccountSegment
      linked = record s { next = fresh }

      abbrev opened : AccountSegment
      opened = record {
        count = 1;
        next = 0;
        parity = 0;
        accounts = set_account 0 init_balance (λ _. 0);
      }

      abbrev longer : Memory
      longer = put l (some linked) (put fresh (some opened) m)

      l_apart : (l == fresh) ≡ false
      l_apart = ground (arith, has-append fresh rs (l ∷ []))

      at_fresh : longer fresh ≡ some opened
      at_fresh =
          put-other l fresh (some linked) (put fresh (some opened) m) (ground (arith, l_apart))
          ∙ put-same fresh (some opened) m

      out_rs : has fresh rs ≡ false
      out_rs = ground (arith, has-append fresh rs (l ∷ []))

      longer_elsewhere : (q : ℕ) → has q rs ≡ true → longer q ≡ m q
      longer_elsewhere q k =
          put-other l q (some linked) (put fresh (some opened) m) (ground (arith, not_l))
          ∙ put-other fresh q (some opened) m (ground (arith, not_fresh))
        where
          not_l : q ≢ l
          not_l e = cc (ap (λ z. has z rs) e, k, apart_last l rs bank.distinct)

          not_fresh : q ≢ fresh
          not_fresh e = cc (ap (λ z. has z rs) e, k, out_rs)

      weigh-opened : (w : AccountSegment → ℕ) → w opened ≡ 0 → weigh w (some opened) ≡ init_balance
      unfolding set_account
      weigh-opened w z = omega (arith, z)

      total_with-longer :
          (w : AccountSegment → ℕ)
          → w linked ≡ w s
          → w opened ≡ 0
          → total_with w longer (rs ++ l ∷ fresh ∷ [])
            ≡ total_with w m (rs ++ l ∷ []) + init_balance
      total_with-longer w e z = omega (
        arith,
        total_with-append w longer rs (l ∷ fresh ∷ []),
        total_with-append w m rs (l ∷ []),
        total_with-other w (put fresh (some opened) m) l (some linked) rs
            (apart_last l rs bank.distinct),
        total_with-other w m fresh (some opened) rs out_rs,
        ap (weigh w) (put-same l (some linked) (put fresh (some opened) m)),
        ap (weigh w) at_fresh,
        ap (weigh w) at,
        weigh-opened w z,
        e,
      )

      longer_accounts : accounts_in longer (rs ++ l ∷ fresh ∷ []) ≡ accounts_in m (rs ++ l ∷ []) + 1
      longer_accounts = omega (
        arith,
        accounts_in-append longer rs (l ∷ fresh ∷ []),
        accounts_in-append m rs (l ∷ []),
        accounts_in-other (put fresh (some opened) m) l (some linked) rs
            (apart_last l rs bank.distinct),
        accounts_in-other m fresh (some opened) rs out_rs,
        ap seg_count (put-same l (some linked) (put fresh (some opened) m)),
        ap seg_count at_fresh,
        ap seg_count at,
      )

      longer_end : (from : ℕ) → IsPath m from (l ∷ []) → IsPath longer from (l ∷ fresh ∷ [])
      longer_end from (e, real_l, used, end) =
          let here = put-same l (some linked) (put fresh (some opened) m) in
          (
            e,
            real_l,
            subst IsUsed (sym here) (subst IsUsed at used),
            (
              ap seg_next here,
              real,
              subst IsUsed (sym at_fresh) (omega arith),
              ap seg_next at_fresh,
            ),
          )

      longer-Distinct : Distinct (rs ++ l ∷ fresh ∷ [])
      longer-Distinct =
          subst Distinct (append_assoc rs (l ∷ []) (fresh ∷ []))
            (Distinct-snoc fresh (rs ++ l ∷ []) bank.distinct out)

      pub longer-IsBank : IsBank init_balance (created + 1) longer start (rs ++ l ∷ fresh ∷ [])
      longer-IsBank =
          opened-IsBank longer (rs ++ l ∷ fresh ∷ [])
            (IsPath-end m longer start rs (l ∷ []) (l ∷ fresh ∷ []) longer_elsewhere longer_end
              bank.path)
            longer-Distinct (total_with-longer parity_of refl refl)
            (total_with-longer no_weight refl refl) longer_accounts
