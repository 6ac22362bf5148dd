-- ===== src/Bank/Transfer.antt =====
-- `short_tx` (grading/workload.hpp) moves one unit and keeps the sum of the balances.
use transactional_memory.Base.{
  ℕ, ◌+◌, ◌%◌, ◌^◌, ◌≤◌, ◌<◌, ◌≡◌, refl, sym, ◌∙◌, ap, inl, inr, true, false, ◌&&◌, Option, none,
  some, List, [], ◌∷◌, ok, ltb, ◌==◌, Bool-cases, ==_iff, arith,
}
use transactional_memory.Words.{add64, sub64}
use transactional_memory.Links.Ring.{has, Distinct}
use transactional_memory.Bank.{
  AccountSegment, Memory, put, set_account, Account, read_account, write_account, transfer_unit,
}
use transactional_memory.Bank.Accounts.{
  weigh, parity_of, no_weight, seg_count, total_with, total, balances, accounts_in, find-ok,
}
use transactional_memory.Bank.Sums.{sum_of-set, put-same, put-other, total_with-other}

pub some-injective : (a b : AccountSegment) → some a ≡ some b → a ≡ b
some-injective a b e = cc e

-- An account exists: its segment is one of `ps`, and holds it.
pub record Exists (m : Memory) (ps : List ℕ) (a : Account) : Type 0 where
  pub seg : AccountSegment
  pub found : m a.0 ≡ some seg
  pub listed : has a.0 ps ≡ true
  pub held : a.1 < seg.count

abbrev account_of : Option AccountSegment → ℕ → ℕ
account_of none i = 0
account_of (some s) i = s.accounts i

abbrev pub balance : Memory → Account → ℕ
balance m a = account_of (m a.0) a.1

module _ (m : Memory) (a : Account) (v : ℕ) where
  module _ (s : AccountSegment) (at : m a.0 ≡ some s) where
    abbrev pub updated : Memory
    updated = put a.0 (some (record s { accounts = set_account a.1 v s.accounts })) m

    write_account_lem : write_account a v m ≡ ok updated
    unfolding write_account
    write_account_lem = rw (find-ok m a.0 s at) refl

    read_account_lem : read_account m a ≡ ok (balance m a)
    unfolding read_account
    read_account_lem = rw (find-ok m a.0 s at, at) refl

    module _ (held : a.1 < s.count) (w : AccountSegment → ℕ)
        (same : w (record s { accounts = set_account a.1 v s.accounts }) ≡ w s) where
      one_total : weigh w (updated a.0) + balance m a ≡ weigh w (m a.0) + v
      one_total =
          let new =
            ap (weigh w)
              (put-same a.0 (some (record s { accounts = set_account a.1 v s.accounts })) m) in
          let old = ap (weigh w) at in
          let was : balance m a ≡ s.accounts a.1 = ap (λ o. account_of o a.1) at in
          omega (
            arith,
            new,
            old,
            was,
            same,
            sum_of-set s.accounts a.1 v s.count 0 (omega arith) (omega (arith, held)),
          )

      -- One account changes, and the sum by as much.
      updated-total_with :
          (ps : List ℕ)
          → has a.0 ps ≡ true
          → Distinct ps
          → total_with w updated ps + balance m a ≡ total_with w m ps + v
      updated-total_with [] mem d = cc
      updated-total_with (p ∷ ps) mem d = elim (Bool-cases (a.0 == p)) [
        | inl e ↦
            let e' : a.0 ≡ p = (==_iff a.0 p).0 e in
            let out : has a.0 ps ≡ false = ap (λ q. has q ps) e' ∙ d.0 in
            let here = ap (λ q. weigh w (updated q)) e' in
            let there = ap (λ q. weigh w (m q)) e' in
            omega (
              arith,
              here,
              there,
              one_total,
              total_with-other w m a.0 (some (record s { accounts = set_account a.1 v s.accounts }))
                  ps out,
            )
        | inr ne ↦
            let far = ap (weigh w) (
              put-other a.0 p (some (record s { accounts = set_account a.1 v s.accounts })) m
                (ground arith)) in
            omega (arith, far, updated-total_with ps (ground arith) d.1)
      ]

    updated-count : (ps : List ℕ) → accounts_in updated ps ≡ accounts_in m ps
    updated-count [] = refl
    updated-count (p ∷ ps) = elim (Bool-cases (p == a.0)) [
      | inl e ↦
          let same : p ≡ a.0 = (==_iff p a.0).0 e in
          let here = ap (λ q. seg_count (updated q)) same ∙ ap seg_count (put-same a.0 _ m) in
          let there = ap (λ q. seg_count (m q)) same ∙ ap seg_count at in
          omega (arith, here, there, updated-count ps)
      | inr ne ↦
          let far =
            ap seg_count (
              put-other a.0 p (some (record s { accounts = set_account a.1 v s.accounts })) m ne) in
          omega (arith, far, updated-count ps)
    ]

    -- Every account is still there.
    updated-Exists : (ps : List ℕ) (b : Account) → Exists m ps b → Exists updated ps b
    updated-Exists ps b x = elim (Bool-cases (b.0 == a.0)) [
      | inl e ↦
          let same : b.0 ≡ a.0 = (==_iff b.0 a.0).0 e in
          let one : s ≡ x.seg = some-injective s x.seg (sym at ∙ ap m (sym same) ∙ x.found) in
          record {
            seg = record s { accounts = set_account a.1 v s.accounts };
            found = ap updated same ∙ put-same a.0 _ m;
            listed = x.listed;
            held = rw (ap (λ (t : AccountSegment). t.count) one) x.held;
          }
      | inr ne ↦ record {
        seg = x.seg;
        found = put-other a.0 b.0 _ m ne ∙ x.found;
        listed = x.listed;
        held = x.held;
      }
    ]

-- Memories that differ in balances and parities only.
abbrev pub SameShape : Option AccountSegment → Option AccountSegment → Type 0
SameShape none none = Unit
SameShape none (some t) = ⊥
SameShape (some s) none = ⊥
SameShape (some s) (some t) = (t.next ≡ s.next) × (t.count ≡ s.count)

pub SameShape-refl : (o : Option AccountSegment) → SameShape o o
SameShape-refl none = tt
SameShape-refl (some s) = (refl, refl)

SameShape-trans : (a b c : Option AccountSegment) → SameShape a b → SameShape b c → SameShape a c
SameShape-trans none none c h k = k
SameShape-trans none (some t) c h k = absurd h
SameShape-trans (some s) none c h k = absurd h
SameShape-trans (some s) (some t) none h k = absurd k
SameShape-trans (some s) (some t) (some u) h k = (k.0 ∙ h.0, k.1 ∙ h.1)

updated-SameShape :
    (m : Memory) (a : Account) (v : ℕ) (s : AccountSegment) (at : m a.0 ≡ some s) (q : ℕ)
    → SameShape (m q) (updated m a v s at q)
updated-SameShape m a v s at q = elim (Bool-cases (q == a.0)) [
  | inl e ↦
      let here : m q ≡ some s = ap m ((==_iff q a.0).0 e) ∙ at in
      let there : updated m a v s at q
          ≡ some (record s { accounts = set_account a.1 v s.accounts }) =
        ap (updated m a v s at) ((==_iff q a.0).0 e) ∙ put-same a.0 _ m in
      rw (here, there) (refl, refl)
  | inr ne ↦ rw (put-other a.0 q _ m ne) (SameShape-refl (m q))
]

-- What a transfer leaves: the sum modulo 2 ^ 64, the number of accounts, and the segments; and the
-- balances without the parities are no more than before.
pub record Kept (ps : List ℕ) (m m' : Memory) : Type 0 where
  pub sum : total m' ps % 2 ^ 64 ≡ total m ps % 2 ^ 64
  pub counts : accounts_in m' ps ≡ accounts_in m ps
  pub bounded : balances m' ps ≤ balances m ps
  pub shape : (q : ℕ) → SameShape (m q) (m' q)

pub Kept-refl : (ps : List ℕ) (m : Memory) → Kept ps m m
Kept-refl ps m = record {
  sum = refl;
  counts = refl;
  bounded = omega arith;
  shape = λ q. SameShape-refl (m q);
}

module _ (m : Memory) (ps : List ℕ) (sender recver : Account) (d : Distinct ps)
    (x : Exists m ps sender) (y : Exists m ps recver) where
  abbrev sent : Memory
  sent = updated m sender (sub64 (balance m sender) 1) x.seg x.found

  y' : Exists sent ps recver
  y' = updated-Exists m sender (sub64 (balance m sender) 1) x.seg x.found ps recver y

  abbrev received : Memory
  received = updated sent recver (add64 (balance sent recver) 1) y'.seg y'.found

  transfer_rich :
      (ltb 0 (balance m sender) && ltb (balance m sender) (2 ^ 63)) ≡ true
      → transfer_unit sender recver m ≡ ok received
  unfolding transfer_unit
  transfer_rich rich =
      rw
        (
          read_account_lem m sender 0 x.seg x.found,
          rich,
          write_account_lem m sender (sub64 (balance m sender) 1) x.seg x.found,
          read_account_lem sent recver 0 y'.seg y'.found,
        )
        (write_account_lem sent recver (add64 (balance sent recver) 1) y'.seg y'.found)

  transfer_poor :
      (ltb 0 (balance m sender) && ltb (balance m sender) (2 ^ 63)) ≡ false
      → transfer_unit sender recver m ≡ ok m
  unfolding transfer_unit
  transfer_poor poor = rw (read_account_lem m sender 0 x.seg x.found, poor) refl

  -- One unit less, and one more.
  rich_sum :
      (w : AccountSegment → ℕ)
      → ((s : AccountSegment) (f : ℕ → ℕ) → w (record s { accounts = f }) ≡ w s)
      → 0 < balance m sender
      → balance m sender < 2 ^ 63
      → (total_with w received ps ≤ total_with w m ps)
        × (total_with w received ps % 2 ^ 64 ≡ total_with w m ps % 2 ^ 64)
  rich_sum w same some_left small =
      let first =
        updated-total_with m sender (sub64 (balance m sender) 1) x.seg x.found x.held w
          (same x.seg _) ps x.listed d in
      let second =
        updated-total_with sent recver (add64 (balance sent recver) 1) y'.seg y'.found y'.held w
          (same y'.seg _) ps y'.listed d in
      (
        omega (arith, first, second, some_left, small),
        omega (arith, first, second, some_left, small),
      )

  rich-Kept :
      (ltb 0 (balance m sender) && ltb (balance m sender) (2 ^ 63)) ≡ true → Kept ps m received
  rich-Kept rich =
      let some_left : 0 < balance m sender = ground arith in
      let small : balance m sender < 2 ^ 63 = ground arith in
      let one = sub64 (balance m sender) 1 in
      let more = add64 (balance sent recver) 1 in
      record {
        sum = (rich_sum parity_of (λ s f. refl) some_left small).1;
        counts =
            updated-count sent recver more y'.seg y'.found ps
            ∙ updated-count m sender one x.seg x.found ps;
        bounded = (rich_sum no_weight (λ s f. refl) some_left small).0;
        shape = λ q.
            SameShape-trans (m q) (sent q) (received q)
              (updated-SameShape m sender one x.seg x.found q)
              (updated-SameShape sent recver more y'.seg y'.found q);
      }

  -- Between two accounts that exist, which may be one and the same, a transfer returns without a
  -- fault, and keeps the sum of all balances and parities modulo 2 ^ 64, the number of accounts, and the
  -- segments with their links; the balances without the parities do not grow.
  pub transfer_unit-Kept : (m' : Memory) × (transfer_unit sender recver m ≡ ok m') × Kept ps m m'
  transfer_unit-Kept =
      elim (Bool-cases (ltb 0 (balance m sender) && ltb (balance m sender) (2 ^ 63))) [
        | inl rich ↦ (received, transfer_rich rich, rich-Kept rich)
        | inr poor ↦ (m, transfer_poor poor, Kept-refl ps m)
      ]
