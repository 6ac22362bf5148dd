-- ===== src/Bank/Search.antt =====
-- `short_tx` (grading/workload.hpp) as a whole: the search for the two accounts, and the transfer.
use mathlib.Core.Path.{subst}
use transactional_memory.Base.{
  ℕ, zero, suc, ◌<◌, ◌≡◌, sym, ◌∙◌, ap, inl, inr, Bool, true, false, Option, none, some, List, [],
  ◌∷◌, Run, ok, ◌>>=◌, Ensures, Ensures-bind, ltb, ltb→lt, ◌==◌, if◌then◌else◌, length, Bool-cases,
  ==_iff, arith,
}
use transactional_memory.Links.Ring.{has, Distinct}
use transactional_memory.Bank.{
  AccountSegment, Memory, find, Account, seek, both_or, seek_both, transfer_unit, short_tx,
}
use transactional_memory.Bank.Accounts.{seg_next, IsChain, find-ok}
use transactional_memory.Bank.Transfer.{Exists, Kept, Kept-refl, transfer_unit-Kept}

-- A pointer, where there is one, is to an account of the bank.
abbrev pub MayExist : Memory → List ℕ → Option Account → Type 0
MayExist m ps none = Unit
MayExist m ps (some a) = Exists m ps a

abbrev pub BothExist : Memory → List ℕ → Option (Account × Account) → Type 0
BothExist m ps none = Unit
BothExist m ps (some (a, b)) = Exists m ps a × Exists m ps b

module _ (m : Memory) (all : List ℕ) where
  module _ (p : ℕ) (s : AccountSegment) (at : m p ≡ some s) (listed : has p all ≡ true) where
    seek-MayExist :
        (o : Option Account) (id : ℕ) → MayExist m all o → MayExist m all (seek p s.count o id).0
    unfolding seek
    seek-MayExist (some a) id x = x
    seek-MayExist none id x = elim (Bool-cases (ltb id s.count)) [
      | inl lt ↦
          rw lt (record { seg = s; found = at; listed = listed; held = ltb→lt id s.count lt })
      | inr ge ↦ rw ge tt
    ]

  both_or-BothExist :
      (a b : Option Account) (rest : Run (Option (Account × Account)))
      → MayExist m all a
      → MayExist m all b
      → Ensures (BothExist m all) rest
      → Ensures (BothExist m all) (both_or a b rest)
  both_or-BothExist (some a) (some b) rest x y r = (x, y)
  both_or-BothExist (some a) none rest x y r = r
  both_or-BothExist none b rest x y r = r

  -- One round, with what is left of the search.
  module _ (p start : ℕ) (s : AccountSegment) (at : m p ≡ some s) (e : start ≡ p)
      (inside : has p all ≡ true) (send recv : Option Account) (sid rid : ℕ)
      (x : MayExist m all send) (y : MayExist m all recv) where
    abbrev x' : Option Account × ℕ
    x' = seek start s.count send sid

    abbrev y' : Option Account × ℕ
    y' = seek start s.count recv rid

    x'-MayExist : MayExist m all x'.0
    x'-MayExist = seek-MayExist start s (ap m e ∙ at) (ap (λ q. has q all) e ∙ inside) send sid x

    y'-MayExist : MayExist m all y'.0
    y'-MayExist = seek-MayExist start s (ap m e ∙ at) (ap (λ q. has q all) e ∙ inside) recv rid y

    seek_round :
        (f : ℕ)
        → Ensures
            (BothExist m all)
            (if s.next == 0 then ok none else seek_both f m s.next x'.0 y'.0 x'.1 y'.1)
        → Ensures (BothExist m all) (seek_both (suc f) m start send recv sid rid)
    unfolding seek_both
    seek_round f rest =
        let here : find m start ≡ ok s = ap (find m) e ∙ find-ok m p s at in
        rw here (both_or-BothExist x'.0 y'.0 _ x'-MayExist y'-MayExist rest)

  seek_both-BothExist :
      (fuel p : ℕ) (qs : List ℕ) (start : ℕ) (send recv : Option Account) (sid rid : ℕ)
      → length qs < fuel
      → IsChain m start (p ∷ qs)
      → ((q : ℕ) → has q (p ∷ qs) ≡ true → has q all ≡ true)
      → MayExist m all send
      → MayExist m all recv
      → Ensures (BothExist m all) (seek_both fuel m start send recv sid rid)
  seek_both-BothExist zero p qs start send recv sid rid lt c inside x y = absurd (omega arith)
  seek_both-BothExist (suc f) p [] start send recv sid rid lt (e, real, (s, at, fine), end) inside x
        y =
      let z : (s.next == 0) ≡ true = (==_iff s.next 0).1 (sym (ap seg_next at) ∙ end) in
      seek_round p start s at e (inside p (ground arith)) send recv sid rid x y f (rw z tt)
  seek_both-BothExist (suc f) p (q ∷ qs) start send recv sid rid lt (e, real, (s, at, fine), rest)
        inside x y =
      let c : IsChain m s.next (q ∷ qs) = subst (λ z. IsChain m z (q ∷ qs)) (ap seg_next at) rest in
      let nz : (s.next == 0) ≡ false = ground (arith, c.0, c.1) in
      let here = inside p (ground arith) in
      seek_round p start s at e here send recv sid rid x y f (
        rw nz (
          seek_both-BothExist f q qs s.next _ _ _ _ (omega arith) c (λ t k. inside t (ground arith))
            (x'-MayExist p start s at e here send recv sid rid x y)
            (y'-MayExist p start s at e here send recv sid rid x y)))

-- On a chain of at least one segment, with fuel for each of them, a short transaction returns
-- without a fault, whether the accounts exist or not, and keeps the sum of all balances and parities
-- modulo 2 ^ 64, the number of accounts, and the segments with their links; the balances without the
-- parities do not grow.
pub short_tx-Kept :
    (fuel p : ℕ) (qs : List ℕ) (m : Memory) (start send_id recv_id : ℕ)
    → length qs < fuel
    → Distinct (p ∷ qs)
    → IsChain m start (p ∷ qs)
    → Ensures (λ r. Kept (p ∷ qs) m r.1) (short_tx fuel m start send_id recv_id)
unfolding short_tx
short_tx-Kept fuel p qs m start send_id recv_id enough d c =
    Ensures-bind (BothExist m (p ∷ qs)) (λ (r : Bool × Memory). Kept (p ∷ qs) m r.1) _ _
      (seek_both-BothExist m (p ∷ qs) fuel p qs start none none send_id recv_id enough c (λ q k. k)
        tt tt)
      (λ o. ends o)
  where
    ends :
        (o : Option (Account × Account))
        → BothExist m (p ∷ qs) o
        → Ensures
            (λ (r : Bool × Memory). Kept (p ∷ qs) m r.1)
            (elim o [
              | none ↦ ok (false, m)
              | some (sender, recver) ↦ transfer_unit sender recver m >>= λ m'. ok (true, m')
            ])
    ends none x = Kept-refl (p ∷ qs) m
    ends (some (sender, recver)) (x, y) =
        let (m', e, kept) = transfer_unit-Kept m (p ∷ qs) sender recver d x y in rw e kept
