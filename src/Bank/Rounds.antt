-- ===== src/Bank/Rounds.antt =====
-- A worker's `run` on a bank, one transaction after the other (grading/workload.hpp).
use mathlib.Core.Path.{subst, ap₂}
use transactional_memory.Base.{
  ℕ, zero, suc, ◌+◌, ◌*◌, ◌^◌, ◌≤◌, ◌<◌, ◌≡◌, ◌≢◌, refl, sym, ◌∙◌, ap, inl, inr, Bool, true, false,
  ◌&&◌, some, List, [], ◌∷◌, Run, ok, fault, out_of_fuel, ◌>>=◌, Ensures, Ensures-bind,
  Ensures-mono, ltb, if◌then◌else◌, ◌==◌, Bool-cases, length, arith,
}
use transactional_memory.Links.Ring.{has}
use transactional_memory.Bank.{
  AccountSegment, Memory, seek, seek_both, transfer_unit, short_tx, alloc_tx, Choice, control,
  allocation, transfers, retry_short, run_choice, run,
}
use transactional_memory.Bank.Accounts.{find-ok}
use transactional_memory.Bank.Transfer.{Kept}
use transactional_memory.Bank.Search.{short_tx-Kept}
use transactional_memory.Bank.Banks.{
  IsPath, IsBank, IsPath-IsChain, long_tx-consistent, Kept-IsBank,
}
use transactional_memory.Bank.Alloc.{IsNext, alloc_tx-IsNext}
use transactional_memory.Bank.Ends.{last_used}

-- Whether one of the chosen pairs is the first account with itself, which every bank has.
abbrev pub has_first : List (ℕ × ℕ) → Bool
has_first [] = false
has_first (p ∷ ps) = if (p.0 == 0) && (p.1 == 0) then true else has_first ps

-- Choices that a bank at the addresses `used` can serve: each new segment has an address of its own,
-- and the repeated short transactions come to a pair of accounts.
abbrev pub IsServed : List Choice → (used : List ℕ) → Type 0
IsServed [] used = Unit
IsServed (control ∷ cs) used = IsServed cs used
IsServed (transfers ps ∷ cs) used = (has_first ps ≡ true) × IsServed cs used
IsServed (allocation trigger fresh ∷ cs) used =
    (fresh ≢ 0) × (has fresh used ≡ false) × IsServed cs (fresh ∷ used)

Ensures-tag :
    (P : Bool × Memory → Type 0) (r : Run Memory)
    → Ensures P (r >>= λ m. ok (true, m))
    → Ensures (λ (x : Bool × Memory). (x.0 ≡ true) × P x) (r >>= λ m. ok (true, m))
Ensures-tag P (ok m) h = (refl, h)
Ensures-tag P fault h = absurd h
Ensures-tag P out_of_fuel h = absurd h

-- The first account is found at once.
short_tx-first :
    (fuel start : ℕ) (m : Memory) (s : AccountSegment)
    → m start ≡ some s
    → 0 < s.count
    → short_tx (suc fuel) m start 0 0
      ≡ (transfer_unit (start, 0) (start, 0) m >>= λ m'. ok (true, m'))
unfolding short_tx seek_both seek
short_tx-first fuel start m s at used =
    let here : ltb 0 s.count ≡ true = ground arith in rw (find-ok m start s at, here) refl

first_view :
    (m : Memory) (start : ℕ) (ps : List ℕ)
    → IsPath m start ps
    → start ≢ 0
    → (p : ℕ) × (qs : List ℕ) × (ps ≡ p ∷ qs)
first_view m start [] path real = absurd (real path)
first_view m start (p ∷ qs) path real = (p, qs, refl)

module _ (init_balance nbaccounts fuel start limit : ℕ) (small : init_balance < 2 ^ 63)
    (bounded : init_balance * limit < 2 ^ 63) (few : limit < 2 ^ 63) where
  module _ (created : ℕ) (p : ℕ) (ps : List ℕ) (within : created ≤ limit)
      (enough : length (p ∷ ps) < fuel) where
    abbrev Banks : Bool × Memory → Type 0
    Banks r = (r.0 ≡ true) × IsBank init_balance created r.1 start (p ∷ ps)

    in_bounds : init_balance * created < 2 ^ 63
    in_bounds = grind (arith, bounded, within)

    short_tx-IsBank :
        (m : Memory) (a b : ℕ)
        → IsBank init_balance created m start (p ∷ ps)
        → Ensures
            (λ (r : Bool × Memory). IsBank init_balance created r.1 start (p ∷ ps))
            (short_tx fuel m start a b)
    short_tx-IsBank m a b bank =
        Ensures-mono (λ (r : Bool × Memory). Kept (p ∷ ps) m r.1) _ _
          (short_tx-Kept fuel p ps m start a b (omega (arith, enough)) bank.distinct
            (IsPath-IsChain m start (p ∷ ps) bank.path (omega (arith, bank.bounded, in_bounds))))
          (λ r kept.
            Kept-IsBank init_balance created fuel m start (p ∷ ps) bank enough in_bounds
              (omega (arith, within, few)) r.1 kept)

    first_account :
        (m : Memory)
        → IsBank init_balance created m start (p ∷ ps)
        → Ensures Banks (short_tx fuel m start 0 0)
    first_account m bank = at_first fuel refl
      where
        at_first : (f : ℕ) → fuel ≡ f → Ensures Banks (short_tx fuel m start 0 0)
        at_first zero e = absurd (omega (arith, e, enough))
        at_first (suc f) e =
            let (s, at, used) = last_used m start p [] ps bank.path in
            let here : m start ≡ some s = ap m bank.path.0 ∙ at in
            let steps = ap (λ n. short_tx n m start 0 0) e ∙ short_tx-first f start m s here used in
            subst (λ r. Ensures Banks r) (sym steps)
              (Ensures-tag (λ x. IsBank init_balance created x.1 start (p ∷ ps)) _
                (subst
                  (λ r.
                    Ensures (λ (x : Bool × Memory). IsBank init_balance created x.1 start (p ∷ ps))
                      r)
                  steps (short_tx-IsBank m 0 0 bank)))

    -- The repeated short transactions end, with the bank kept.
    retry_short-IsBank :
        (qs : List (ℕ × ℕ)) (m : Memory)
        → has_first qs ≡ true
        → IsBank init_balance created m start (p ∷ ps)
        → Ensures Banks (retry_short fuel start qs m)
    unfolding retry_short
    retry_short-IsBank [] m some_first bank = absurd (ground arith)
    retry_short-IsBank ((a, b) ∷ qs) m some_first bank = elim (Bool-cases ((a == 0) && (b == 0))) [
      | inl e ↦
          subst
            (λ (x : ℕ × ℕ). Ensures Banks (
              short_tx fuel m start x.0 x.1 >>= λ r.
              if r.0 then ok r else retry_short fuel start qs r.1))
            (first_pair e)
            (Ensures-bind Banks Banks (short_tx fuel m start 0 0) _ (first_account m bank) (λ r h.
              subst (λ t. Ensures Banks (if t then ok r else retry_short fuel start qs r.1))
                (sym h.0) h))
      | inr e ↦
          Ensures-bind (λ (r : Bool × Memory). IsBank init_balance created r.1 start (p ∷ ps)) Banks
            (short_tx fuel m start a b) _ (short_tx-IsBank m a b bank)
            (λ r h. next r h (λ m'.
              retry_short-IsBank qs m'
                (subst (λ t. (if t then true else has_first qs) ≡ true) e some_first)))
    ]
      where
        first_pair : ((a == 0) && (b == 0)) ≡ true → ◌≡◌ {A = ℕ × ℕ} (0, 0) (a, b)
        first_pair e =
            let x : 0 ≡ a = ground arith in let y : 0 ≡ b = ground arith in ap₂ (λ i j. (i, j)) x y

        next :
            (r : Bool × Memory)
            → IsBank init_balance created r.1 start (p ∷ ps)
            → ((m' : Memory)
                → IsBank init_balance created m' start (p ∷ ps)
                → Ensures Banks (retry_short fuel start qs m'))
            → Ensures Banks (if r.0 then ok r else retry_short fuel start qs r.1)
        next (true, m') h again = (refl, h)
        next (false, m') h again = again m' h

  -- The end of `run`: no violation has been found, and there is a bank.
  pub record IsSound (r : Bool × Memory) : Type 0 where
    pub none_found : r.0 ≡ true
    pub opened : ℕ
    pub path : List ℕ
    pub bank : IsBank init_balance opened r.1 start path

  -- On a bank, a worker that runs its transactions one after the other, whatever it chooses of control,
  -- allocation and short transactions, ends without a fault, finds no violation, and leaves a bank: if
  -- each address that an allocation gets is not null and is in no use and not given before, the short
  -- transactions come to a pair of the first account, no more than `limit` accounts are there at the
  -- start or opened, what so many accounts are opened with is below 2 ^ 63, and there is fuel for each
  -- segment that there can be. A segment may be freed on the way.
  pub run-IsSound :
      (cs : List Choice) (created : ℕ) (m : Memory) (p : ℕ) (ps used : List ℕ)
      → IsBank init_balance created m start (p ∷ ps)
      → ((q : ℕ) → has q used ≡ false → has q (p ∷ ps) ≡ false)
      → IsServed cs used
      → created + length cs ≤ limit
      → length (p ∷ ps) + length cs < fuel
      → Ensures IsSound (run fuel init_balance nbaccounts start cs m)
  unfolding run run_choice
  run-IsSound [] created m p ps used bank inside served within enough =
      let (n, e) =
        long_tx-consistent init_balance created fuel m start (p ∷ ps) bank (omega (arith, enough))
          (in_bounds created p ps (omega (arith, within)) (omega (arith, enough)))
          (omega (arith, within, few)) in
      subst (λ r. Ensures IsSound (r >>= λ x. ok (x.0, m))) (sym e)
        (record { none_found = refl; opened = created; path = p ∷ ps; bank = bank })
  run-IsSound (control ∷ cs) created m p ps used bank inside served within enough =
      let (n, e) =
        long_tx-consistent init_balance created fuel m start (p ∷ ps) bank (omega (arith, enough))
          (in_bounds created p ps (omega (arith, within)) (omega (arith, enough)))
          (omega (arith, within, few)) in
      subst
        (λ r. Ensures IsSound (
          (r >>= λ x. ok (x.0, m)) >>= λ x.
          if x.0 then run fuel init_balance nbaccounts start cs x.1 else ok x))
        (sym e)
        (run-IsSound cs created m p ps used bank inside served (omega (arith, within))
          (omega (arith, enough)))
  run-IsSound (transfers qs ∷ cs) created m p ps used bank inside (some_first, served) within
        enough =
      let lim : created ≤ limit = omega (arith, within) in
      let fuelled : length (p ∷ ps) < fuel = omega (arith, enough) in
      Ensures-bind (Banks created p ps lim fuelled) IsSound (retry_short fuel start qs m) _
        (retry_short-IsBank created p ps lim fuelled qs m some_first bank)
        (λ r h.
          subst
            (λ t.
              Ensures IsSound (if t then run fuel init_balance nbaccounts start cs r.1 else ok r))
            (sym h.0)
            (run-IsSound cs created r.1 p ps used h.1 inside served (omega (arith, within))
              (omega (arith, enough))))
  run-IsSound (allocation trigger fresh ∷ cs) created m p ps used bank inside (real, out, served)
        within enough =
      Ensures-bind
        (λ (r : Bool × Memory).
          (r.0 ≡ true) × IsNext init_balance (created + 1) fresh start (p ∷ ps) r.1)
        IsSound
        (alloc_tx fuel init_balance nbaccounts trigger fresh m 0 start 0 >>= λ m'. ok (true, m')) _
        (Ensures-bind (IsNext init_balance (created + 1) fresh start (p ∷ ps)) _
          (alloc_tx fuel init_balance nbaccounts trigger fresh m 0 start 0) _
          (alloc_tx-IsNext init_balance nbaccounts trigger fresh created m start small
            (omega (arith, within, few)) real fuel p ps bank (omega (arith, enough))
            (inside fresh out))
          (λ m' h. (refl, h)))
        (λ r h.
          let n = h.1 in
          let (p', ps', e) =
            first_view r.1 start n.path' n.bank.path (λ z. bank.path.1 (sym bank.path.0 ∙ z)) in
          subst
            (λ t.
              Ensures IsSound (if t then run fuel init_balance nbaccounts start cs r.1 else ok r))
            (sym h.0)
            (run-IsSound cs (created + 1) r.1 p' ps' (fresh ∷ used)
              (subst (λ xs. IsBank init_balance (created + 1) r.1 start xs) e n.bank)
              (λ q apart.
                subst (λ xs. has q xs ≡ false) e
                  (n.inside q (ground arith) (inside q (ground arith))))
              served (omega (arith, within)) (omega (arith, n.longer, ap length e, enough))))
