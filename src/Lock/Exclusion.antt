-- ===== src/Lock/Exclusion.antt =====
-- At most one thread holds the spinlock (template/lock.c).
use transactional_memory.Base.{
  ℕ, zero, suc, ◌+◌, ◌≤◌, ◌≡◌, refl, sym, ◌∙◌, ap, inl, inr, Bool, true, false, List, [], ◌∷◌, ◌++◌,
  Bool-cases, arith,
}
use transactional_memory.Lock.{
  Place, idle, trying, watching, holding, exchange, after_exchange, after_load, spinlock_init, Spin,
  Step, calls, exchanges, loads, releases, Steps, none_yet, then_step,
}

abbrev holds : Place → ℕ
holds idle = 0
holds trying = 0
holds watching = 0
holds holding = 1

abbrev pub holders : List Place → ℕ
holders [] = 0
holders (p ∷ ps) = holds p + holders ps

abbrev pub all_idle : ℕ → List Place
all_idle zero = []
all_idle (suc n) = idle ∷ all_idle n

abbrev pub unlocked : ℕ → Spin
unlocked n = record { locked = spinlock_init; places = all_idle n }

-- The flag is the number of threads that hold the lock.
abbrev pub flag : Bool → ℕ
flag true = 1
flag false = 0

abbrev pub IsExclusive : Spin → Type 0
IsExclusive s = holders s.places ≡ flag s.locked

holders-append :
    (xs : List Place) (p : Place) (ys : List Place)
    → holders (xs ++ p ∷ ys) ≡ holders xs + (holds p + holders ys)
holders-append [] p ys = omega arith
holders-append (x ∷ xs) p ys = omega (arith, holders-append xs p ys)

holders-all_idle : (n : ℕ) → holders (all_idle n) ≡ 0
holders-all_idle zero = refl
holders-all_idle (suc n) = omega (arith, holders-all_idle n)

module _ (xs ys : List Place) where
  exchange-IsExclusive :
      (spuriously locked : Bool)
      → holders (xs ++ trying ∷ ys) ≡ flag locked
      → holders (xs ++ after_exchange (exchange spuriously locked).0 ∷ ys)
        ≡ flag (exchange spuriously locked).1
  unfolding exchange
  exchange-IsExclusive spuriously true h =
      omega (arith, h, holders-append xs trying ys, holders-append xs watching ys)
  exchange-IsExclusive true false h =
      omega (arith, h, holders-append xs trying ys, holders-append xs watching ys)
  exchange-IsExclusive false false h =
      omega (arith, h, holders-append xs trying ys, holders-append xs holding ys)

  load-IsExclusive :
      (locked : Bool)
      → holders (xs ++ watching ∷ ys) ≡ flag locked
      → holders (xs ++ after_load locked ∷ ys) ≡ flag locked
  load-IsExclusive true h = h
  load-IsExclusive false h =
      omega (arith, h, holders-append xs trying ys, holders-append xs watching ys)

  release-IsExclusive :
      (locked : Bool) → holders (xs ++ holding ∷ ys) ≡ flag locked → holders (xs ++ idle ∷ ys) ≡ 0
  release-IsExclusive true h =
      omega (arith, h, holders-append xs holding ys, holders-append xs idle ys)
  release-IsExclusive false h = absurd (omega (arith, h, holders-append xs holding ys))

Step-IsExclusive : (s s' : Spin) → Step s s' → IsExclusive s → IsExclusive s'
Step-IsExclusive s s' (calls xs ys e e') h =
    rw e' (omega (arith, ap holders e, h, holders-append xs idle ys, holders-append xs trying ys))
Step-IsExclusive s s' (exchanges spuriously xs ys e e') h =
    rw e' (exchange-IsExclusive xs ys spuriously s.locked (sym (ap holders e) ∙ h))
Step-IsExclusive s s' (loads xs ys e e') h =
    rw e' (load-IsExclusive xs ys s.locked (sym (ap holders e) ∙ h))
Step-IsExclusive s s' (releases xs ys e e') h =
    rw e' (release-IsExclusive xs ys s.locked (sym (ap holders e) ∙ h))

Steps-IsExclusive : (n : ℕ) (s : Spin) → Steps (unlocked n) s → IsExclusive s
Steps-IsExclusive n s none_yet = holders-all_idle n
Steps-IsExclusive n s (then_step {m = m} before step) =
    Step-IsExclusive m s step (Steps-IsExclusive n m before)

-- Whatever threads acquire and release the spinlock in whatever order, and whichever exchanges fail
-- spuriously: at most one thread holds it, and exactly then `locked` is set.
pub Steps-holders :
    (n : ℕ) (s : Spin)
    → Steps (unlocked n) s
    → (holders s.places ≤ 1) × (holders s.places ≡ flag s.locked)
Steps-holders n s steps =
    let h = Steps-IsExclusive n s steps in
    (
      elim (Bool-cases s.locked) [
        | inl t ↦ omega (arith, h, ap flag t)
        | inr f ↦ omega (arith, h, ap flag f)
      ],
      h,
    )
