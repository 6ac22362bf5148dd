-- ===== src/Lock.antt =====
-- The spinlock (template/lock.h, template/lock.c), which reference/tm.c has as well where no
-- macro chooses another lock. One step is one atomic operation on `locked`.
use transactional_memory.Base.{ℕ, Bool, true, false, List, ◌∷◌, ◌++◌, ◌≡◌, if◌then◌else◌}
pub mod Exclusion
pub mod Tests

-- Where a thread is: outside, before the compare and exchange of `spinlock_acquire`, in its inner
-- loop, or past it.
pub data Place : Type 0 where
  idle : Place
  trying : Place
  watching : Place
  holding : Place

-- `spinlock_init`
abbrev pub spinlock_init : Bool
spinlock_init = false

-- The weak compare and exchange: whether it succeeds, and `locked`. It may fail `spuriously`.
unfoldable pub exchange : (spuriously locked : Bool) → Bool × Bool
exchange spuriously locked =
    if locked then (false, locked) else (if spuriously then (false, locked) else (true, true))

abbrev pub after_exchange : Bool → Place
after_exchange true = holding
after_exchange false = watching

-- The load of the inner loop.
abbrev pub after_load : (locked : Bool) → Place
after_load true = watching
after_load false = trying

-- `spinlock_release`
abbrev pub spinlock_release : Bool
spinlock_release = false

pub record Spin : Type 0 where
  pub locked : Bool
  pub places : List Place

pub data Step (s s' : Spin) : Type 0 where
  calls :
      (xs ys : List Place)
      → s.places ≡ xs ++ idle ∷ ys
      → s' ≡ record { locked = s.locked; places = xs ++ trying ∷ ys }
      → Step s s'
  exchanges :
      (spuriously : Bool) (xs ys : List Place)
      → s.places ≡ xs ++ trying ∷ ys
      → s' ≡ record {
        locked = (exchange spuriously s.locked).1;
        places = xs ++ after_exchange (exchange spuriously s.locked).0 ∷ ys;
      }
      → Step s s'
  loads :
      (xs ys : List Place)
      → s.places ≡ xs ++ watching ∷ ys
      → s' ≡ record { locked = s.locked; places = xs ++ after_load s.locked ∷ ys }
      → Step s s'
  releases :
      (xs ys : List Place)
      → s.places ≡ xs ++ holding ∷ ys
      → s' ≡ record { locked = spinlock_release; places = xs ++ idle ∷ ys }
      → Step s s'

pub data Steps (s : Spin) : Spin → Type 0 where
  none_yet : Steps s s
  then_step : {m e : Spin} → Steps s m → Step m e → Steps s e
