-- ===== src/Barrier.antt =====
-- The spin barrier (grading/common.hpp, class `Barrier`). One step is one atomic operation on `step`
-- or `mode`. `Counter` is 64 bits wide.
use transactional_memory.Base.{ℕ, ◌+◌, ◌≡◌, Bool, true, false, List, ◌∷◌, ◌++◌, ◌==◌}
use transactional_memory.Words.{add64, sub64}
pub mod Rounds
pub mod Moves
pub mod Passes
pub mod Progress
pub mod Tests

pub data Mode : Type 0 where
  enter : Mode
  leave : Mode

pub record Barrier : Type 0 where
  pub cardinal : ℕ
  pub step : ℕ
  pub mode : Mode

-- The constructor.
unfoldable pub new_barrier : ℕ → Barrier
new_barrier cardinal = record { cardinal = cardinal; step = 0; mode = enter }

-- The `fetch_add`, and whether the caller is the last to enter.
unfoldable pub add_step : Barrier → Bool × Barrier
add_step b = (add64 b.step 1 == b.cardinal, record b { step = add64 b.step 1 })

-- The `fetch_sub`, and whether the caller is the last to leave.
unfoldable pub sub_step : Barrier → Bool × Barrier
sub_step b = (sub64 b.step 1 == 0, record b { step = sub64 b.step 1 })

abbrev pub set_mode : Mode → Barrier → Barrier
set_mode m b = record b { mode = m }

-- Where a thread is in `sync`.
pub data Place : Type 0 where
  outside : Place
  entered_last : Place
  awaiting_leave : Place
  leaving : Place
  left_last : Place
  awaiting_enter : Place

abbrev pub after_add : Bool → Place
after_add true = entered_last
after_add false = awaiting_leave

-- The load of the first loop.
abbrev pub after_load_leave : Mode → Place
after_load_leave leave = leaving
after_load_leave enter = awaiting_leave

abbrev pub after_sub : Bool → Place
after_sub true = left_last
after_sub false = awaiting_enter

-- The load of the second loop.
abbrev pub after_load_enter : Mode → Place
after_load_enter enter = outside
after_load_enter leave = awaiting_enter

-- A thread, and how often it has called `sync`.
pub record Thread : Type 0 where
  pub place : Place
  pub arrivals : ℕ

abbrev pub at : Place → ℕ → Thread
at p n = record { place = p; arrivals = n }

pub record System : Type 0 where
  pub barrier : Barrier
  pub threads : List Thread

pub data Step (s s' : System) : Type 0 where
  adds :
      (xs ys : List Thread) (n : ℕ)
      → s.threads ≡ xs ++ at outside n ∷ ys
      → s' ≡ record {
        barrier = (add_step s.barrier).1;
        threads = xs ++ at (after_add (add_step s.barrier).0) (n + 1) ∷ ys;
      }
      → Step s s'
  sets_leave :
      (xs ys : List Thread) (n : ℕ)
      → s.threads ≡ xs ++ at entered_last n ∷ ys
      → s' ≡ record { barrier = set_mode leave s.barrier; threads = xs ++ at leaving n ∷ ys }
      → Step s s'
  loads_leave :
      (xs ys : List Thread) (n : ℕ)
      → s.threads ≡ xs ++ at awaiting_leave n ∷ ys
      → s' ≡ record {
        barrier = s.barrier;
        threads = xs ++ at (after_load_leave s.barrier.mode) n ∷ ys;
      }
      → Step s s'
  subtracts :
      (xs ys : List Thread) (n : ℕ)
      → s.threads ≡ xs ++ at leaving n ∷ ys
      → s' ≡ record {
        barrier = (sub_step s.barrier).1;
        threads = xs ++ at (after_sub (sub_step s.barrier).0) n ∷ ys;
      }
      → Step s s'
  sets_enter :
      (xs ys : List Thread) (n : ℕ)
      → s.threads ≡ xs ++ at left_last n ∷ ys
      → s' ≡ record { barrier = set_mode enter s.barrier; threads = xs ++ at outside n ∷ ys }
      → Step s s'
  loads_enter :
      (xs ys : List Thread) (n : ℕ)
      → s.threads ≡ xs ++ at awaiting_enter n ∷ ys
      → s' ≡ record {
        barrier = s.barrier;
        threads = xs ++ at (after_load_enter s.barrier.mode) n ∷ ys;
      }
      → Step s s'

pub data Steps (s : System) : System → Type 0 where
  none_yet : Steps s s
  then_step : {m e : System} → Steps s m → Step m e → Steps s e
