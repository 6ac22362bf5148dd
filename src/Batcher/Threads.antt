-- ===== src/Batcher/Threads.antt =====
-- Threads that enter and leave one batcher, in any order (template/batcher.c). A wait on the
-- condition variable ends with the broadcast or, as POSIX documents, spuriously; the code does not
-- test its condition again.
use transactional_memory.Base.{
  ℕ, zero, suc, ◌+◌, ◌%◌, ◌^◌, ◌≤◌, ◌<◌, ◌≡◌, ◌≢◌, refl, ap, Bool, true, false, List, [], ◌∷◌, ◌++◌,
  ◌==◌, length, ==_iff, arith,
}
use transactional_memory.Batcher.{
  Batcher, init_batcher, enter_batcher, decrement, count_out, next_epoch,
}

pub data Status : Type 0 where
  outside : Status
  waiting : Status
  inside : Status

abbrev pub is_inside : Status → ℕ
is_inside outside = 0
is_inside waiting = 0
is_inside inside = 1

abbrev pub is_waiting : Status → ℕ
is_waiting outside = 0
is_waiting waiting = 1
is_waiting inside = 0

abbrev pub count : (Status → ℕ) → List Status → ℕ
count f [] = 0
count f (t ∷ ts) = f t + count f ts

-- The broadcast.
abbrev pub wake : Status → Status
wake outside = outside
wake waiting = inside
wake inside = inside

abbrev pub wake_all : List Status → List Status
wake_all [] = []
wake_all (t ∷ ts) = wake t ∷ wake_all ts

abbrev pub entered : Bool → Status
entered true = inside
entered false = waiting

-- `early` counts the spurious wake-ups since the last broadcast; the code has no such counter.
pub record System : Type 0 where
  pub batcher : Batcher
  pub threads : List Status
  pub early : ℕ

-- A thread has left, and `threads` are the statuses then.
abbrev pub left : Bool × Batcher → List Status → (early : ℕ) → System
left (true, b) threads early = record {
  batcher = next_epoch b;
  threads = wake_all threads;
  early = 0;
}
left (false, b) threads early = record { batcher = b; threads = threads; early = early }

abbrev pub after_enter : Batcher → (xs ys : List Status) → (early : ℕ) → System
after_enter b xs ys early = record {
  batcher = (enter_batcher b).1;
  threads = xs ++ entered (enter_batcher b).0 ∷ ys;
  early = early;
}

-- A wait that ends without a broadcast.
abbrev pub after_wake : Batcher → (xs ys : List Status) → (early : ℕ) → System
after_wake b xs ys early = record { batcher = b; threads = xs ++ inside ∷ ys; early = early + 1 }

pub data Step (s s' : System) : Type 0 where
  enters :
      (xs ys : List Status)
      → s.threads ≡ xs ++ outside ∷ ys
      → s' ≡ after_enter s.batcher xs ys s.early
      → Step s s'
  leaves :
      (xs ys : List Status)
      → s.threads ≡ xs ++ inside ∷ ys
      → s' ≡ left (count_out s.batcher) (xs ++ outside ∷ ys) s.early
      → Step s s'
  wakes_early :
      (xs ys : List Status)
      → s.threads ≡ xs ++ waiting ∷ ys
      → s' ≡ after_wake s.batcher xs ys s.early
      → Step s s'

pub data Steps (s : System) : System → Type 0 where
  none_yet : Steps s s
  then_step : {m e : System} → Steps s m → Step m e → Steps s e

abbrev pub all_outside : ℕ → List Status
all_outside zero = []
all_outside (suc n) = outside ∷ all_outside n

abbrev pub start : ℕ → System
start n = record { batcher = init_batcher; threads = all_outside n; early = 0 }

-- The counters count, but for the threads that woke up early, and where none remains, nobody is
-- inside or waits.
pub record IsCounted (s : System) : Type 0 where
  pub remaining : s.batcher.remaining + s.early ≡ count is_inside s.threads
  pub blocked : s.batcher.blocked ≡ count is_waiting s.threads + s.early
  pub served :
      s.batcher.remaining ≡ 0 → (count is_inside s.threads ≡ 0) × (count is_waiting s.threads ≡ 0)
  pub few : length s.threads < 2 ^ 31
  pub epoch : s.batcher.counter < 2 ^ 32

pub count-append :
    (f : Status → ℕ) (xs ys : List Status) → count f (xs ++ ys) ≡ count f xs + count f ys
count-append f [] ys = omega arith
count-append f (x ∷ xs) ys = omega (arith, count-append f xs ys)

pub length-replace :
    (t u : Status) (xs ys : List Status) → length (xs ++ t ∷ ys) ≡ length (xs ++ u ∷ ys)
length-replace t u [] ys = refl
length-replace t u (x ∷ xs) ys = ap suc (length-replace t u xs ys)

pub length-wake_all : (ts : List Status) → length (wake_all ts) ≡ length ts
length-wake_all [] = refl
length-wake_all (t ∷ ts) = ap suc (length-wake_all ts)

pub inside-le-length : (ts : List Status) → count is_inside ts + count is_waiting ts ≤ length ts
inside-le-length [] = omega arith
inside-le-length (outside ∷ ts) = omega (arith, inside-le-length ts)
inside-le-length (waiting ∷ ts) = omega (arith, inside-le-length ts)
inside-le-length (inside ∷ ts) = omega (arith, inside-le-length ts)

pub inside-wake_all :
    (ts : List Status) → count is_inside (wake_all ts) ≡ count is_inside ts + count is_waiting ts
inside-wake_all [] = refl
inside-wake_all (outside ∷ ts) = omega (arith, inside-wake_all ts)
inside-wake_all (waiting ∷ ts) = omega (arith, inside-wake_all ts)
inside-wake_all (inside ∷ ts) = omega (arith, inside-wake_all ts)

pub waiting-wake_all : (ts : List Status) → count is_waiting (wake_all ts) ≡ 0
waiting-wake_all [] = refl
waiting-wake_all (outside ∷ ts) = omega (arith, waiting-wake_all ts)
waiting-wake_all (waiting ∷ ts) = omega (arith, waiting-wake_all ts)
waiting-wake_all (inside ∷ ts) = omega (arith, waiting-wake_all ts)

module _ (b : Batcher) where
  pub enter_batcher_free : b.remaining ≡ 0 → enter_batcher b ≡ (true, record b { remaining = 1 })
  unfolding enter_batcher
  enter_batcher_free e = rw ((==_iff b.remaining 0).1 e)

  pub enter_batcher_busy :
      b.remaining ≢ 0 → enter_batcher b ≡ (false, record b { blocked = (b.blocked + 1) % 2 ^ 32 })
  unfolding enter_batcher
  enter_batcher_busy ne = let h : (b.remaining == 0) ≡ false = ground arith in rw h

  pub count_out_last :
      (decrement b).remaining ≡ 0
      → count_out b ≡ (true, record (decrement b) { remaining = b.blocked })
  unfolding count_out
  count_out_last e = rw ((==_iff (decrement b).remaining 0).1 e)

  pub count_out_more : (decrement b).remaining ≢ 0 → count_out b ≡ (false, decrement b)
  unfolding count_out
  count_out_more ne = let h : ((decrement b).remaining == 0) ≡ false = ground arith in rw h
