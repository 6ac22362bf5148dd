-- ===== src/Latch.antt =====
-- The latch (grading/common.hpp, class `Latch`), each part of it under its lock.
use transactional_memory.Base.{
  ℕ, Bool, true, false, Option, none, some, List, [], ◌∷◌, ◌||◌, not, ◌==◌, if◌then◌else◌,
}
use transactional_memory.Clock.{invalid_tick}

abbrev pub raise : (raised : Bool) → Bool
raise raised = true

-- A wake-up of the waiting thread: whether the time is over, and `raised` then.
pub record Wake : Type 0 where
  pub late : Bool
  pub raised : Bool

-- `wait`, at the wake-ups `ws`: what it returns and `raised` behind it, or `none` while it waits. A
-- wait without timeout goes on at each wake-up, `cv.wait_for` until the time is over.
unfoldable pub wait : (maxtick : ℕ) → (raised : Bool) → List Wake → Option (Bool × Bool)
wait maxtick true ws = some (true, false)
wait maxtick false [] = none
wait maxtick false (w ∷ ws) =
    let again = wait maxtick w.raised ws in
    if w.raised || maxtick == invalid_tick || not w.late then again else some (false, false)
