-- ===== src/Batcher/Tests.antt =====
-- Three threads and a batcher (template/batcher.c).
use transactional_memory.Base.{◌+◌, ◌≡◌, ◌⊎◌, refl, [], ◌∷◌, arith}
use transactional_memory.Batcher.{enter_batcher, count_out}
use transactional_memory.Batcher.Threads.{
  outside, waiting, inside, System, Step, enters, leaves, wakes_early, Steps, none_yet, then_step,
  start, IsCounted,
}
use transactional_memory.Batcher.Epochs.{Steps-IsCounted}
use transactional_memory.Batcher.Batches.{
  insiders, waiters, Runs, WakesEarly, Ends, Step-Ends, Steps-Drained,
}

-- One thread is inside, one waits, one has not come.
abbrev one_waits : System
one_waits = record {
  batcher = record { counter = 0; remaining = 1; blocked = 1 };
  threads = inside ∷ waiting ∷ outside ∷ [];
  early = 0;
}

abbrev one_inside : System
one_inside = record {
  batcher = record { counter = 0; remaining = 1; blocked = 0 };
  threads = inside ∷ outside ∷ outside ∷ [];
  early = 0;
}

to_one_waits : Steps (start 3) one_waits
unfolding enter_batcher
to_one_waits =
    then_step {m = one_inside}
      (then_step {m = start 3} none_yet (enters [] (outside ∷ outside ∷ []) refl refl))
      (enters (inside ∷ []) (outside ∷ []) refl refl)

-- The first one leaves, and the second one is in.
abbrev next_batch : System
next_batch = record {
  batcher = record { counter = 1; remaining = 1; blocked = 0 };
  threads = outside ∷ inside ∷ outside ∷ [];
  early = 0;
}

to_next_batch : Step one_waits next_batch
unfolding count_out
to_next_batch = leaves [] (waiting ∷ outside ∷ []) refl refl

Steps-IsCounted_example : IsCounted one_waits
Steps-IsCounted_example = Steps-IsCounted 3 one_waits (omega arith) to_one_waits

Step-Ends_example :
    Runs one_waits next_batch ⊎ (WakesEarly one_waits next_batch ⊎ Ends one_waits next_batch)
Step-Ends_example =
    Step-Ends 3 one_waits next_batch (omega arith) to_one_waits to_next_batch (λ e. cc)

-- The second one wakes up spuriously beside the first, which is still inside.
abbrev woken : System
woken = record {
  batcher = record { counter = 0; remaining = 1; blocked = 1 };
  threads = inside ∷ inside ∷ outside ∷ [];
  early = 1;
}

to_woken : Step one_waits woken
to_woken = wakes_early (inside ∷ []) (outside ∷ []) refl refl

Steps-Drained_example :
    (s' : System) × Steps one_waits s' × (waiters s' ≡ 0) × (insiders s' ≡ waiters one_waits + 0)
Steps-Drained_example = Steps-Drained 3 one_waits (omega arith) to_one_waits (λ e. cc)
