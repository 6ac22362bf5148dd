-- ===== src/Batcher.antt =====
-- The batcher (template/batcher.h, template/batcher.c): it lets transactions in by batches, one
-- batch to an epoch. Each operation runs under the mutex `critsec`, so it is one step. The fields
-- are `atomic_int`s, which wrap at 32 bits.
use transactional_memory.Base.{ℕ, ◌+◌, ◌-◌, ◌%◌, ◌^◌, Bool, true, false, ◌==◌, if◌then◌else◌}
pub mod Threads
pub mod Epochs
pub mod Batches
pub mod Tests

pub record Batcher : Type 0 where
  pub counter : ℕ
  pub remaining : ℕ
  pub blocked : ℕ

abbrev pub init_batcher : Batcher
init_batcher = record { counter = 0; remaining = 0; blocked = 0 }

abbrev pub get_batcher_epoch : Batcher → ℕ
get_batcher_epoch b = b.counter

-- `enter_batcher`: whether the caller goes on at once, or waits on the condition variable.
unfoldable pub enter_batcher : Batcher → Bool × Batcher
enter_batcher b =
    if b.remaining == 0
    then (true, record b { remaining = 1 })
    else (false, record b { blocked = (b.blocked + 1) % 2 ^ 32 })

abbrev pub decrement : Batcher → Batcher
decrement b = record b { remaining = (b.remaining + (2 ^ 32 - 1)) % 2 ^ 32 }

-- `leave_batcher` up to the test: whether the epoch ends, after the decrement and the
-- `CAS(&b->remaining, 0, b->blocked)`.
unfoldable pub count_out : Batcher → Bool × Batcher
count_out b =
    let b' = decrement b in
    if b'.remaining == 0 then (true, record b' { remaining = b'.blocked }) else (false, b')

-- `leave_batcher` from `epoch_cleanup` to the broadcast.
abbrev pub next_epoch : Batcher → Batcher
next_epoch b = record b { blocked = 0; counter = (b.counter + 1) % 2 ^ 32 }
