-- ===== src/Transactional/Tests.antt =====
-- A library that grants one read in two, and a closure that reads (grading/transactional.hpp).
use transactional_memory.Base.{ℕ, ◌+◌, ◌-◌, ◌<◌, ◌≡◌, refl, Bool, true, false, if◌then◌else◌, arith}
use transactional_memory.Transactional.{
  Library, success, returns, read, attempt, destruct, transactional,
}
use transactional_memory.Transactional.Balance.{IsCounting, read-IsFair, transactional-open}

-- The state: the number of open transactions, and whether the next read is refused.
abbrev State : Type 0
State = ℕ × Bool

abbrev refuse_once : Bool → State → Bool × ℕ × State
refuse_once true s = (false, 0, (s.0 - 1, false))
refuse_once false s = (true, 7, s)

abbrev library : Library State ℕ
library = record {
  tm_begin = λ mode s. (1, (s.0 + 1, s.1));
  tm_end = λ tx s. (true, (s.0 - 1, s.1));
  tm_read = λ tx source size s. refuse_once s.1 s;
  tm_write = λ tx v size target s. (true, s);
  tm_alloc = λ tx size s. (success, 0, s);
  tm_free = λ tx target s. (true, s);
}

abbrev open_txs : State → ℕ
open_txs s = s.0

reads_counted :
    (b : Bool) (s : State)
    → 0 < open_txs s
    → open_txs s ≡ open_txs (refuse_once b s).2 + (if (refuse_once b s).0 then 0 else 1)
reads_counted true s pos = omega arith
reads_counted false s pos = omega arith

library-IsCounting : IsCounting library open_txs
library-IsCounting = record {
  begins = λ mode s e. refl;
  begins_not = λ mode s e. cc e;
  ends = λ tx s pos. omega arith;
  reads = λ tx source size s. reads_counted s.1 s;
  writes = λ tx v size target s pos. omega arith;
  allocs = λ tx size s pos. omega arith;
  frees = λ tx target s pos. omega arith;
}

-- The first attempt is refused, the second one returns.
retried : transactional library 2 false (read library 16 8) (0, true) ≡ (returns 7, (0, false))
unfolding transactional attempt destruct read
retried = refl

transactional-open_example :
    open_txs (transactional library 2 false (read library 16 8) (0, true)).1 ≡ open_txs (0, true)
transactional-open_example =
    transactional-open library open_txs library-IsCounting (read library 16 8)
      (read-IsFair library open_txs library-IsCounting 16 8) false 2 (0, true)
