-- ===== src/Word/History.antt =====
-- What happens to one word between two epochs, with a log of the accesses that were granted to
-- transactions that did not roll back.
use transactional_memory.Base.{ℕ, Bool, List, [], ◌∷◌, ◌==◌, if◌then◌else◌}
use transactional_memory.Word.{Control, untouched, can_read_word, can_write_word, rollback_control}

pub data Access : Type 0 where
  read_by : ℕ → Access
  write_by : ℕ → Access

abbrev pub tx_of : Access → ℕ
tx_of (read_by t) = t
tx_of (write_by t) = t

pub data Op : Type 0 where
  try_read : ℕ → Op
  try_write : ℕ → Op
  rollback : ℕ → Op

abbrev pub op_tx : Op → ℕ
op_tx (try_read t) = t
op_tx (try_write t) = t
op_tx (rollback t) = t

pub record Word : Type 0 where
  pub control : Control
  pub log : List Access

abbrev pub fresh : Word
fresh = record { control = untouched; log = [] }

-- The log less the accesses of one transaction.
unfoldable pub forget : ℕ → List Access → List Access
forget t [] = []
forget t (a ∷ l) = if tx_of a == t then forget t l else a ∷ forget t l

abbrev pub granted : Access → List Access → Bool × Control → Word
granted a l (done, c) = record { control = c; log = if done then a ∷ l else l }

unfoldable pub step : Op → Word → Word
unfolding forget
step (try_read t) w = granted (read_by t) w.log (can_read_word t w.control)
step (try_write t) w = granted (write_by t) w.log (can_write_word t w.control)
step (rollback t) w = record { control = rollback_control t w.control; log = forget t w.log }

unfoldable pub run : List Op → Word → Word
unfolding step
run [] w = w
run (o ∷ os) w = run os (step o w)
