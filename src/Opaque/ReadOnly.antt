-- ===== src/Opaque/ReadOnly.antt =====
-- The read-only mark of a transaction identifier is its highest bit.
use Prim.Native.Nat.{bit_and}
use transactional_memory.Base.{
  ℕ, ◌*◌, ◌/◌, ◌%◌, ◌^◌, ◌≤◌, ◌<◌, ◌≡◌, true, false, lt→ltb, ge→ltb, arith,
}
use transactional_memory.Bits.{bit_and-high}
use transactional_memory.Opaque.{is_tx_readonly, read_only_tx}

top_bit : (tx : ℕ) → tx < 2 ^ 64 → bit_and tx read_only_tx ≡ tx / 2 ^ 63 * 2 ^ 63
top_bit tx h =
    bit_and-high 63 64 tx read_only_tx (tx / 2 ^ 63) (tx % 2 ^ 63) (omega arith) (omega arith) h
      (omega arith) (omega arith)

pub is_tx_readonly-true : (tx : ℕ) → tx < 2 ^ 64 → 2 ^ 63 ≤ tx → is_tx_readonly tx ≡ true
unfolding is_tx_readonly
is_tx_readonly-true tx h k = lt→ltb 0 _ (omega (arith, top_bit tx h))

pub is_tx_readonly-false : (tx : ℕ) → tx < 2 ^ 63 → is_tx_readonly tx ≡ false
unfolding is_tx_readonly
is_tx_readonly-false tx h = ge→ltb 0 _ (omega (arith, top_bit tx (omega arith)))
