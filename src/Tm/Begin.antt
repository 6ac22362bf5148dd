-- ===== src/Tm/Begin.antt =====
-- The identifiers that `tm_begin` (template/tm.c) gives.
use Prim.Native.Nat.{bit_or}
use transactional_memory.Base.{
  ℕ, ◌+◌, ◌-◌, ◌^◌, ◌≤◌, ◌<◌, ◌≡◌, ◌≢◌, refl, ◌∙◌, ap, Bool, true, false, lt→ltb, ge→ltb, arith,
}
use transactional_memory.Bits.{bit_or-field}
use transactional_memory.Opaque.{is_tx_readonly, read_only_tx}
use transactional_memory.Opaque.ReadOnly.{is_tx_readonly-true, is_tx_readonly-false}
use transactional_memory.Tm.{int_to_tx, next_tx}

int_to_tx_small : (c : ℕ) → c < 2 ^ 31 → int_to_tx c ≡ c
unfolding int_to_tx
int_to_tx_small c h = rw (lt→ltb c (2 ^ 31) h) refl

int_to_tx_big : (c : ℕ) → 2 ^ 31 ≤ c → int_to_tx c ≡ c + (2 ^ 64 - 2 ^ 32)
unfolding int_to_tx
int_to_tx_big c h = rw (ge→ltb c (2 ^ 31) h) refl

next_tx-rw : (c : ℕ) → c < 2 ^ 31 → next_tx c false ≡ c
unfolding next_tx
next_tx-rw c h = int_to_tx_small c h

next_tx-ro : (c : ℕ) → c < 2 ^ 31 → next_tx c true ≡ c + 2 ^ 63
unfolding next_tx
next_tx-ro c h =
    ap (λ z. bit_or z read_only_tx) (int_to_tx_small c h)
    ∙ bit_or-field 63 c 1 read_only_tx (omega arith) (omega arith)
    ∙ omega arith

-- While the counter is positive and below 2 ^ 31, the identifier of a transaction tells whether
-- it was begun as read-only, and it is not 0, the mark of a word without an owner.
pub next_tx-is_tx_readonly :
    (c : ℕ) (is_ro : Bool)
    → 0 < c
    → c < 2 ^ 31
    → (is_tx_readonly (next_tx c is_ro) ≡ is_ro) × (next_tx c is_ro ≢ 0)
next_tx-is_tx_readonly c true pos h =
    rw (next_tx-ro c h)
      (is_tx_readonly-true (c + 2 ^ 63) (omega arith) (omega arith), λ e. omega arith)
next_tx-is_tx_readonly c false pos h =
    rw (next_tx-rw c h) (is_tx_readonly-false c (omega arith), λ e. omega arith)

-- Transactions that begin at different values of the counter, both below 2 ^ 31, have different
-- identifiers.
pub next_tx-injective :
    (c d : ℕ) (a b : Bool) → c < 2 ^ 31 → d < 2 ^ 31 → next_tx c a ≡ next_tx d b → c ≡ d
next_tx-injective c d true true hc hd e = omega (arith, e, next_tx-ro c hc, next_tx-ro d hd)
next_tx-injective c d true false hc hd e = omega (arith, e, next_tx-ro c hc, next_tx-rw d hd)
next_tx-injective c d false true hc hd e = omega (arith, e, next_tx-rw c hc, next_tx-ro d hd)
next_tx-injective c d false false hc hd e = omega (arith, e, next_tx-rw c hc, next_tx-rw d hd)

-- While the counter, an `int`, is negative, which it is from 2 ^ 31 to 2 ^ 32 - 1 as bits, a transaction that was begun as
-- read-write has the mark of a read-only one.
pub next_tx_negative : (c : ℕ) → 2 ^ 31 ≤ c → c < 2 ^ 32 → is_tx_readonly (next_tx c false) ≡ true
unfolding next_tx
next_tx_negative c lo hi =
    rw (int_to_tx_big c lo)
      (is_tx_readonly-true (c + (2 ^ 64 - 2 ^ 32)) (omega arith) (omega arith))
