-- ===== src/Transactional.antt =====
-- Transactions as the grader runs them (grading/transactional.hpp): the class `Transaction` and
-- the loop `transactional`, over the functions that `TransactionalMemory` calls in a library. An
-- exception is a value.
use transactional_memory.Base.{
  ℕ, zero, suc, ◌+◌, ◌*◌, ◌-◌, ◌^◌, Bool, true, false, ◌&&◌, ◌==◌, if◌then◌else◌,
}
pub mod Balance
pub mod Tests

-- `STM::Alloc`
pub data Alloc : Type 0 where
  success : Alloc
  abort : Alloc
  nomem : Alloc

-- The library, with the state that it keeps. A read also gives the value; an address and a size are
-- numbers.
pub record Library (S V : Type 0) : Type 0 where
  pub tm_begin : Bool → S → ℕ × S
  pub tm_end : ℕ → S → Bool × S
  pub tm_read : ℕ → (source size : ℕ) → S → Bool × V × S
  pub tm_write : ℕ → V → (size target : ℕ) → S → Bool × S
  pub tm_alloc : ℕ → (size : ℕ) → S → Alloc × ℕ × S
  pub tm_free : ℕ → (target : ℕ) → S → Bool × S

pub data Exception : Type 0 where
  transaction_begin : Exception
  transaction_retry : Exception
  transaction_alloc : Exception
  transaction_read_only : Exception

-- What a call gives. `terminated` is `std::terminate`, which an exception out of a destructor calls
-- while another one is under way.
pub data Outcome (A : Type 0) : Type 0 where
  returns : A → Outcome A
  throws : Exception → Outcome A
  terminated : Outcome A
  no_fuel : Outcome A

abbrev pub invalid_tx : ℕ
invalid_tx = 2 ^ 64 - 1

pub record Transaction : Type 0 where
  pub tx : ℕ
  pub aborted : Bool
  pub is_ro : Bool

-- Code that runs in a transaction.
abbrev pub Closure : (S A : Type 0) → Type 0
Closure S A = Transaction → S → Outcome A × Transaction × S

abbrev pub set_aborted : Transaction → Transaction
set_aborted t = record t { aborted = true }

abbrev pub retry : {S A : Type 0} → Transaction → S → Outcome A × Transaction × S
retry t s = (throws transaction_retry, set_aborted t, s)

abbrev pub granted : {S A : Type 0} → Bool → A → Transaction → S → Outcome A × Transaction × S
granted true a t s = (returns a, t, s)
granted false a t s = retry t s

-- `then`: the code behind a call runs only if that returns.
abbrev pub after :
    {S A B : Type 0} → Outcome A × Transaction × S → (A → Closure S B) → Outcome B × Transaction × S
after (returns a, t, s) k = k a t s
after (throws e, t, s) k = (throws e, t, s)
after (terminated, t, s) k = (terminated, t, s)
after (no_fuel, t, s) k = (no_fuel, t, s)

-- grading/common.hpp
abbrev pub assert_mode : Bool
assert_mode = false

module _ {S V : Type 0} (lib : Library S V) where
  unfoldable pub read : (source size : ℕ) → Closure S V
  read source size t s = let r = lib.tm_read t.tx source size s in granted r.0 r.1 t r.2

  unfoldable pub write : V → (size target : ℕ) → Closure S Unit
  write source size target t s =
      let r = lib.tm_write t.tx source size target s in
      if assert_mode && t.is_ro then (throws transaction_read_only, t, s) else granted r.0 tt t r.1

  abbrev pub allocated : Alloc → ℕ → Closure S ℕ
  allocated success target t s = (returns target, t, s)
  allocated nomem target t s = (throws transaction_alloc, t, s)
  allocated abort target t s = retry t s

  unfoldable pub alloc : (size : ℕ) → Closure S ℕ
  alloc size t s =
      let r = lib.tm_alloc t.tx size s in
      if assert_mode && t.is_ro
      then (throws transaction_read_only, t, s)
      else allocated r.0 r.1 t r.2

  unfoldable pub free : (target : ℕ) → Closure S Unit
  free target t s =
      let r = lib.tm_free t.tx target s in
      if assert_mode && t.is_ro then (throws transaction_read_only, t, s) else granted r.0 tt t r.1

  -- The destructor, behind what the closure gave.
  abbrev pub ended : {A : Type 0} → Outcome A → Bool → Outcome A
  ended o true = o
  ended (throws e) false = terminated
  ended (returns a) false = throws transaction_retry
  ended terminated false = terminated
  ended no_fuel false = no_fuel

  unfoldable pub destruct : {A : Type 0} → Outcome A × Transaction × S → Outcome A × S
  destruct (o, t, s) = let r = lib.tm_end t.tx s in if t.aborted then (o, s) else (ended o r.0, r.1)

  -- One run of the body of `transactional`'s loop.
  unfoldable pub attempt : {A : Type 0} → (mode : Bool) → Closure S A → S → Outcome A × S
  unfolding destruct
  attempt mode func s =
      let r = lib.tm_begin mode s in
      let t : Transaction = record { tx = r.0; aborted = false; is_ro = mode } in
      if r.0 == invalid_tx then (throws transaction_begin, r.1) else destruct (func t r.1)

  -- `catch (Exception::TransactionRetry const&) { continue; }`
  abbrev pub or_again : {A : Type 0} → Outcome A × S → (S → Outcome A × S) → Outcome A × S
  or_again (throws transaction_retry, s) again = again s
  or_again (throws transaction_begin, s) again = (throws transaction_begin, s)
  or_again (throws transaction_alloc, s) again = (throws transaction_alloc, s)
  or_again (throws transaction_read_only, s) again = (throws transaction_read_only, s)
  or_again (returns a, s) again = (returns a, s)
  or_again (terminated, s) again = (terminated, s)
  or_again (no_fuel, s) again = (no_fuel, s)

  unfoldable pub transactional :
      {A : Type 0} → (fuel : ℕ) → (mode : Bool) → Closure S A → S → Outcome A × S
  transactional zero mode func s = (no_fuel, s)
  transactional (suc fuel) mode func s =
      or_again (attempt mode func s) λ s'. transactional fuel mode func s'

  -- `Shared<Type>`, `Shared<Type*>` and the cells of `Shared<Type[]>`: an address and a size. The
  -- assertions of the constructors are off.
  abbrev pub shared_read : (address size : ℕ) → Closure S V
  shared_read address size = read address size

  abbrev pub shared_write : (address size : ℕ) → V → Closure S Unit
  shared_write address size source = write source size address

  abbrev pub shared_after : (address size : ℕ) → ℕ
  shared_after address size = address + size

  abbrev pub shared_cell : (address size index : ℕ) → ℕ
  shared_cell address size index = address + index * size

  -- `Shared<Type*>::alloc` and `free`; `of_pointer` and `to_pointer` are the casts of a value.
  unfoldable pub shared_alloc : (of_pointer : ℕ → V) → (address size : ℕ) → Closure S ℕ
  unfolding alloc write
  shared_alloc of_pointer address size t s =
      after (alloc size t s) λ addr t s.
        after (shared_write address 8 (of_pointer addr) t s) λ _ t s. (returns addr, t, s)

  unfoldable pub shared_free :
      (of_pointer : ℕ → V) → (to_pointer : V → ℕ) → (address : ℕ) → Closure S Unit
  unfolding read free write
  shared_free of_pointer to_pointer address t s = after (shared_read address 8 t s) λ target t s.
      after (free (to_pointer target) t s) λ _ t s. shared_write address 8 (of_pointer 0) t s
