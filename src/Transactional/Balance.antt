-- ===== src/Transactional/Balance.antt =====
-- Every transaction that the grader begins is ended or aborted once (grading/transactional.hpp).
use transactional_memory.Base.{
  ℕ, zero, suc, ◌+◌, ◌<◌, ◌≡◌, ◌≢◌, refl, sym, ◌∙◌, ap, inl, inr, Bool, true, false, ◌==◌,
  if◌then◌else◌, Bool-cases, ==_iff, arith,
}
use transactional_memory.Transactional.{
  Alloc, success, abort, nomem, Library, Outcome, returns, throws, terminated, no_fuel, invalid_tx,
  Transaction, Closure, transaction_begin, transaction_retry, transaction_alloc,
  transaction_read_only, granted, read, write, allocated, alloc, free, destruct, attempt, or_again,
  transactional,
}

abbrev pub lost : Bool → ℕ
lost true = 1
lost false = 0

abbrev pub lost_alloc : Alloc → ℕ
lost_alloc success = 0
lost_alloc nomem = 0
lost_alloc abort = 1

abbrev pub returned : {A : Type 0} → Outcome A → Bool
returned (returns a) = true
returned (throws e) = false
returned terminated = false
returned no_fuel = false

-- A library that counts its open transactions, as the interface documents: `tm_begin` opens one
-- unless it fails, a refused call closes its transaction, and so does `tm_end`.
pub record IsCounting {S V : Type 0} (lib : Library S V) (open_txs : S → ℕ) : Type 0 where
  pub begins :
      (mode : Bool) (s : S)
      → (lib.tm_begin mode s).0 ≢ invalid_tx
      → open_txs (lib.tm_begin mode s).1 ≡ open_txs s + 1
  pub begins_not :
      (mode : Bool) (s : S)
      → (lib.tm_begin mode s).0 ≡ invalid_tx
      → open_txs (lib.tm_begin mode s).1 ≡ open_txs s
  pub ends : (tx : ℕ) (s : S) → 0 < open_txs s → open_txs s ≡ open_txs (lib.tm_end tx s).1 + 1
  pub reads :
      (tx source size : ℕ) (s : S)
      → 0 < open_txs s
      → open_txs s
        ≡ open_txs (lib.tm_read tx source size s).2
          + (if (lib.tm_read tx source size s).0 then 0 else 1)
  pub writes :
      (tx : ℕ) (v : V) (size target : ℕ) (s : S)
      → 0 < open_txs s
      → open_txs s
        ≡ open_txs (lib.tm_write tx v size target s).1
          + (if (lib.tm_write tx v size target s).0 then 0 else 1)
  pub allocs :
      (tx size : ℕ) (s : S)
      → 0 < open_txs s
      → open_txs s ≡ open_txs (lib.tm_alloc tx size s).2 + lost_alloc (lib.tm_alloc tx size s).0
  pub frees :
      (tx target : ℕ) (s : S)
      → 0 < open_txs s
      → open_txs s
        ≡ open_txs (lib.tm_free tx target s).1 + (if (lib.tm_free tx target s).0 then 0 else 1)

-- What a run of a closure, begun with an open transaction, has done to the count.
pub record Keeps {S A : Type 0} (open_txs : S → ℕ) (s : S) (r : Outcome A × Transaction × S)
    : Type 0 where
  pub live : returned r.0 ≡ true → r.1.aborted ≡ false
  pub counted : open_txs s ≡ open_txs r.2 + lost r.1.aborted

-- A closure that aborts its transaction only where the library has closed it.
abbrev pub IsFair : {S A : Type 0} → (S → ℕ) → Closure S A → Type 0
IsFair {S} open_txs func =
    (t : Transaction) (s : S) → t.aborted ≡ false → 0 < open_txs s → Keeps open_txs s (func t s)

module _ {S V : Type 0} (lib : Library S V) (open_txs : S → ℕ)
    (counting : IsCounting lib open_txs) where
  granted-Keeps :
      {A : Type 0} (b : Bool) (a : A) (t : Transaction) (s s' : S)
      → t.aborted ≡ false
      → open_txs s ≡ open_txs s' + (if b then 0 else 1)
      → Keeps open_txs s (granted b a t s')
  granted-Keeps true a t s s' live e = record {
    live = λ _. live;
    counted = e ∙ ap (λ b. open_txs s' + lost b) (sym live);
  }
  granted-Keeps false a t s s' live e = record { live = λ z. cc; counted = e }

  allocated-Keeps :
      (o : Alloc) (p : ℕ) (t : Transaction) (s s' : S)
      → t.aborted ≡ false
      → open_txs s ≡ open_txs s' + lost_alloc o
      → Keeps open_txs s (allocated lib o p t s')
  allocated-Keeps success p t s s' live e = record {
    live = λ _. live;
    counted = e ∙ ap (λ b. open_txs s' + lost b) (sym live);
  }
  allocated-Keeps nomem p t s s' live e = record {
    live = λ z. cc;
    counted = e ∙ ap (λ b. open_txs s' + lost b) (sym live);
  }
  allocated-Keeps abort p t s s' live e = record { live = λ z. cc; counted = e }

  pub read-IsFair : (source size : ℕ) → IsFair open_txs (read lib source size)
  unfolding read
  read-IsFair source size t s live pos =
      granted-Keeps _ _ t s _ live (counting.reads t.tx source size s pos)

  pub write-IsFair : (v : V) (size target : ℕ) → IsFair open_txs (write lib v size target)
  unfolding write
  write-IsFair v size target t s live pos =
      granted-Keeps _ _ t s _ live (counting.writes t.tx v size target s pos)

  pub alloc-IsFair : (size : ℕ) → IsFair open_txs (alloc lib size)
  unfolding alloc
  alloc-IsFair size t s live pos = allocated-Keeps _ _ t s _ live (counting.allocs t.tx size s pos)

  pub free-IsFair : (target : ℕ) → IsFair open_txs (free lib target)
  unfolding free
  free-IsFair target t s live pos = granted-Keeps _ _ t s _ live (counting.frees t.tx target s pos)

  destruct-open :
      {A : Type 0} (o : Outcome A) (t : Transaction) (s s' : S)
      → 0 < open_txs s
      → open_txs s ≡ open_txs s' + lost t.aborted
      → open_txs s ≡ open_txs (destruct lib (o, t, s')).1 + 1
  unfolding destruct
  destruct-open o t s s' pos e = elim (Bool-cases t.aborted) [
    | inl dead ↦ rw dead (e ∙ ap (λ b. open_txs s' + lost b) dead)
    | inr live ↦
        let same = e ∙ ap (λ b. open_txs s' + lost b) live in
        rw live (omega (arith, same, counting.ends t.tx s' (omega (arith, same))))
  ]

  module _ {A : Type 0} (func : Closure S A) (fair : IsFair open_txs func) (mode : Bool) where
    attempt-open : (s : S) → open_txs (attempt lib mode func s).1 ≡ open_txs s
    unfolding attempt
    attempt-open s = elim (Bool-cases ((lib.tm_begin mode s).0 == invalid_tx)) [
      | inl failed ↦ rw failed (counting.begins_not mode s ((==_iff _ invalid_tx).0 failed))
      | inr begun ↦
          let more = counting.begins mode s (λ z. cc ((==_iff _ invalid_tx).1 z, begun)) in
          let t : Transaction = record {
            tx = (lib.tm_begin mode s).0;
            aborted = false;
            is_ro = mode;
          } in
          let pos : 0 < open_txs (lib.tm_begin mode s).1 = omega (arith, more) in
          let r = func t (lib.tm_begin mode s).1 in
          let done =
            destruct-open r.0 r.1 (lib.tm_begin mode s).1 r.2 pos
              (fair t (lib.tm_begin mode s).1 refl pos).counted in
          rw begun (omega (arith, more, done))
    ]

    or_again-open :
        (f : S → Outcome A × S) (r : Outcome A × S)
        → ((s : S) → open_txs (f s).1 ≡ open_txs s)
        → open_txs (or_again lib r f).1 ≡ open_txs r.1
    or_again-open f (throws transaction_retry, s) h = h s
    or_again-open f (throws transaction_begin, s) h = refl
    or_again-open f (throws transaction_alloc, s) h = refl
    or_again-open f (throws transaction_read_only, s) h = refl
    or_again-open f (returns a, s) h = refl
    or_again-open f (terminated, s) h = refl
    or_again-open f (no_fuel, s) h = refl

    -- However often a transaction is retried, and whatever it returns or throws: with a library
    -- that counts its open transactions, and a closure that aborts only what the library has
    -- closed, as many are open behind the loop as before it.
    pub transactional-open :
        (fuel : ℕ) (s : S) → open_txs (transactional lib fuel mode func s).1 ≡ open_txs s
    unfolding transactional
    transactional-open zero s = refl
    transactional-open (suc fuel) s =
        or_again-open (λ s'. transactional lib fuel mode func s') (attempt lib mode func s)
          (transactional-open fuel)
        ∙ attempt-open s
