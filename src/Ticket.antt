-- ===== src/Ticket.antt =====
-- The ticket lock of the reference implementation (reference/tm.c, under USE_TICKET_LOCK). One step is
-- one atomic operation on `take` or `pass`; both wrap at 2 ^ 64.
use transactional_memory.Base.{
  ℕ, zero, suc, Bool, true, false, List, [], ◌∷◌, ◌++◌, ◌≡◌, ◌==◌, if◌then◌else◌, replicate,
}
use transactional_memory.Words.{add64}
pub mod Order
pub mod Exclusion
pub mod Tests

-- Where a thread is: outside, in the loop of `lock_acquire` with its ticket, or past it; `release` adds
-- to `pass` whatever the ticket was.
pub data Place : Type 0 where
  outside : Place
  queued : (ticket : ℕ) → Place
  holding : (ticket : ℕ) → Place

pub record Ticket : Type 0 where
  pub pass : ℕ
  pub take : ℕ

-- `lock_init`
abbrev pub lock_init : Ticket
lock_init = record { pass = 0; take = 0 }

-- The first operation of `lock_acquire`: the ticket, and the lock.
unfoldable pub take_ticket : Ticket → ℕ × Ticket
take_ticket l = (l.take, record l { take = add64 l.take 1 })

-- The load of its loop.
unfoldable pub after_load : (pass ticket : ℕ) → Place
after_load pass ticket = if pass == ticket then holding ticket else queued ticket

unfoldable pub lock_release : Ticket → Ticket
lock_release l = record l { pass = add64 l.pass 1 }

pub record System : Type 0 where
  pub lock : Ticket
  pub places : List Place

pub data Step (s s' : System) : Type 0 where
  takes :
      (xs ys : List Place)
      → s.places ≡ xs ++ outside ∷ ys
      → s' ≡ record {
        lock = (take_ticket s.lock).1;
        places = xs ++ queued (take_ticket s.lock).0 ∷ ys;
      }
      → Step s s'
  loads :
      (xs ys : List Place) (t : ℕ)
      → s.places ≡ xs ++ queued t ∷ ys
      → s' ≡ record { lock = s.lock; places = xs ++ after_load s.lock.pass t ∷ ys }
      → Step s s'
  releases :
      (xs ys : List Place) (t : ℕ)
      → s.places ≡ xs ++ holding t ∷ ys
      → s' ≡ record { lock = lock_release s.lock; places = xs ++ outside ∷ ys }
      → Step s s'

pub data Steps (s : System) : System → Type 0 where
  none_yet : Steps s s
  then_step : {m e : System} → Steps s m → Step m e → Steps s e

abbrev pub start : (threads : ℕ) → System
start threads = record { lock = lock_init; places = replicate threads outside }
