-- ===== src/Ticket/Order.antt =====
-- Who has which ticket (reference/tm.c).
use transactional_memory.Base.{
  ℕ, ◌+◌, ◌^◌, ◌≤◌, ◌<◌, ◌≡◌, Bool, true, false, List, [], ◌∷◌, All, sum_by, length, ltb, ◌==◌,
  arith,
}
use transactional_memory.Words.{add64, sub64}
use transactional_memory.Ticket.{Place, outside, queued, holding, System}

abbrev pub one_if : Bool → ℕ
one_if true = 1
one_if false = 0

abbrev pub has_ticket : ℕ → Place → ℕ
has_ticket t outside = 0
has_ticket t (queued u) = one_if (u == t)
has_ticket t (holding u) = one_if (u == t)

abbrev pub is_inside : Place → ℕ
is_inside outside = 0
is_inside (queued u) = 1
is_inside (holding u) = 1

abbrev pub is_holder : Place → ℕ
is_holder (holding u) = 1
is_holder p = 0

-- A holder has the ticket that passes.
abbrev pub HoldsPass : (pass : ℕ) → Place → Type 0
HoldsPass pass (holding u) = u ≡ pass
HoldsPass pass p = Unit

-- The threads inside have the tickets from `pass` on, each one of them; so the next ticket is theirs
-- that takes it next.
pub record InOrder (s : System) : Type 0 where
  pub pass_word : s.lock.pass < 2 ^ 64
  pub take : s.lock.take ≡ add64 s.lock.pass (sum_by is_inside s.places)
  pub tickets :
      (t : ℕ)
      → t < 2 ^ 64
      → sum_by (has_ticket t) s.places
        ≡ one_if (ltb (sub64 t s.lock.pass) (sum_by is_inside s.places))
  pub held : All (HoldsPass s.lock.pass) s.places

pub inside-length : (ps : List Place) → sum_by is_inside ps ≤ length ps
inside-length [] = omega arith
inside-length (outside ∷ ps) = omega (arith, inside-length ps)
inside-length (queued u ∷ ps) = omega (arith, inside-length ps)
inside-length (holding u ∷ ps) = omega (arith, inside-length ps)

pub holders-pass :
    (pass : ℕ) (ps : List Place)
    → All (HoldsPass pass) ps
    → sum_by is_holder ps ≤ sum_by (has_ticket pass) ps
holders-pass pass [] h = omega arith
holders-pass pass (outside ∷ ps) h = omega (arith, holders-pass pass ps h.1)
holders-pass pass (queued u ∷ ps) h = omega (arith, holders-pass pass ps h.1)
holders-pass pass (holding u ∷ ps) h = ground (arith, holders-pass pass ps h.1, h.0)

-- The ticket that is taken is the first that nobody has.
pub taken-offset :
    (pass k t : ℕ)
    → pass < 2 ^ 64
    → k < 2 ^ 64
    → t < 2 ^ 64
    → one_if (add64 pass k == t) + one_if (ltb (sub64 t pass) k)
      ≡ one_if (ltb (sub64 t pass) (k + 1))
taken-offset pass k t p kw tw = ground arith

-- The ticket that has passed is the first that somebody has.
pub passed-offset :
    (pass k t : ℕ)
    → pass < 2 ^ 64
    → k + 1 < 2 ^ 64
    → t < 2 ^ 64
    → one_if (pass == t) + one_if (ltb (sub64 t (add64 pass 1)) k)
      ≡ one_if (ltb (sub64 t pass) (k + 1))
passed-offset pass k t p kw tw = ground arith
