-- ===== src/Ticket/Tests.antt =====
-- Two threads and the ticket lock (reference/tm.c).
use transactional_memory.Base.{ℕ, ◌≤◌, ◌<◌, ◌≡◌, refl, [], ◌∷◌, sum_by, arith}
use transactional_memory.Words.{add64}
use transactional_memory.Ticket.{
  outside, queued, holding, System, take_ticket, after_load, takes, loads, Steps, none_yet,
  then_step, start,
}
use transactional_memory.Ticket.Order.{has_ticket, is_holder}
use transactional_memory.Ticket.Exclusion.{Steps-exclude}

abbrev one_queued : System
one_queued = record { lock = record { pass = 0; take = 1 }; places = outside ∷ queued 0 ∷ [] }

abbrev both_queued : System
both_queued = record { lock = record { pass = 0; take = 2 }; places = queued 1 ∷ queued 0 ∷ [] }

abbrev one_holds : System
one_holds = record { lock = record { pass = 0; take = 2 }; places = queued 1 ∷ holding 0 ∷ [] }

to_one_holds : Steps (start 2) one_holds
unfolding take_ticket after_load
to_one_holds =
    then_step {m = both_queued}
      (then_step {m = one_queued}
        (then_step {m = start 2} none_yet (takes (outside ∷ []) [] refl refl))
        (takes [] (queued 0 ∷ []) refl refl))
      (loads (queued 1 ∷ []) [] 0 refl refl)

Steps-exclude_example :
    (sum_by is_holder one_holds.places ≤ 1)
    × ((d : ℕ) → d < 2 → sum_by (has_ticket (add64 0 d)) one_holds.places ≡ 1)
Steps-exclude_example = Steps-exclude 2 (omega arith) one_holds to_one_holds
