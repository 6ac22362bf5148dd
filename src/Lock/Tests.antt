-- ===== src/Lock/Tests.antt =====
-- Two threads and a spinlock (template/lock.c).
use transactional_memory.Base.{◌≤◌, ◌≡◌, refl, true, false, [], ◌∷◌}
use transactional_memory.Lock.{
  Spin, idle, trying, watching, holding, exchange, calls, exchanges, Steps, none_yet, then_step,
}
use transactional_memory.Lock.Exclusion.{unlocked, holders, flag, Steps-holders}

abbrev one_holds : Spin
one_holds = record { locked = true; places = holding ∷ watching ∷ [] }

to_one_holds : Steps (unlocked 2) one_holds
unfolding exchange
to_one_holds =
    then_step {m = record { locked = true; places = holding ∷ trying ∷ [] }}
      (then_step {m = record { locked = false; places = trying ∷ trying ∷ [] }}
        (then_step {m = record { locked = false; places = trying ∷ idle ∷ [] }}
          (then_step {m = unlocked 2} none_yet (calls [] (idle ∷ []) refl refl))
          (calls (trying ∷ []) [] refl refl))
        (exchanges false [] (trying ∷ []) refl refl))
      (exchanges false (holding ∷ []) [] refl refl)

Steps-holders_example :
    (holders (holding ∷ watching ∷ []) ≤ 1) × (holders (holding ∷ watching ∷ []) ≡ flag true)
Steps-holders_example = Steps-holders 2 one_holds to_one_holds
