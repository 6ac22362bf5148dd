-- ===== src/Clock.antt =====
-- Time accounting (grading/common.hpp, class `Chrono`). A `Tick` is 64 bits wide. What a clock gives
-- is an argument: seconds and nanoseconds, or `none` for a result below 0.
use transactional_memory.Base.{ℕ, ◌*◌, ◌+◌, ◌%◌, ◌^◌, Option, none, some, ◌==◌, if◌then◌else◌}
use transactional_memory.Words.{add64, sub64}

abbrev pub invalid_tick : ℕ
invalid_tick = 0xbadc0de

abbrev pub Reading : Type 0
Reading = Option (ℕ × ℕ)

unfoldable pub convert : Reading → ℕ
convert none = invalid_tick
convert (some (sec, nsec)) =
    let res = add64 nsec (sec * 1000000000 % 2 ^ 64) in
    if res == invalid_tick then invalid_tick + 1 else res

-- `local` is not set by the constructor.
pub record Chrono : Type 0 where
  pub total : ℕ
  pub local : ℕ

abbrev pub new_chrono : (tick unset : ℕ) → Chrono
new_chrono tick unset = record { total = tick; local = unset }

unfoldable pub get_resolution : Reading → ℕ
unfolding convert
get_resolution now = convert now

unfoldable pub start : Reading → Chrono → Chrono
unfolding convert
start now c = record c { local = convert now }

unfoldable pub delta : Reading → Chrono → ℕ
unfolding convert
delta now c = sub64 (convert now) c.local

unfoldable pub stop : Reading → Chrono → Chrono
unfolding delta
stop now c = record c { total = add64 c.total (delta now c) }

abbrev pub reset : Chrono → Chrono
reset c = record c { total = 0 }

abbrev pub get_tick : Chrono → ℕ
get_tick c = c.total
