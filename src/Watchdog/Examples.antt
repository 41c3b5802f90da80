-- ===== src/Watchdog/Examples.antt =====
-- internal/watchdog/watchdog.go: a crash loop, a deliberate stop, and the theorems at them.
use velinx.Base.{ℕ, ◌*◌, ◌≡◌, refl, true, false, none, List, [], ◌∷◌}
use velinx.Watchdog.{Watchdog, new, Reading, atomic, second, restart, tick}
use velinx.Watchdog.Backoff.{IsValid, new-IsValid, tick-IsValid}
use velinx.Watchdog.Trace.{ticks}

-- The process is found dead at second `n`, and is restarted.
abbrev dead : ℕ → Reading
dead n = record { now = n * second; desired = true; alive = false; restart = atomic true none }

abbrev stopped : Reading
stopped = record { now = 9 * second; desired = true; alive = false; restart = atomic false none }

abbrev once : Watchdog
once = (tick (dead 3) new).0

once-IsValid : IsValid once
once-IsValid = tick-IsValid (dead 3) new new-IsValid

abbrev loop : List Reading
loop = dead 6 ∷ dead 9 ∷ dead 15 ∷ []

doubled_three_times : (ticks new (dead 3 ∷ loop)).backoff ≡ 8 * second
unfolding ticks tick new restart
doubled_three_times = refl
