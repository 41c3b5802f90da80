-- ===== src/Watchdog/Trace.antt =====
-- internal/watchdog/watchdog.go, many ticks: the invariant over any readings, and the exponential
-- backoff of a crash loop.
use Prim.Native.Nat.{min}
use velinx.Base.{ℕ, ◌*◌, ◌^◌, ◌≡◌, true, false, List, [], ◌∷◌}
use velinx.Watchdog.{Watchdog, Reading, tick}
use velinx.Watchdog.Backoff.{IsValid, tick-IsValid, is_due, is_deliberate}

unfoldable pub ticks : Watchdog → List Reading → Watchdog
ticks w [] = w
ticks w (r ∷ rs) = ticks (tick r w).0 rs

-- From a well-formed watchdog, after any ticks: the backoff is 0 or within its bounds, and the next
-- attempt is set exactly while it is not 0, to the last restart and the backoff.
pub ticks-IsValid : (w : Watchdog) (rs : List Reading) → IsValid w → IsValid (ticks w rs)
unfolding ticks
ticks-IsValid w [] v = v
ticks-IsValid w (r ∷ rs) v = ticks-IsValid (tick r w).0 rs (tick-IsValid r w v)

-- Every reading finds the process desired and dead when a restart is due, and the stop is none that
-- was meant.
abbrev pub KeepsCrashing : Watchdog → List Reading → Type 0
KeepsCrashing w [] = Unit
KeepsCrashing w (r ∷ rs) =
    (r.desired ≡ true)
    × (r.alive ≡ false)
    × (is_due r.now w ≡ true)
    × (is_deliberate r.restart ≡ false)
    × KeepsCrashing (tick r w).0 rs

abbrev pub doubled : Watchdog → ℕ → ℕ
doubled w n = min w.max_backoff (w.min_backoff * 2 ^ n)

-- The time of the last reading.
abbrev pub last_now : Reading → List Reading → ℕ
last_now r [] = r.now
last_now r (q ∷ qs) = last_now q qs

-- A reading that finds the process desired and dead.
abbrev pub found_dead : Reading → Reading
found_dead q = record q { desired = true; alive = false }
