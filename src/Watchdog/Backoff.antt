-- ===== src/Watchdog/Backoff.antt =====
-- internal/watchdog/watchdog.go, `tick`: the backoff window, its bounds and growth, and when a
-- restart is made.
use velinx.Base.{
  ℕ, ◌+◌, ◌≤◌, ◌<◌, ◌≡◌, ◌↔◌, ◌⊎◌, Bool, true, false, Option, none, some, List, [], ◌∷◌, length,
  ◌||◌, if◌then◌else◌, is_some, ◌==◌, arith,
}
use velinx.Watchdog.{
  Watchdog, new, Reading, Restart, atomic, Effect, asks_restart, alert, alert_failed, grow, tick,
  has_passed,
}

abbrev pub after : Option ℕ → ℕ → Option ℕ
after none d = none
after (some t) d = some (t + d)

-- The time of the next attempt is the last restart and the backoff, and is set exactly while the
-- backoff is; the backoff is 0 or lies between its bounds.
pub record IsValid (w : Watchdog) : Type 0 where
  pub bounds_order : w.min_backoff ≤ w.max_backoff
  pub min_pos : 0 < w.min_backoff
  pub backoff_bounds : (w.backoff ≡ 0) ⊎ ((w.min_backoff ≤ w.backoff) × (w.backoff ≤ w.max_backoff))
  pub has_restarted : 0 < w.backoff → is_some w.last_restart ≡ true
  pub scheduled : w.next_attempt ≡ (if w.backoff == 0 then none else after w.last_restart w.backoff)

pub new-IsValid : IsValid new
unfolding new
new-IsValid = ground arith

grow_bounds : (w : Watchdog) → IsValid w → (w.min_backoff ≤ grow w) × (grow w ≤ w.max_backoff)
unfolding grow
grow_bounds w v = ground arith

-- A tick keeps this, on every branch.
pub tick-IsValid : (r : Reading) (w : Watchdog) → IsValid w → IsValid (tick r w).0
unfolding tick
tick-IsValid r w v = ground (arith, grow_bounds w v)

-- Whether a restart may be made at `now`.
abbrev pub is_due : ℕ → Watchdog → Bool
is_due now w = w.backoff == 0 || has_passed now w.last_restart w.backoff

-- A deliberate stop, as `restart` reports it.
abbrev pub is_deliberate : Restart → Bool
is_deliberate (atomic false none) = true
is_deliberate _ = false

unfoldable pub asks : List Effect → Bool
asks [] = false
asks (asks_restart ∷ l) = true
asks (_ ∷ l) = asks l

unfoldable pub alerts_of : List Effect → List Effect
alerts_of [] = []
alerts_of (alert n b ∷ l) = alert n b ∷ alerts_of l
alerts_of (alert_failed n e ∷ l) = alert_failed n e ∷ alerts_of l
alerts_of (_ ∷ l) = alerts_of l

-- A tick asks the supervisor for a restart exactly when the process is desired, is not alive, and
-- the backoff since the last restart has passed.
pub tick_due_iff :
    (r : Reading) (w : Watchdog)
    → IsValid w
    → (asks (tick r w).1 ≡ true)
      ↔ ((r.desired ≡ true) × (r.alive ≡ false) × (is_due r.now w ≡ true))
unfolding tick asks
tick_due_iff r w v = (λ h. ground arith, λ h. ground arith)

-- A deliberate stop that raced the tick, seen by the restart of a supervisor that combines the check
-- with the spawn, leaves the watchdog as it was and sends no alert.
pub tick_of_deliberate_stop :
    (r : Reading) (w : Watchdog)
    → r.desired ≡ true
    → r.alive ≡ false
    → is_deliberate r.restart ≡ true
    → ((tick r w).0 ≡ w) × (alerts_of (tick r w).1 ≡ [])
unfolding tick alerts_of
tick_of_deliberate_stop r w d a stop = ground arith

-- A tick that is due and finds a crash counts the restart, remembers its time, grows the backoff,
-- schedules the next attempt by it, and sends one alert if a hook is set, whether the restart
-- failed or not.
pub tick_of_crash :
    (r : Reading) (w : Watchdog)
    → IsValid w
    → r.desired ≡ true
    → r.alive ≡ false
    → is_due r.now w ≡ true
    → is_deliberate r.restart ≡ false
    → let (w', l) = tick r w in
      (w'.restarts ≡ w.restarts + 1)
      × (w'.last_restart ≡ some r.now)
      × (w'.backoff ≡ grow w)
      × (w'.next_attempt ≡ some (r.now + grow w))
      × (length (alerts_of l) ≡ (if w.has_notify then 1 else 0))
unfolding tick alerts_of
tick_of_crash r w v d a due crash = ground arith
