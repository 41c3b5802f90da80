-- ===== src/Watchdog.antt =====
-- internal/watchdog/watchdog.go: one supervision tick. The supervisor may change between two of its
-- reads, so a tick takes what each read answers; the clock is in nanoseconds, a zero `time.Time` is
-- `none`, and `now.Sub(t) >= d` is written `t + d ≤ now`.
pub mod Backoff
pub mod Trace
mod Examples
use velinx.Base.{
  ℕ, ◌+◌, ◌*◌, ◌/◌, String, Bool, true, false, Option, none, some, List, [], ◌∷◌, ◌++◌, ◌&&◌, ◌||◌,
  not, leb, ltb, ◌==◌, if◌then◌else◌, is_some,
}

pub record Watchdog : Type 0 where
  pub min_backoff : ℕ
  pub max_backoff : ℕ
  pub stable : ℕ
  pub has_notify : Bool
  pub has_plugins : Bool
  pub restarts : ℕ
  pub last_restart : Option ℕ
  pub last_err : String
  pub backoff : ℕ
  pub next_attempt : Option ℕ

abbrev pub second : ℕ
second = 1000000000

unfoldable pub new : Watchdog
new = record {
  min_backoff = 1 * second;
  max_backoff = 60 * second;
  stable = 30 * second;
  has_notify = false;
  has_plugins = false;
  restarts = 0;
  last_restart = none;
  last_err = "";
  backoff = 0;
  next_attempt = none;
}

-- What the supervisor answers during one tick: `Desired()`, `Alive()`, and the restart, which is
-- `StartIfDesiredDead` if the supervisor has it, and `Start` otherwise.
pub data Restart : Type 0 where
  atomic : Bool → Option String → Restart
  legacy : Option String → Restart

pub record Reading : Type 0 where
  pub now : ℕ
  pub desired : Bool
  pub alive : Bool
  pub restart : Restart

-- `restart()`: the error, and whether the stop was deliberate.
unfoldable pub restart : Restart → Option String × Bool
restart (atomic started err) =
    if not started && not (is_some err) then (none, true) else (err, false)
restart (legacy err) = (err, false)

-- What a tick does to the world: the plugin callback, a call of the restart, and an alert with the
-- number of the restart and either the backoff or the error.
pub data Effect : Type 0 where
  plugins : Effect
  asks_restart : Effect
  alert : ℕ → ℕ → Effect
  alert_failed : ℕ → String → Effect

unfoldable pub clear_backoff : Watchdog → Watchdog
clear_backoff w = record w { backoff = 0; next_attempt = none }

-- Whether `t` is set and `now` lies before it.
abbrev pub before : ℕ → Option ℕ → Bool
before now none = false
before now (some t) = ltb now t

-- Whether `t` is set and `d` has passed since.
abbrev pub has_passed : ℕ → Option ℕ → ℕ → Bool
has_passed now none d = false
has_passed now (some t) d = leb (t + d) now

-- The branch for a process that is up.
on_alive : ℕ → Watchdog → Watchdog
on_alive now w =
    if ltb 0 w.backoff && has_passed now w.last_restart w.stable
    then record w { backoff = 0; next_attempt = none }
    else w

unfoldable pub grow : Watchdog → ℕ
grow w =
    if w.backoff == 0
    then w.min_backoff
    else if ltb w.backoff w.max_backoff
    then (if ltb w.max_backoff (w.backoff * 2) then w.max_backoff else w.backoff * 2)
    else w.backoff

text_of : Option String → String
text_of none = ""
text_of (some e) = e

alerts : Bool → ℕ → ℕ → Option String → List Effect
alerts false n b err = []
alerts true n b none = alert n b ∷ []
alerts true n b (some e) = alert_failed n e ∷ []

-- After the restart: `w` is the watchdog with the charged backoff, `old` the one before.
after_restart : ℕ → Watchdog → Watchdog → Option String × Bool → Watchdog × List Effect
unfolding text_of alerts
after_restart now old w (err, true) =
    (record w { backoff = old.backoff; next_attempt = old.next_attempt }, [])
after_restart now old w (err, false) = (
  record w { restarts = w.restarts + 1; last_restart = some now; last_err = text_of err },
  alerts w.has_notify (w.restarts + 1) w.backoff err,
)

on_dead : Reading → Watchdog → Watchdog × List Effect
unfolding grow after_restart restart
on_dead r w =
    let charged = record w { backoff = grow w; next_attempt = some (r.now + grow w) } in
    let (w', l) = after_restart r.now w charged (restart r.restart) in
    if before r.now w.next_attempt then (w, []) else (w', asks_restart ∷ l)

unfoldable pub tick : Reading → Watchdog → Watchdog × List Effect
unfolding clear_backoff on_alive on_dead
tick r w =
    let (w', l) = on_dead r w in
    let first = if w.has_plugins then plugins ∷ [] else [] in
    if not r.desired
    then (clear_backoff w, first)
    else if r.alive
    then (on_alive r.now w, first)
    else (w', first ++ l)

pub record Stats : Type 0 where
  pub supervised : Bool
  pub alive : Bool
  pub restarts : ℕ
  pub last_restart : Option ℕ
  pub last_error : String
  pub backoff_ms : ℕ

-- `Stats()`, given what `Desired()` and `Alive()` answer; the time is not formatted.
unfoldable pub stats : Bool → Bool → Watchdog → Stats
stats desired alive w = record {
  supervised = desired;
  alive = alive;
  restarts = w.restarts;
  last_restart = w.last_restart;
  last_error = w.last_err;
  backoff_ms = w.backoff / 1000000;
}
