-- ===== src/Failsafe.antt =====
-- internal/failsafe/failsafe.go: the window that a non-committed Apply opens. A method that holds
-- `m.mu` throughout is one function on the `Manager`. Times are unix milliseconds (int64, never
-- negative and far below 2^63), so `now - since >= d` is written `since + d ≤ now`, which needs no
-- negative number. Durations are nanoseconds, as `time.Duration` is.
pub mod Run
pub mod Tick
pub mod Once
pub mod Outage
pub mod Valid
pub mod Reboot
mod Examples
use velinx.Base.{
  ℕ, ◌+◌, ◌-◌, ◌*◌, ◌/◌, String, Bool, true, false, Option, none, some, ◌&&◌, ◌||◌, not, leb, ◌==◌,
  if◌then◌else◌,
}

pub data Action : Type 0 where
  act_none act_rollback act_reboot act_done : Action

pub data Phase : Type 0 where
  idle armed degraded rolled_back rollback_failed committed live_unsaved reboot : Phase

pub record Durations : Type 0 where
  pub grace : ℕ
  pub interval : ℕ
  pub rollback_after : ℕ
  pub reboot_after : ℕ
  pub keep_window : ℕ

abbrev pub second : ℕ
second = 1000000000

abbrev pub millisecond : ℕ
millisecond = 1000000

abbrev pub default_durations : Durations
default_durations = record {
  grace = 20 * second;
  interval = 15 * second;
  rollback_after = 45 * second;
  reboot_after = 300 * second;
  keep_window = 180 * second;
}

-- The callbacks are kept as what the code asks of them: whether they are nil. `cancel` is the
-- window whose context `m.cancel` cancels, if it is set.
pub record Manager : Type 0 where
  pub d : Durations
  pub pending : Bool
  pub phase : Phase
  pub armed_at : ℕ
  pub deadline : ℕ
  pub bad : Bool
  pub bad_since : ℕ
  pub rolled_back : Bool
  pub dispatched : Bool
  pub epoch : ℕ
  pub last_ok : Bool
  pub last_at : ℕ
  pub last_err : String
  pub has_rollback : Bool
  pub has_reboot : Bool
  pub allow_reboot : Bool
  pub cancel : Option ℕ

unfoldable pub new : Durations → Manager
new d = record {
  d = d;
  pending = false;
  phase = Phase.idle;
  armed_at = 0;
  deadline = 0;
  bad = false;
  bad_since = 0;
  rolled_back = false;
  dispatched = false;
  epoch = 0;
  last_ok = false;
  last_at = 0;
  last_err = "";
  has_rollback = false;
  has_reboot = false;
  allow_reboot = false;
  cancel = none;
}

-- What the caller of `Arm` hands over.
pub record Callbacks : Type 0 where
  pub has_rollback : Bool
  pub has_reboot : Bool
  pub allow_reboot : Bool

-- The part of `Arm` under the lock. The window that it cancels is the previous `cancel`.
unfoldable pub arm : ℕ → Callbacks → Manager → Manager
arm now cb m =
    let e = m.epoch + 1 in
    record m {
      cancel = some e;
      epoch = e;
      pending = true;
      phase = Phase.armed;
      rolled_back = false;
      dispatched = false;
      bad = false;
      bad_since = 0;
      last_err = "";
      armed_at = now;
      deadline = now + m.d.keep_window / millisecond;
      has_rollback = cb.has_rollback;
      has_reboot = cb.has_reboot;
      allow_reboot = cb.allow_reboot;
    }

unfoldable pub is_current : Manager → ℕ → Bool
is_current m e = m.epoch == e

unfoldable pub claim_rollback : Manager → ℕ → Manager × Bool
claim_rollback m e =
    if not (m.epoch == e) || m.dispatched
    then (m, false)
    else (record m { dispatched = true }, true)

unfoldable pub claim_reboot : Manager → ℕ → Bool
claim_reboot m e = m.epoch == e

unfoldable pub mark_rollback_failed : String → Manager → Manager
mark_rollback_failed err m = record m { phase = Phase.rollback_failed; last_err = err }

-- `tick` after the checks that open it, on a connected and on a disconnected reading.
tick_ok : Manager → ℕ → Manager × Action
tick_ok m now =
    let m1 = record m { bad = false; bad_since = 0 } in
    if m.rolled_back
    then (record m1 { pending = false }, act_done)
    else if leb m.deadline now
    then (record m1 { pending = false; phase = Phase.live_unsaved }, act_done)
    else (record m1 { phase = Phase.armed }, act_none)

mark_bad : Manager → ℕ → Manager
mark_bad m now = if m.bad then m else record m { bad = true; bad_since = now }

tick_bad : Manager → ℕ → Manager × Action
tick_bad m now =
    if leb (m.bad_since + m.d.reboot_after / millisecond) now
    then (record m { pending = false; phase = Phase.reboot }, act_reboot)
    else if not m.rolled_back && leb (m.bad_since + m.d.rollback_after / millisecond) now
    then (record m { rolled_back = true; phase = Phase.rolled_back }, act_rollback)
    else if m.rolled_back
    then (m, act_none)
    else (record m { phase = Phase.degraded }, act_none)

unfoldable pub tick : Manager → ℕ → Bool → Manager × Action
unfolding tick_ok mark_bad tick_bad
tick m now ok =
    let m1 = record m { last_ok = ok; last_at = now } in
    if not m.pending
    then (m, act_none)
    else if ok
    then tick_ok m1 now
    else tick_bad (mark_bad m1 now) now

unfoldable pub confirm : Manager → Manager
confirm m = record m { pending = false; phase = Phase.committed }

-- The part of `RollbackNow` under the lock, with whether the callback is then called.
unfoldable pub rollback_now : Manager → Manager × Bool
rollback_now m = (
  record m { dispatched = true; pending = false; phase = Phase.rolled_back; rolled_back = true },
  not m.dispatched && m.has_rollback,
)

pub record Status : Type 0 where
  pub pending : Bool
  pub phase : Phase
  pub seconds_left : ℕ
  pub last_check_ok : Bool
  pub last_check_at : ℕ
  pub last_error : String

-- A difference that is not positive leaves `SecondsLeft` at 0, which is what `-` on ℕ gives.
unfoldable pub status : ℕ → Manager → Status
status now m = record {
  pending = m.pending;
  phase = m.phase;
  seconds_left = if m.pending && not m.rolled_back then (m.deadline - now) / 1000 else 0;
  last_check_ok = m.last_ok;
  last_check_at = m.last_at;
  last_error = m.last_err;
}
