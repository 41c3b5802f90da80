-- ===== src/Failsafe/Run.antt =====
-- internal/failsafe/failsafe.go, `run` and the goroutines that share one `Manager`: each run is a
-- program counter, a step is what a goroutine does between two points where another may act, and
-- a world is stepped by any of them in any order.
use velinx.Base.{
  ℕ, String, Bool, false, Option, none, some, List, [], ◌∷◌, ◌++◌, ◌≡◌, ◌&&◌, ◌||◌, ◌==◌,
  if◌then◌else◌,
}
use velinx.Failsafe.{
  Action, act_none, act_rollback, act_reboot, act_done, Durations, Manager, Callbacks, new, arm,
  claim_rollback, claim_reboot, mark_rollback_failed, tick, confirm, rollback_now,
}

-- Where a run stands: in the grace `select`, before `ctx.Err()`, before the read of `pending`,
-- before `tick`, in the `switch`, in a callback, in the closing `select`, or returned.
pub data Place : Type 0 where
  in_grace at_top at_pending at_tick calling_rollback calling_reboot waiting returned : Place
  switching : Action → Place

-- One goroutine, with its own copies of the callbacks.
pub record Run : Type 0 where
  pub epoch : ℕ
  pub callbacks : Callbacks
  pub place : Place

-- What the environment decides for a step: the clock, the connectivity check, the error of a
-- rollback, and which ready case a `select` takes.
pub record Choice : Type 0 where
  pub now : ℕ
  pub ok : Bool
  pub err : Option String
  pub takes_done : Bool

pub data Effect : Type 0 where
  rolled_back rebooted : ℕ → Effect

pub record Outcome : Type 0 where
  pub mgr : Manager
  pub place : Place
  pub effects : List Effect

abbrev moved : Manager → Place → Outcome
moved m p = record { mgr = m; place = p; effects = [] }

unfoldable pub note_failure : Option String → Manager → Manager
note_failure none m = m
note_failure (some e) m = mark_rollback_failed e m

-- `rollback != nil && m.claimRollback(myEpoch)`
try_rollback : Manager → Run → Outcome
unfolding claim_rollback
try_rollback m r =
    let (m', won) = claim_rollback m r.epoch in
    if r.callbacks.has_rollback
    then moved m' (if won then calling_rollback else waiting)
    else moved m waiting

-- `allowReboot && reboot != nil && m.claimReboot(myEpoch)`
try_reboot : Manager → Run → Outcome
unfolding claim_reboot
try_reboot m r = moved m (
    if r.callbacks.allow_reboot && r.callbacks.has_reboot && claim_reboot m r.epoch
    then calling_reboot
    else returned)

-- One step of a run, by where it stands. `cancelled` says whether its context is done.
unfoldable pub step_at : Place → Bool → Choice → Manager → Run → Outcome
unfolding try_rollback try_reboot note_failure
step_at in_grace cancelled c m r = moved m (if cancelled && c.takes_done then returned else at_top)
step_at at_top cancelled c m r = moved m (if cancelled then returned else at_pending)
step_at at_pending cancelled c m r = moved m (if m.pending then at_tick else returned)
step_at at_tick cancelled c m r = let (m', a) = tick m c.now c.ok in moved m' (switching a)
step_at (switching act_none) cancelled c m r = moved m waiting
step_at (switching act_rollback) cancelled c m r = try_rollback m r
step_at (switching act_reboot) cancelled c m r = try_reboot m r
step_at (switching act_done) cancelled c m r = moved m returned
step_at calling_rollback cancelled c m r = record {
  mgr = note_failure c.err m;
  place = waiting;
  effects = rolled_back r.epoch ∷ [];
}
step_at calling_reboot cancelled c m r = record {
  mgr = m;
  place = returned;
  effects = rebooted r.epoch ∷ [];
}
step_at waiting cancelled c m r = moved m (if cancelled && c.takes_done then returned else at_top)
step_at returned cancelled c m r = moved m returned

unfoldable pub run_step : Bool → Choice → Manager → Run → Outcome
unfolding step_at
run_step cancelled c m r = step_at r.place cancelled c m r

-- The manager, its goroutines, the windows whose context is done, the manual rollbacks that were
-- claimed and not yet called (by the window whose callback they hold), and what was called so far.
pub record World : Type 0 where
  pub mgr : Manager
  pub runs : List Run
  pub cancelled : List ℕ
  pub manual : List ℕ
  pub log : List Effect

unfoldable pub init : Durations → World
unfolding new
init d = record { mgr = new d; runs = []; cancelled = []; manual = []; log = [] }

pub is_cancelled : List ℕ → ℕ → Bool
is_cancelled [] e = false
is_cancelled (k ∷ ks) e = k == e || is_cancelled ks e

also : Option ℕ → List ℕ → List ℕ
also none ks = ks
also (some k) ks = k ∷ ks

-- `Arm`: supersede the window and start its goroutine.
unfoldable pub arm_world : ℕ → Callbacks → World → World
unfolding also
arm_world now cb w = record w {
  mgr = arm now cb w.mgr;
  runs = record { epoch = (arm now cb w.mgr).epoch; callbacks = cb; place = in_grace } ∷ w.runs;
  cancelled = also w.mgr.cancel w.cancelled;
}

unfoldable pub confirm_world : World → World
unfolding also
confirm_world w = record w { mgr = confirm w.mgr; cancelled = also w.mgr.cancel w.cancelled }

-- The locked part of `RollbackNow`; a claim that it wins is held in `manual`.
unfoldable pub rollback_now_world : World → World
unfolding also
rollback_now_world w =
    let (m, calls) = rollback_now w.mgr in
    record w {
      mgr = m;
      cancelled = also w.mgr.cancel w.cancelled;
      manual = if calls then w.mgr.epoch ∷ w.manual else w.manual;
    }

-- `rb()` of a `RollbackNow` that won the claim of window `e`, and what it does with the error.
unfoldable pub manual_call : Option String → ℕ → List ℕ → World → World
unfolding note_failure
manual_call err e rest w = record w {
  mgr = note_failure err w.mgr;
  manual = rest;
  log = rolled_back e ∷ w.log;
}

-- One step of the run `r`, which stands between `before` and `after`.
unfoldable pub run_world : Choice → List Run → Run → List Run → World → World
unfolding run_step is_cancelled
run_world c before r after w =
    let o = run_step (is_cancelled w.cancelled r.epoch) c w.mgr r in
    record w {
      mgr = o.mgr;
      runs = before ++ (record r { place = o.place } ∷ after);
      log = o.effects ++ w.log;
    }

-- What any goroutine or request can do next.
pub data Step (w : World) : World → Type 0 where
  arms : (now : ℕ) (cb : Callbacks) → Step w (arm_world now cb w)
  confirms : Step w (confirm_world w)
  asks_rollback : Step w (rollback_now_world w)
  calls_manual :
      (err : Option String) (before : List ℕ) (e : ℕ) (after : List ℕ)
      → w.manual ≡ before ++ (e ∷ after)
      → Step w (manual_call err e (before ++ after) w)
  runs_on :
      (c : Choice) (before : List Run) (r : Run) (after : List Run)
      → w.runs ≡ before ++ (r ∷ after)
      → Step w (run_world c before r after w)

pub data Reach (d : Durations) : World → Type 0 where
  start : Reach d (init d)
  next : {v w : World} → Reach d v → Step v w → Reach d w
