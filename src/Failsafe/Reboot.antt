-- ===== src/Failsafe/Reboot.antt =====
-- internal/failsafe/failsafe.go: over every interleaving, the runs and the reboots of one window.
use velinx.Base.{
  ℕ, ◌+◌, ◌≤◌, ◌<◌, ◌≡◌, ap, Bool, List, [], ◌∷◌, ◌++◌, leb, ◌==◌, if◌then◌else◌, arith,
}
use velinx.Failsafe.{
  act_none, act_rollback, act_reboot, act_done, Durations, Manager, arm, tick, claim_rollback,
  rollback_now, confirm, mark_rollback_failed,
}
use velinx.Failsafe.Run.{
  Place, returned, switching, Run, Choice, Effect, rolled_back, rebooted, is_cancelled,
  note_failure, run_step, step_at, World, init, arm_world, confirm_world, rollback_now_world,
  manual_call, run_world, Step, arms, confirms, asks_rollback, calls_manual, runs_on, Reach, start,
  next,
}
use velinx.Failsafe.Once.{weigh, weigh-middle}

-- How often the reboot of window `e` was called.
unfoldable pub reboots : ℕ → List Effect → ℕ
reboots e [] = 0
reboots e (rolled_back k ∷ l) = reboots e l
reboots e (rebooted k ∷ l) = (if k == e then 1 else 0) + reboots e l

-- A run that can still act.
abbrev is_live : Place → ℕ
is_live returned = 0
is_live _ = 1

abbrev pub live_runs : ℕ → World → ℕ
live_runs e w = weigh is_live e w.runs

module _ (cancelled : Bool) (c : Choice) (m : Manager) (r : Run) (e : ℕ) where
  step_at_ends :
      (p : Place)
      → let o = step_at p cancelled c m r in
        (if r.epoch == e then is_live o.place else 0) + reboots e o.effects
        ≤ (if r.epoch == e then is_live p else 0)
  unfolding step_at reboots
  step_at_ends (switching act_none) = ground arith
  step_at_ends (switching act_rollback) = ground arith
  step_at_ends (switching act_reboot) = ground arith
  step_at_ends (switching act_done) = ground arith
  step_at_ends _ = ground arith

  step_at_epoch : (p : Place) → (step_at p cancelled c m r).mgr.epoch ≡ m.epoch
  unfolding step_at tick claim_rollback note_failure mark_rollback_failed
  step_at_epoch (switching act_none) = ground arith
  step_at_epoch (switching act_rollback) = ground arith
  step_at_epoch (switching act_reboot) = ground arith
  step_at_epoch (switching act_done) = ground arith
  step_at_epoch _ = ground arith

reboots-append : (e : ℕ) (xs ys : List Effect) → reboots e (xs ++ ys) ≡ reboots e xs + reboots e ys
unfolding reboots
reboots-append e [] ys = omega arith
reboots-append e (rolled_back k ∷ xs) ys = reboots-append e xs ys
reboots-append e (rebooted k ∷ xs) ys = omega (arith, reboots-append e xs ys)

abbrev opened : Manager → ℕ → ℕ
opened m e = if leb e m.epoch then 1 else 0

abbrev OneRun : World → Type 0
OneRun w = (e : ℕ) → 0 < e → reboots e w.log + live_runs e w ≤ opened w.mgr e

Step-OneRun : {v w : World} → Step v w → OneRun v → OneRun w
unfolding arm_world arm confirm_world confirm rollback_now_world rollback_now manual_call
    note_failure mark_rollback_failed run_world run_step reboots weigh
Step-OneRun (arms now cb) h e k = ground (arith, h e k)
Step-OneRun confirms h e k = h e k
Step-OneRun asks_rollback h e k = h e k
Step-OneRun (calls_manual err before t after split) h e k = ground (arith, h e k)
Step-OneRun {v} (runs_on c before r after split) h e k =
    let cancelled = is_cancelled v.cancelled r.epoch in
    let o = step_at r.place cancelled c v.mgr r in
    rw (step_at_epoch cancelled c v.mgr r e r.place) (
      omega (
        arith,
        step_at_ends cancelled c v.mgr r e r.place,
        h e k,
        ap (weigh is_live e) split,
        weigh-middle is_live e before after r,
        weigh-middle is_live e before after (record r { place = o.place }),
        reboots-append e o.effects v.log,
      ))

Reach-OneRun : {d : Durations} {w : World} → Reach d w → OneRun w
unfolding init reboots weigh
Reach-OneRun start e k = ground arith
Reach-OneRun (next r s) e k = Step-OneRun s (Reach-OneRun r) e k

-- In every reachable world, whatever the interleaving, the reboots that a window has called and its
-- runs that have not returned are at most one together.
pub reboot_at_most_once :
    {d : Durations} (e : ℕ) {w : World} → Reach d w → 0 < e → reboots e w.log + live_runs e w ≤ 1
reboot_at_most_once e {w} r k = ground (arith, Reach-OneRun r e k)
