-- ===== src/Failsafe/Valid.antt =====
-- internal/failsafe/failsafe.go: the well-formedness of the manager in every reachable world, what a
-- superseded window can still do, and what a manual rollback reports.
use velinx.Base.{
  ℕ, ◌+◌, ◌/◌, ◌≤◌, ◌<◌, ◌≡◌, ◌≢◌, ◌⊎◌, Bool, true, false, Option, none, some, [], ◌++◌, String,
  arith, ◌*◌,
}
use velinx.Failsafe.{
  act_none, act_rollback, act_reboot, act_done, Phase, Durations, Manager, Callbacks, new, arm,
  claim_rollback, claim_reboot, mark_rollback_failed, tick, confirm, rollback_now, millisecond,
  status,
}
use velinx.Failsafe.Run.{
  Place, at_tick, calling_rollback, calling_reboot, waiting, switching, Run, Choice, is_cancelled,
  note_failure, run_step, step_at, World, init, arm_world, confirm_world, rollback_now_world,
  manual_call, run_world, Step, arms, confirms, asks_rollback, calls_manual, runs_on, Reach, start,
  next,
}
use velinx.Failsafe.Tick.{rollback_at, reboot_at}

-- A pending window shows one of four phases; an idle manager was never armed; the outage clock runs
-- only in an outage; no window is armed without its epoch and its `cancel`.
pub record IsValid (m : Manager) : Type 0 where
  pub pending_phase :
      m.pending ≡ true
      → (m.phase ≡ Phase.armed)
        ⊎ (m.phase ≡ Phase.degraded)
        ⊎ (m.phase ≡ Phase.rolled_back)
        ⊎ (m.phase ≡ Phase.rollback_failed)
  pub bad_clock : m.bad ≡ false → m.bad_since ≡ 0
  pub armed_epoch : m.pending ≡ true → 0 < m.epoch
  pub keep_deadline : m.deadline ≡ m.armed_at + m.d.keep_window / millisecond ⊎ (m.epoch ≡ 0)

new-IsValid : (d : Durations) → IsValid (new d)
unfolding new
new-IsValid d = ground arith

arm-IsValid : (now : ℕ) (cb : Callbacks) (m : Manager) → IsValid m → IsValid (arm now cb m)
unfolding arm
arm-IsValid now cb m v = ground arith

tick-IsValid : (m : Manager) (now : ℕ) (ok : Bool) → IsValid m → IsValid (tick m now ok).0
unfolding tick
tick-IsValid m now ok v = ground arith

confirm-IsValid : (m : Manager) → IsValid m → IsValid (confirm m)
unfolding confirm
confirm-IsValid m v = ground arith

rollback_now-IsValid : (m : Manager) → IsValid m → IsValid (rollback_now m).0
unfolding rollback_now
rollback_now-IsValid m v = ground arith

mark_rollback_failed-IsValid :
    (err : String) (m : Manager) → IsValid m → IsValid (mark_rollback_failed err m)
unfolding mark_rollback_failed
mark_rollback_failed-IsValid err m v = ground arith

note_failure-IsValid :
    (err : Option String) (m : Manager) → IsValid m → IsValid (note_failure err m)
unfolding note_failure
note_failure-IsValid none m v = v
note_failure-IsValid (some e) m v = mark_rollback_failed-IsValid e m v

-- One step of a run keeps the manager well-formed, wherever the run stands.
module _ (cancelled : Bool) (c : Choice) (m : Manager) (r : Run) (v : IsValid m) where
  step_at-IsValid : (p : Place) → IsValid (step_at p cancelled c m r).mgr
  unfolding step_at claim_rollback note_failure
  step_at-IsValid at_tick = tick-IsValid m c.now c.ok v
  step_at-IsValid calling_rollback = note_failure-IsValid c.err m v
  step_at-IsValid (switching act_none) = v
  step_at-IsValid (switching act_rollback) = ground arith
  step_at-IsValid (switching act_reboot) = v
  step_at-IsValid (switching act_done) = v
  step_at-IsValid _ = v

Step-IsValid : {v w : World} → Step v w → IsValid v.mgr → IsValid w.mgr
unfolding arm_world confirm_world rollback_now_world manual_call run_world run_step
Step-IsValid {v} (arms now cb) h = arm-IsValid now cb v.mgr h
Step-IsValid {v} confirms h = confirm-IsValid v.mgr h
Step-IsValid {v} asks_rollback h = rollback_now-IsValid v.mgr h
Step-IsValid {v} (calls_manual err before k after split) h = note_failure-IsValid err v.mgr h
Step-IsValid {v} (runs_on c before r after split) h =
    step_at-IsValid (is_cancelled v.cancelled r.epoch) c v.mgr r h r.place

-- In every reachable world the manager is well-formed: a pending window is armed, degraded, rolled
-- back or failed to roll back, it has an epoch, the outage clock is 0 outside an outage, and the
-- deadline of an armed window is the keep window after it was armed.
pub Reach-IsValid : {d : Durations} {w : World} → Reach d w → IsValid w.mgr
unfolding init
Reach-IsValid {d} start = new-IsValid d
Reach-IsValid (next r s) = Step-IsValid s (Reach-IsValid r)

abbrev pub in_callback : Place → Bool
in_callback calling_rollback = true
in_callback calling_reboot = true
in_callback _ = false

module _ (cancelled : Bool) (c : Choice) (m : Manager) (r : Run) (other : r.epoch ≢ m.epoch) where
  step_at_never_calls :
      (p : Place)
      → in_callback p ≡ false
      → ((step_at p cancelled c m r).effects ≡ [])
        × (in_callback (step_at p cancelled c m r).place ≡ false)
  unfolding step_at claim_rollback claim_reboot
  step_at_never_calls calling_rollback h = cc
  step_at_never_calls calling_reboot h = cc
  step_at_never_calls (switching act_none) h = ground arith
  step_at_never_calls (switching act_rollback) h = ground arith
  step_at_never_calls (switching act_reboot) h = ground arith
  step_at_never_calls (switching act_done) h = ground arith
  step_at_never_calls _ h = ground arith

-- A run whose window was superseded never starts a callback: if it is in none before a step, the
-- step calls none and it is in none after.
pub superseded_never_calls :
    (cancelled : Bool) (c : Choice) (m : Manager) (r : Run)
    → r.epoch ≢ m.epoch
    → in_callback r.place ≡ false
    → ((run_step cancelled c m r).effects ≡ [])
      × (in_callback (run_step cancelled c m r).place ≡ false)
unfolding run_step
superseded_never_calls cancelled c m r other = step_at_never_calls cancelled c m r other r.place

-- A superseded run that is already before its `tick` can use up the rollback of the window
-- that superseded it. `tick` marks that window as rolled back, the claim then fails, and nothing was
-- called.
pub stale_tick_consumes :
    (cancelled : Bool) (c c' : Choice) (m : Manager) (r : Run)
    → r.place ≡ at_tick
    → r.epoch ≢ m.epoch
    → m.pending ≡ true
    → m.rolled_back ≡ false
    → c.ok ≡ false
    → rollback_at m c.now ≤ c.now
    → c.now < reboot_at m c.now
    → let o = run_step cancelled c m r in
      let o' = run_step cancelled c' o.mgr (record r { place = o.place }) in
      (o'.mgr.rolled_back ≡ true)
      × (o'.mgr.phase ≡ Phase.rolled_back)
      × (o'.mgr.dispatched ≡ m.dispatched)
      × (o'.place ≡ waiting)
      × (o.effects ++ o'.effects ≡ [])
unfolding run_step step_at tick claim_rollback
stale_tick_consumes cancelled c c' m r at other p n k a b = ground arith

-- After a rollback that was dispatched and failed, a manual rollback calls nothing and replaces the
-- failure in the status by `rolled_back`; only the error text stays.
pub rollback_now_hides_failure :
    (err : String) (now : ℕ) (m : Manager)
    → m.dispatched ≡ true
    → let (m1, calls) = rollback_now (mark_rollback_failed err m) in
      (calls ≡ false)
      × ((status now (mark_rollback_failed err m)).phase ≡ Phase.rollback_failed)
      × ((status now m1).phase ≡ Phase.rolled_back)
      × ((status now m1).last_error ≡ err)
unfolding rollback_now mark_rollback_failed status
rollback_now_hides_failure err now m h = ground arith

-- The countdown of a well-formed manager between the arming of its window and the deadline: the
-- seconds shown never pass the keep window nor the deadline, and less than a second more is left.
pub status_countdown :
    (now : ℕ) (m : Manager)
    → IsValid m
    → m.pending ≡ true
    → m.rolled_back ≡ false
    → m.armed_at ≤ now
    → now ≤ m.deadline
    → let left = (status now m).seconds_left in
      (left * 1000 ≤ m.d.keep_window / millisecond)
      × (now + left * 1000 ≤ m.deadline)
      × (m.deadline < now + left * 1000 + 1000)
unfolding status
status_countdown now m v p n h k = ground arith
