-- ===== src/Failsafe/Examples.antt =====
-- internal/failsafe/failsafe.go: runs of the fail-safe, and its theorems at concrete inputs.
use velinx.Base.{
  ℕ, ◌+◌, ◌*◌, ◌≤◌, ◌<◌, ◌≡◌, refl, ◌↔◌, Bool, true, false, none, List, [], ◌∷◌, ◌++◌, map, arith,
}
use velinx.Failsafe.{
  act_none, act_rollback, Phase, Durations, Manager, Callbacks, new, arm, tick, status,
  rollback_now, mark_rollback_failed, default_durations, second,
}
use velinx.Failsafe.Run.{
  at_tick, waiting, in_grace, Run, Choice, rolled_back, World, init, arm_world, rollback_now_world,
  run_step, run_world, arms, asks_rollback, runs_on, Reach, start, next,
}
use velinx.Failsafe.Once.{rollbacks, rollback_at_most_once}
use velinx.Failsafe.Reboot.{reboots, live_runs, reboot_at_most_once}
use velinx.Failsafe.Valid.{IsValid, Reach-IsValid, stale_tick_consumes, rollback_now_hides_failure}
use velinx.Failsafe.Tick.{observe, rollback_at, reboot_at, tick_rollback_iff}
use velinx.Failsafe.Outage.{quiet, outage_rolls_back}

abbrev quick : Durations
quick = record {
  grace = 0;
  interval = second;
  rollback_after = 0;
  reboot_after = 60 * second;
  keep_window = 120 * second;
}

abbrev callbacks : Callbacks
callbacks = record { has_rollback = true; has_reboot = true; allow_reboot = false }

abbrev lost : Choice
lost = record { now = 1000; ok = false; err = none; takes_done = false }

abbrev armed : World
armed = arm_world 0 callbacks (init quick)

abbrev head_run : List Run → Run
head_run [] = record { epoch = 0; callbacks = callbacks; place = in_grace }
head_run (r ∷ _) = r

-- The only run makes a step.
abbrev onward : World → World
onward w = run_world lost [] (head_run w.runs) [] w

abbrev ticked : World
ticked = onward (onward (onward (onward armed)))

abbrev reverted : World
reverted = rollback_now_world (onward (onward ticked))

log-reverted : reverted.log ≡ rolled_back 1 ∷ []
unfolding run_world arm_world init rollback_now_world arm tick
log-reverted = refl

reverted-Reach : Reach quick reverted
unfolding run_world arm_world init rollback_now_world
reverted-Reach =
    next
      (next
        (next
          (next
            (next
              (next
                (next (next start (arms 0 callbacks))
                  (runs_on lost [] (head_run armed.runs) [] refl))
                (runs_on lost [] (head_run (onward armed).runs) [] refl))
              (runs_on lost [] (head_run (onward (onward armed)).runs) [] refl))
            (runs_on lost [] (head_run (onward (onward (onward armed))).runs) [] refl))
          (runs_on lost [] (head_run ticked.runs) [] refl))
        (runs_on lost [] (head_run (onward ticked).runs) [] refl))
      asks_rollback

rollback_at_most_once_example : rollbacks 1 reverted.log ≤ 1
rollback_at_most_once_example = rollback_at_most_once 1 reverted-Reach

reboot_at_most_once_example : reboots 1 reverted.log + live_runs 1 reverted ≤ 1
reboot_at_most_once_example = reboot_at_most_once 1 reverted-Reach (omega arith)

Reach-IsValid_example : IsValid reverted.mgr
Reach-IsValid_example = Reach-IsValid reverted-Reach

-- A window of the default durations whose outage began at 1000 ms.
abbrev outage : Manager
outage = (observe (arm 0 callbacks (new default_durations)) ((1000, false) ∷ [])).0

abbrev late : Choice
late = record { now = 50000; ok = false; err = none; takes_done = false }

-- A run of window 0 that outlived it.
abbrev stale : Run
stale = record { epoch = 0; callbacks = callbacks; place = at_tick }

stale_tick_consumes_example :
    let o = run_step true late outage stale in
    let o' = run_step true late o.mgr (record stale { place = o.place }) in
    (o'.mgr.rolled_back ≡ true)
    × (o'.mgr.phase ≡ Phase.rolled_back)
    × (o'.mgr.dispatched ≡ outage.dispatched)
    × (o'.place ≡ waiting)
    × (o.effects ++ o'.effects ≡ [])
unfolding observe arm new tick
stale_tick_consumes_example =
    stale_tick_consumes true late late outage stale refl (omega arith) refl refl refl (omega arith)
      (omega arith)

rollback_now_hides_failure_example :
    let (m1, calls) = rollback_now (mark_rollback_failed "restore" (rollback_now outage).0) in
    (calls ≡ false)
    × ((status 0 (mark_rollback_failed "restore" (rollback_now outage).0)).phase
        ≡ Phase.rollback_failed)
    × ((status 0 m1).phase ≡ Phase.rolled_back)
    × ((status 0 m1).last_error ≡ "restore")
unfolding rollback_now
rollback_now_hides_failure_example =
    rollback_now_hides_failure "restore" 0 (rollback_now outage).0 refl

outage-IsValid : IsValid outage
unfolding observe arm new tick
outage-IsValid = ground arith

tick_rollback_iff_example : ((tick outage 50000 false).1 ≡ act_rollback) ↔ (
    (outage.pending ≡ true)
    × (◌≡◌ {A = Bool} false false)
    × (outage.rolled_back ≡ false)
    × (rollback_at outage 50000 ≤ 50000)
    × (50000 < reboot_at outage 50000))
tick_rollback_iff_example = tick_rollback_iff outage 50000 false

abbrev mixed : List (ℕ × Bool)
mixed = (50000, false) ∷ (400000, false) ∷ (500000, true) ∷ []

abbrev at_times : Bool → ℕ → ℕ × Bool
at_times ok now = (now, ok)

outage_rolls_back_example :
    let (m1, l) = observe (arm 0 callbacks (new default_durations)) (
      at_times false 20000
      ∷ (map (at_times false) (35000 ∷ 50000 ∷ []) ++ (at_times false 65000 ∷ []))) in
    (l ≡ act_none ∷ (quiet (35000 ∷ 50000 ∷ []) ++ (act_rollback ∷ [])))
    × (m1.phase ≡ Phase.rolled_back)
    × (m1.pending ≡ true)
unfolding new
outage_rolls_back_example =
    outage_rolls_back (new default_durations) callbacks 0 20000 (35000 ∷ 50000 ∷ []) 65000
      (omega arith) (omega arith) (omega arith) (omega arith) (omega arith)
