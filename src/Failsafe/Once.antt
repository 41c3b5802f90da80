-- ===== src/Failsafe/Once.antt =====
-- internal/failsafe/failsafe.go: over every interleaving of runs, applies, confirmations and manual
-- rollbacks, how often the callbacks of one window are called.
use velinx.Base.{
  ℕ, ◌+◌, ◌≤◌, ◌≡◌, ap, String, Option, Bool, List, [], ◌∷◌, ◌++◌, ◌&&◌, ltb, ◌==◌, if◌then◌else◌,
  arith,
}
use velinx.Failsafe.{
  act_none, act_rollback, act_reboot, act_done, Durations, Manager, Callbacks, arm,
  mark_rollback_failed, tick, confirm, rollback_now,
}
use velinx.Failsafe.Run.{
  Place, at_tick, calling_rollback, switching, Run, Choice, Effect, rolled_back, rebooted,
  is_cancelled, run_step, step_at, World, init, arm_world, confirm_world, rollback_now_world,
  manual_call, run_world, Step, arms, confirms, asks_rollback, calls_manual, runs_on, Reach, start,
  next,
}

-- How often the rollback of window `e` was called.
unfoldable pub rollbacks : ℕ → List Effect → ℕ
rollbacks e [] = 0
rollbacks e (rolled_back k ∷ l) = (if k == e then 1 else 0) + rollbacks e l
rollbacks e (rebooted k ∷ l) = rollbacks e l

-- A claim that a run has won and not yet used.
abbrev holds_claim : Place → ℕ
holds_claim calling_rollback = 1
holds_claim _ = 0

unfoldable pub weigh : (Place → ℕ) → ℕ → List Run → ℕ
weigh f e [] = 0
weigh f e (r ∷ rs) = (if r.epoch == e then f r.place else 0) + weigh f e rs

weigh-append :
    (f : Place → ℕ) (e : ℕ) (xs ys : List Run) → weigh f e (xs ++ ys) ≡ weigh f e xs + weigh f e ys
unfolding weigh
weigh-append f e [] ys = omega arith
weigh-append f e (x ∷ xs) ys = omega (arith, weigh-append f e xs ys)

pub weigh-middle :
    (f : Place → ℕ) (e : ℕ) (xs ys : List Run) (r : Run)
    → weigh f e (xs ++ (r ∷ ys))
      ≡ weigh f e xs + ((if r.epoch == e then f r.place else 0) + weigh f e ys)
unfolding weigh
weigh-middle f e xs ys r = weigh-append f e xs (r ∷ ys)

tokens : ℕ → List ℕ → ℕ
tokens e [] = 0
tokens e (k ∷ ks) = (if k == e then 1 else 0) + tokens e ks

tokens-append : (e : ℕ) (xs ys : List ℕ) → tokens e (xs ++ ys) ≡ tokens e xs + tokens e ys
unfolding tokens
tokens-append e [] ys = omega arith
tokens-append e (x ∷ xs) ys = omega (arith, tokens-append e xs ys)

tokens-middle :
    (e k : ℕ) (xs ys : List ℕ)
    → tokens e (xs ++ (k ∷ ys)) ≡ (if k == e then 1 else 0) + tokens e (xs ++ ys)
unfolding tokens
tokens-middle e k xs ys = omega (arith, tokens-append e xs (k ∷ ys), tokens-append e xs ys)

-- How many rollback calls window `e` may have used or claimed.
budget : Manager → ℕ → ℕ
budget m e = if ltb e m.epoch then 1 else if e == m.epoch && m.dispatched then 1 else 0

used : ℕ → World → ℕ
used e w = rollbacks e w.log + weigh holds_claim e w.runs + tokens e w.manual

budget-le-one : (m : Manager) (e : ℕ) → budget m e ≤ 1
unfolding budget
budget-le-one m e = ground arith

budget_of_same :
    (m n : Manager) (e : ℕ)
    → m.epoch ≡ n.epoch
    → m.dispatched ≡ n.dispatched
    → budget m e ≡ budget n e
unfolding budget
budget_of_same m n e p q = rw (p, q)

budget-arm : (now : ℕ) (cb : Callbacks) (m : Manager) (e : ℕ) → budget m e ≤ budget (arm now cb m) e
unfolding budget arm
budget-arm now cb m e = ground arith

-- The locked part of a manual rollback takes one from the budget for each call that it grants.
budget-rollback_now :
    (m : Manager) (e : ℕ)
    → budget m e + (if (rollback_now m).1 && m.epoch == e then 1 else 0)
      ≤ budget (rollback_now m).0 e
unfolding budget rollback_now
budget-rollback_now m e = ground arith

tick_keeps :
    (m : Manager) (now : ℕ) (ok : Bool)
    → ((tick m now ok).0.epoch ≡ m.epoch) × ((tick m now ok).0.dispatched ≡ m.dispatched)
unfolding tick
tick_keeps m now ok = ground arith

-- What one step of a run, by where it stands, does to the budget and to the claims of window `e`.
module _ (cancelled : Bool) (c : Choice) (m : Manager) (r : Run) (e : ℕ) where
  FitsBudget : Place → Type 0
  FitsBudget p =
      let o = step_at p cancelled c m r in
      (if r.epoch == e then holds_claim o.place else 0) + rollbacks e o.effects + budget m e
      ≤ (if r.epoch == e then holds_claim p else 0) + budget o.mgr e

  step_at_spends : (p : Place) → FitsBudget p
  unfolding FitsBudget step_at budget rollbacks mark_rollback_failed
  step_at_spends at_tick = ground (arith, tick_keeps m c.now c.ok)
  step_at_spends (switching act_none) = ground arith
  step_at_spends (switching act_rollback) = ground arith
  step_at_spends (switching act_reboot) = ground arith
  step_at_spends (switching act_done) = ground arith
  step_at_spends calling_rollback = ground arith
  step_at_spends _ = ground arith

  run_step_spends :
      let o = run_step cancelled c m r in
      (if r.epoch == e then holds_claim o.place else 0) + rollbacks e o.effects + budget m e
      ≤ (if r.epoch == e then holds_claim r.place else 0) + budget o.mgr e
  unfolding run_step FitsBudget
  run_step_spends = step_at_spends r.place

rollbacks-append :
    (e : ℕ) (xs ys : List Effect) → rollbacks e (xs ++ ys) ≡ rollbacks e xs + rollbacks e ys
unfolding rollbacks
rollbacks-append e [] ys = omega arith
rollbacks-append e (rolled_back k ∷ xs) ys = omega (arith, rollbacks-append e xs ys)
rollbacks-append e (rebooted k ∷ xs) ys = rollbacks-append e xs ys

abbrev WithinBudget : World → Type 0
WithinBudget w = (e : ℕ) → used e w ≤ budget w.mgr e

run_world-WithinBudget :
    (c : Choice) (before : List Run) (r : Run) (after : List Run) (w : World)
    → w.runs ≡ before ++ (r ∷ after)
    → WithinBudget w
    → WithinBudget (run_world c before r after w)
unfolding run_world used
run_world-WithinBudget c before r after w split h e =
    let cancelled = is_cancelled w.cancelled r.epoch in
    let o = run_step cancelled c w.mgr r in
    omega (
      arith,
      run_step_spends cancelled c w.mgr r e,
      h e,
      ap (weigh holds_claim e) split,
      weigh-middle holds_claim e before after r,
      weigh-middle holds_claim e before after (record r { place = o.place }),
      rollbacks-append e o.effects w.log,
    )

manual_call-WithinBudget :
    (err : Option String) (before : List ℕ) (k : ℕ) (after : List ℕ) (w : World)
    → w.manual ≡ before ++ (k ∷ after)
    → WithinBudget w
    → WithinBudget (manual_call err k (before ++ after) w)
unfolding manual_call used rollbacks budget mark_rollback_failed
manual_call-WithinBudget err before k after w split h e =
    ground (arith, h e, ap (tokens e) split, tokens-middle e k before after)

rollback_now-WithinBudget : (w : World) → WithinBudget w → WithinBudget (rollback_now_world w)
unfolding rollback_now_world used tokens
rollback_now-WithinBudget w h e = ground (arith, h e, budget-rollback_now w.mgr e)

arm-WithinBudget :
    (now : ℕ) (cb : Callbacks) (w : World) → WithinBudget w → WithinBudget (arm_world now cb w)
unfolding arm_world used weigh
arm-WithinBudget now cb w h e = ground (arith, h e, budget-arm now cb w.mgr e)

Step-WithinBudget : {v w : World} → Step v w → WithinBudget v → WithinBudget w
unfolding confirm_world used budget confirm
Step-WithinBudget {v} (arms now cb) h = arm-WithinBudget now cb v h
Step-WithinBudget confirms h = h
Step-WithinBudget {v} asks_rollback h = rollback_now-WithinBudget v h
Step-WithinBudget {v} (calls_manual err before k after split) h =
    manual_call-WithinBudget err before k after v split h
Step-WithinBudget {v} (runs_on c before r after split) h =
    run_world-WithinBudget c before r after v split h

Reach-WithinBudget : {d : Durations} {w : World} → Reach d w → WithinBudget w
unfolding init used budget rollbacks weigh tokens
Reach-WithinBudget start e = omega arith
Reach-WithinBudget (next r s) e = Step-WithinBudget s (Reach-WithinBudget r) e

-- In every reachable world, whatever the interleaving, the rollback of each window was called at
-- most once.
pub rollback_at_most_once : {d : Durations} (e : ℕ) {w : World} → Reach d w → rollbacks e w.log ≤ 1
unfolding used
rollback_at_most_once e {w} r = omega (arith, Reach-WithinBudget r e, budget-le-one w.mgr e)
