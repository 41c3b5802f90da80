-- ===== src/Failsafe/Tick.antt =====
-- internal/failsafe/failsafe.go, `tick` by itself: when it asks for a rollback, what a window does
-- over a series of connectivity readings, and the well-formedness of the manager.
use velinx.Base.{
  ℕ, suc, ◌+◌, ◌/◌, ◌≤◌, ◌<◌, ◌≡◌, ◌↔◌, ◌⊎◌, Bool, true, false, List, [], ◌∷◌, if◌then◌else◌, arith,
}
use velinx.Failsafe.{Action, act_rollback, act_reboot, act_done, Manager, tick, millisecond}

-- Since when connectivity is bad, if the reading at `now` is.
abbrev pub bad_from : Manager → ℕ → ℕ
bad_from m now = if m.bad then m.bad_since else now

abbrev pub rollback_at : Manager → ℕ → ℕ
rollback_at m now = bad_from m now + m.d.rollback_after / millisecond

abbrev pub reboot_at : Manager → ℕ → ℕ
reboot_at m now = bad_from m now + m.d.reboot_after / millisecond

-- `tick` asks for a rollback exactly when the window is pending, has not rolled back, and the
-- reading is bad and has been for `RollbackAfter`, but not yet for `RebootAfter`.
pub tick_rollback_iff :
    (m : Manager) (now : ℕ) (ok : Bool)
    → ((tick m now ok).1 ≡ act_rollback) ↔ (
        (m.pending ≡ true)
        × (ok ≡ false)
        × (m.rolled_back ≡ false)
        × (rollback_at m now ≤ now)
        × (now < reboot_at m now))
unfolding tick
tick_rollback_iff m now ok = (λ h. ground arith, λ h. ground arith)

-- `tick` asks for a reboot exactly when the window is pending and has been bad for `RebootAfter`.
pub tick_reboot_iff :
    (m : Manager) (now : ℕ) (ok : Bool)
    → ((tick m now ok).1 ≡ act_reboot)
      ↔ ((m.pending ≡ true) × (ok ≡ false) × (reboot_at m now ≤ now))
unfolding tick
tick_reboot_iff m now ok = (λ h. ground arith, λ h. ground arith)

-- `tick` stops watching exactly when the window is pending, the reading is good, and the window has
-- rolled back or has reached its deadline.
pub tick_done_iff :
    (m : Manager) (now : ℕ) (ok : Bool)
    → ((tick m now ok).1 ≡ act_done)
      ↔ ((m.pending ≡ true) × (ok ≡ true) × ((m.rolled_back ≡ true) ⊎ (m.deadline ≤ now)))
unfolding tick
tick_done_iff m now ok = (λ h. ground arith, λ h. ground arith)

-- The loop over connectivity readings of one window, with the actions in order.
unfoldable pub observe : Manager → List (ℕ × Bool) → Manager × List Action
observe m [] = (m, [])
observe m ((now, ok) ∷ rest) =
    let (m1, a) = tick m now ok in let (m2, l) = observe m1 rest in (m2, a ∷ l)

unfoldable pub rollback_count : List Action → ℕ
rollback_count [] = 0
rollback_count (act_rollback ∷ l) = suc (rollback_count l)
rollback_count (_ ∷ l) = rollback_count l

unfoldable pub ending_count : List Action → ℕ
ending_count [] = 0
ending_count (act_reboot ∷ l) = suc (ending_count l)
ending_count (act_done ∷ l) = suc (ending_count l)
ending_count (_ ∷ l) = ending_count l

abbrev flag : Bool → ℕ
flag true = 1
flag false = 0

tick_spends :
    (m : Manager) (now : ℕ) (ok : Bool)
    → let (m1, a) = tick m now ok in
      (rollback_count (a ∷ []) + flag m.rolled_back ≤ flag m1.rolled_back)
      × (ending_count (a ∷ []) + flag m1.pending ≤ flag m.pending)
unfolding tick rollback_count ending_count
tick_spends m now ok = ground arith

rollback_count-cons :
    (a : Action) (l : List Action)
    → rollback_count (a ∷ l) ≡ rollback_count (a ∷ []) + rollback_count l
unfolding rollback_count
rollback_count-cons act_rollback l = omega arith
rollback_count-cons _ l = omega arith

ending_count-cons :
    (a : Action) (l : List Action) → ending_count (a ∷ l) ≡ ending_count (a ∷ []) + ending_count l
unfolding ending_count
ending_count-cons act_reboot l = omega arith
ending_count-cons _ l = omega arith

observe_spends :
    (m : Manager) (readings : List (ℕ × Bool))
    → let (m1, l) = observe m readings in
      (rollback_count l + flag m.rolled_back ≤ flag m1.rolled_back)
      × (ending_count l + flag m1.pending ≤ flag m.pending)
unfolding observe rollback_count ending_count
observe_spends m [] = (omega arith, omega arith)
observe_spends m ((now, ok) ∷ rest) =
    let (m1, a) = tick m now ok in
    let l = (observe m1 rest).1 in
    let s = tick_spends m now ok in
    let t = observe_spends m1 rest in
    (
      omega (arith, s.0, t.0, rollback_count-cons a l),
      omega (arith, s.1, t.1, ending_count-cons a l),
    )

flag-le-one : (b : Bool) → flag b ≤ 1
flag-le-one true = omega arith
flag-le-one false = omega arith

-- Over any readings at any times, `tick` asks for at most one rollback and ends the window at most
-- once, by a reboot or by being done.
pub observe_once :
    (m : Manager) (readings : List (ℕ × Bool))
    → (rollback_count (observe m readings).1 ≤ 1) × (ending_count (observe m readings).1 ≤ 1)
observe_once m readings =
    let (m1, l) = observe m readings in
    let s = observe_spends m readings in
    (omega (arith, s.0, flag-le-one m1.rolled_back), omega (arith, s.1, flag-le-one m.pending))
