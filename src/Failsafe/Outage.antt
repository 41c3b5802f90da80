-- ===== src/Failsafe/Outage.antt =====
-- internal/failsafe/failsafe.go, `tick` over a whole window: outages and healthy windows.
use velinx.Base.{
  ℕ, ◌+◌, ◌/◌, ◌≤◌, ◌<◌, ◌≡◌, refl, ap, Bool, true, false, List, [], ◌∷◌, ◌++◌, map, All, arith,
}
use velinx.Failsafe.{
  Action, act_none, act_rollback, act_done, Phase, Manager, Callbacks, arm, tick, millisecond,
}
use velinx.Failsafe.Tick.{observe}

-- The window after a bad reading that asked for nothing: it counts from `since`.
record IsDegraded (m : Manager) (since : ℕ) : Type 0 where
  pending : m.pending ≡ true
  bad : m.bad ≡ true
  bad_since : m.bad_since ≡ since
  rolled_back : m.rolled_back ≡ false

abbrev reading : Bool → ℕ → ℕ × Bool
reading ok now = (now, ok)

-- The actions of readings that ask for nothing.
unfoldable pub quiet : List ℕ → List Action
quiet [] = []
quiet (_ ∷ l) = act_none ∷ quiet l

first_bad :
    (now t0 : ℕ) (cb : Callbacks) (m : Manager)
    → 0 < m.d.rollback_after / millisecond
    → 0 < m.d.reboot_after / millisecond
    → let (m1, a) = tick (arm now cb m) t0 false in (a ≡ act_none) × IsDegraded m1 t0 × (m1.d ≡ m.d)
unfolding tick arm
first_bad now t0 cb m h k = ground arith

still_bad :
    (m : Manager) (since t : ℕ)
    → IsDegraded m since
    → t < since + m.d.rollback_after / millisecond
    → t < since + m.d.reboot_after / millisecond
    → let (m1, a) = tick m t false in (a ≡ act_none) × IsDegraded m1 since × (m1.d ≡ m.d)
unfolding tick
still_bad m since t v h k = ground arith

bad_too_long :
    (m : Manager) (since t : ℕ)
    → IsDegraded m since
    → since + m.d.rollback_after / millisecond ≤ t
    → t < since + m.d.reboot_after / millisecond
    → let (m1, a) = tick m t false in
      (a ≡ act_rollback) × (m1.phase ≡ Phase.rolled_back) × (m1.pending ≡ true)
unfolding tick
bad_too_long m since t v h k = ground arith

outage_from :
    (m : Manager) (since : ℕ) (early : List ℕ) (t : ℕ)
    → IsDegraded m since
    → All (λ u. u < since + m.d.rollback_after / millisecond) early
    → m.d.rollback_after / millisecond ≤ m.d.reboot_after / millisecond
    → since + m.d.rollback_after / millisecond ≤ t
    → t < since + m.d.reboot_after / millisecond
    → let (m1, l) = observe m (map (reading false) early ++ (reading false t ∷ [])) in
      (l ≡ quiet early ++ (act_rollback ∷ []))
      × (m1.phase ≡ Phase.rolled_back)
      × (m1.pending ≡ true)
unfolding observe quiet
outage_from m since [] t v h o a b = ground (arith, bad_too_long m since t v a b)
outage_from m since (u ∷ early) t v h o a b =
    let m1 = (tick m u false).0 in
    let (none_yet, v1, same) = still_bad m since u v h.0 (omega arith) in
    let rest = outage_from m1 since early t v1 (rw same h.1) (rw same o) (rw same a) (rw same b) in
    (rw none_yet (ap (λ l. act_none ∷ l) rest.0), rest.1, rest.2)

-- After an apply, when the first reading at `t0` and all later ones are bad, nothing is asked for
-- while `RollbackAfter` has not passed since `t0`, and the first reading past it (and before
-- `RebootAfter`) asks for the rollback and leaves the window pending in phase `rolled_back`.
pub outage_rolls_back :
    (m : Manager) (cb : Callbacks) (now t0 : ℕ) (early : List ℕ) (t : ℕ)
    → 0 < m.d.rollback_after / millisecond
    → m.d.rollback_after / millisecond ≤ m.d.reboot_after / millisecond
    → All (λ u. u < t0 + m.d.rollback_after / millisecond) early
    → t0 + m.d.rollback_after / millisecond ≤ t
    → t < t0 + m.d.reboot_after / millisecond
    → let (m1, l) =
        observe
          (arm now cb m)
          (reading false t0 ∷ (map (reading false) early ++ (reading false t ∷ []))) in
      (l ≡ act_none ∷ (quiet early ++ (act_rollback ∷ [])))
      × (m1.phase ≡ Phase.rolled_back)
      × (m1.pending ≡ true)
unfolding observe
outage_rolls_back m cb now t0 early t p o h a b =
    let m0 = (tick (arm now cb m) t0 false).0 in
    let (none_yet, v, same) = first_bad now t0 cb m p (omega arith) in
    let rest = outage_from m0 t0 early t v (rw same h) (rw same o) (rw same a) (rw same b) in
    (rw none_yet (ap (λ l. act_none ∷ l) rest.0), rest.1, rest.2)

record IsHealthy (m : Manager) (until : ℕ) : Type 0 where
  pending : m.pending ≡ true
  rolled_back : m.rolled_back ≡ false
  deadline : m.deadline ≡ until

still_good :
    (m : Manager) (until t : ℕ)
    → IsHealthy m until
    → t < until
    → let (m1, a) = tick m t true in (a ≡ act_none) × IsHealthy m1 until
unfolding tick
still_good m until t v h = ground arith

good_long_enough :
    (m : Manager) (until t : ℕ)
    → IsHealthy m until
    → until ≤ t
    → let (m1, a) = tick m t true in
      (a ≡ act_done) × (m1.phase ≡ Phase.live_unsaved) × (m1.pending ≡ false)
unfolding tick
good_long_enough m until t v h = ground arith

healthy_from :
    (m : Manager) (until : ℕ) (early : List ℕ) (t : ℕ)
    → IsHealthy m until
    → All (λ u. u < until) early
    → until ≤ t
    → let (m1, l) = observe m (map (reading true) early ++ (reading true t ∷ [])) in
      (l ≡ quiet early ++ (act_done ∷ [])) × (m1.phase ≡ Phase.live_unsaved) × (m1.pending ≡ false)
unfolding observe quiet
healthy_from m until [] t v h a = ground (arith, good_long_enough m until t v a)
healthy_from m until (u ∷ early) t v h a =
    let m1 = (tick m u true).0 in
    let (none_yet, v1) = still_good m until u v h.0 in
    let rest = healthy_from m1 until early t v1 h.1 a in
    (rw none_yet (ap (λ l. act_none ∷ l) rest.0), rest.1, rest.2)

-- After an apply, when every reading is good, nothing is asked for before the keep window has
-- passed, and the first reading after it ends the window with the config live and not saved.
pub healthy_stays_live :
    (m : Manager) (cb : Callbacks) (now : ℕ) (early : List ℕ) (t : ℕ)
    → All (λ u. u < now + m.d.keep_window / millisecond) early
    → now + m.d.keep_window / millisecond ≤ t
    → let (m1, l) = observe (arm now cb m) (map (reading true) early ++ (reading true t ∷ [])) in
      (l ≡ quiet early ++ (act_done ∷ [])) × (m1.phase ≡ Phase.live_unsaved) × (m1.pending ≡ false)
unfolding arm
healthy_stays_live m cb now early t h a =
    healthy_from (arm now cb m) (now + m.d.keep_window / millisecond) early t
      (record { pending = refl; rolled_back = refl; deadline = refl }) h a
