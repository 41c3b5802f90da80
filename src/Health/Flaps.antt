-- ===== src/Health/Flaps.antt =====
-- internal/health/monitor.go: how `record` damps what a lossy path looks like.
use velinx.Base.{
  ◌≡◌, refl, arith, ℕ, ◌+◌, ◌*◌, ◌≤◌, Bool, true, false, List, [], ◌∷◌, ◌&&◌, ◌||◌, not, ltb, leb,
  subst, if◌then◌else◌, inl, inr, Bool-cases,
}
use velinx.Health.{
  State, alive, down, unknown, Stat, same_state, threshold, count, committed, commit, push_sample,
  record_outcome, new_stat,
}

-- The outcome of a probe, with its latency and its time.
pub record Outcome : Type 0 where
  pub state : State
  pub latency : ℕ
  pub at : ℕ

unfoldable pub outcomes : Bool → List Outcome → Stat → Stat
unfolding record_outcome
outcomes demo [] s = s
outcomes demo (o ∷ os) s = outcomes demo os (record_outcome demo o.state o.latency o.at s)

-- Whether a target that is Down has failed often enough since it was alive.
unfoldable pub is_confirmed : Bool → State → ℕ → Bool
unfolding same_state threshold
is_confirmed demo state fails = not (same_state state down) || leb (threshold demo) fails

-- The counters of a target: besides, every reconnect has taken as many failures of its own, and every
-- outcome was probed for.
pub record IsValid (demo : Bool) (s : Stat) : Type 0 where
  pub confirmed : is_confirmed demo s.state s.consec_fail ≡ true
  pub paid : threshold demo * s.reconnects + s.consec_fail ≤ s.fail
  pub counted : s.ok + s.fail ≤ s.probes

pub new_stat-IsValid : (demo : Bool) (now : ℕ) → IsValid demo (new_stat now)
unfolding new_stat is_confirmed
new_stat-IsValid true now = record { confirmed = refl; paid = omega arith; counted = omega arith }
new_stat-IsValid false now = record { confirmed = refl; paid = omega arith; counted = omega arith }

-- What `commit` asks of the counters: enough failures for a new Down, and for a reconnect.
eq_of_same_state : (s t : State) → same_state s t ≡ true → s ≡ t
unfolding same_state
eq_of_same_state alive alive h = refl
eq_of_same_state down down h = refl
eq_of_same_state unknown unknown h = refl
eq_of_same_state alive down h = absurd cc
eq_of_same_state alive unknown h = absurd cc
eq_of_same_state down alive h = absurd cc
eq_of_same_state down unknown h = absurd cc
eq_of_same_state unknown alive h = absurd cc
eq_of_same_state unknown down h = absurd cc

not_both : (t : State) → (same_state t alive && same_state t down) ≡ false
unfolding same_state
not_both alive = refl
not_both down = refl
not_both unknown = refl

paid_held :
    (new t : State) (th r f n : ℕ)
    → new ≡ t
    → th * (if same_state new alive && same_state t down then r + 1 else r) + f ≤ n
    → th * r + f ≤ n
paid_held new t th r f n q p =
    let e : (same_state new alive && same_state t down) ≡ false = rw q (not_both t) in
    subst (λ b. th * (if b then r + 1 else r) + f ≤ n) e p

alive_confirmed : (demo : Bool) (f : ℕ) → is_confirmed demo alive f ≡ true
unfolding is_confirmed
alive_confirmed demo f = refl

unknown_confirmed : (demo : Bool) (f : ℕ) → is_confirmed demo unknown f ≡ true
unfolding is_confirmed
unknown_confirmed demo f = refl

down_confirmed :
    (demo : Bool) (t : State) (f : ℕ)
    → is_confirmed demo t f ≡ true
    → is_confirmed demo (if ltb (f + 1) (threshold demo) then t else down) (f + 1) ≡ true
unfolding is_confirmed
down_confirmed demo t f c = elim (Bool-cases (ltb (f + 1) (threshold demo))) [
  | inl e ↦ rw e (ground arith)
  | inr e ↦ rw e (ground arith)
]

down_paid :
    (demo : Bool) (t : State) (r f n : ℕ)
    → threshold demo * r + f ≤ n
    → threshold demo
          * (if same_state (if ltb (f + 1) (threshold demo) then t else down) alive
                && same_state t down
              then r + 1
              else r)
        + (f + 1)
      ≤ n + 1
unfolding threshold same_state
down_paid demo t r f n p = elim (Bool-cases (ltb (f + 1) (threshold demo))) [
  | inl e ↦ rw (e, not_both t) (omega (arith, p))
  | inr e ↦ rw e (omega (arith, p))
]

commit-IsValid :
    (demo : Bool) (new : State) (now : ℕ) (s : Stat)
    → is_confirmed demo new s.consec_fail ≡ true
    → threshold demo
          * (if same_state new alive && same_state s.state down
              then s.reconnects + 1
              else s.reconnects)
        + s.consec_fail
      ≤ s.fail
    → s.ok + s.fail ≤ s.probes
    → IsValid demo (commit new now s)
unfolding commit is_confirmed
commit-IsValid demo new now s c p k = elim (Bool-cases (same_state new s.state)) [
  | inl e ↦
      let q = eq_of_same_state new s.state e in
      rw e (record {
        confirmed = subst (λ t. is_confirmed demo t s.consec_fail ≡ true) q c;
        paid = paid_held new s.state (threshold demo) s.reconnects s.consec_fail s.fail q p;
        counted = k;
      })
  | inr e ↦ rw e (record { confirmed = c; paid = p; counted = k })
]

count_paid :
    (demo : Bool) (t : State) (r f n : ℕ)
    → is_confirmed demo t f ≡ true
    → threshold demo * r + f ≤ n
    → threshold demo * (if same_state t down then r + 1 else r) + 0 ≤ n
unfolding is_confirmed threshold
count_paid true t r f n c p = ground arith
count_paid false t r f n c p = ground arith

abbrev pub probed : ℕ → Stat → Stat
probed now s = record s { probes = s.probes + 1; last_probe = now }

record_outcome-IsValid :
    (demo : Bool) (state : State) (latency now : ℕ) (s : Stat)
    → IsValid demo s
    → IsValid demo (record_outcome demo state latency now s)
unfolding record_outcome count committed push_sample
record_outcome-IsValid demo alive latency now s v =
    let c = v.confirmed in
    let p = v.paid in
    let k = v.counted in
    commit-IsValid demo alive now (count alive latency (probed now s)) (alive_confirmed demo 0)
      (count_paid demo s.state s.reconnects s.consec_fail s.fail c p) (omega arith)
record_outcome-IsValid demo down latency now s v =
    let c = v.confirmed in
    let p = v.paid in
    let k = v.counted in
    let n = count down latency (probed now s) in
    commit-IsValid demo (committed demo down n) now n (down_confirmed demo s.state s.consec_fail c)
      (down_paid demo s.state s.reconnects s.consec_fail s.fail p) (omega arith)
record_outcome-IsValid demo unknown latency now s v =
    let p = v.paid in
    let k = v.counted in
    commit-IsValid demo unknown now (probed now s) (unknown_confirmed demo s.consec_fail) p
      (omega arith)

-- A target that was just probed for the first time, or for as long as one likes.
pub outcomes-IsValid :
    (demo : Bool) (os : List Outcome) (s : Stat)
    → IsValid demo s
    → IsValid demo (outcomes demo os s)
unfolding outcomes
outcomes-IsValid demo [] s v = v
outcomes-IsValid demo (o ∷ os) s v =
    outcomes-IsValid demo os _ (record_outcome-IsValid demo o.state o.latency o.at s v)

-- Whatever the outcomes of its probes, a target is shown as Down only after the threshold of failures
-- since it was last alive, each reconnect that it counts has taken this many failures of its own, and
-- every success or failure was probed for; the threshold is 2, and 1 in a demonstration.
pub monitored-IsValid :
    (demo : Bool) (now : ℕ) (os : List Outcome) → IsValid demo (outcomes demo os (new_stat now))
monitored-IsValid demo now os = outcomes-IsValid demo os (new_stat now) (new_stat-IsValid demo now)
