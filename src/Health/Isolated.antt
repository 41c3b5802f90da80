-- ===== src/Health/Isolated.antt =====
-- internal/health/monitor.go: single failures do not show in what `record` keeps.
use velinx.Base.{◌≡◌, refl, ◌∙◌, ℕ, true, false, List, [], ◌∷◌, ltb, inl, inr, ◌⊎◌}
use velinx.Health.{
  State, alive, down, unknown, Stat, same_state, threshold, count, committed, commit, push_sample,
  record_outcome,
}
use velinx.Health.Flaps.{Outcome, outcomes, probed}

abbrev pub Lone : State → List Outcome → Type 0
Lone alive os = Unit
Lone unknown os = ⊥
Lone down [] = Unit
Lone down (o ∷ os) = o.state ≡ alive

-- Outcomes that are alive, or down with an alive one next.
abbrev pub Isolated : List Outcome → Type 0
Isolated [] = Unit
Isolated (o ∷ os) = Lone o.state os × Isolated os

-- What a target shows of the time that it has been alive.
abbrev pub Shown : Stat → Stat → Type 0
Shown s t = (t.state ≡ alive) × (t.reconnects ≡ s.reconnects) × (t.last_change ≡ s.last_change)

commit-held :
    (new : State) (now : ℕ) (s : Stat) → same_state new s.state ≡ true → commit new now s ≡ s
unfolding commit
commit-held new now s h = rw h refl

alive_step :
    (latency now : ℕ) (s : Stat)
    → s.state ≡ alive
    → Shown s (record_outcome false alive latency now s)
      × ((record_outcome false alive latency now s).consec_fail ≡ 0)
unfolding record_outcome count committed push_sample same_state
alive_step latency now s a =
    let n = count alive latency (probed now s) in
    let h : same_state alive n.state ≡ true = rw a refl in
    rw (commit-held alive now n h) ((a, refl, refl), refl)

down_step :
    (latency now : ℕ) (s : Stat)
    → s.state ≡ alive
    → s.consec_fail ≡ 0
    → Shown s (record_outcome false down latency now s)
unfolding record_outcome count committed push_sample threshold same_state
down_step latency now s a f =
    let n = count down latency (probed now s) in
    let below : ltb n.consec_fail 2 ≡ true = rw f refl in
    let c : committed false down n ≡ s.state = rw (below, committed) refl in
    let h : same_state (committed false down n) n.state ≡ true = rw (c, a) refl in
    rw (commit-held (committed false down n) now n h) (a, refl, refl)

-- No failure is open, or the first outcome is Alive.
abbrev pub Ready : Stat → List Outcome → Type 0
Ready s [] = Unit
Ready s (o ∷ os) = (s.consec_fail ≡ 0) ⊎ (o.state ≡ alive)

Shown-trans : (r s t : Stat) → Shown r s → Shown s t → Shown r t
Shown-trans r s t h k = (k.0, k.1 ∙ h.1, k.2 ∙ h.2)

ready : (s : Stat) (os : List Outcome) → s.consec_fail ≡ 0 → Ready s os
ready s [] f = tt
ready s (o ∷ os) f = inl f

after_down : (s : Stat) (os : List Outcome) → Lone down os → Ready s os
after_down s [] l = tt
after_down s (o ∷ os) l = inr l

not_ready :
    (s : Stat) (os : List Outcome) → (s.consec_fail ≡ 0) ⊎ (down ≡ alive) → s.consec_fail ≡ 0
not_ready s os (inl f) = f
not_ready s os (inr e) = absurd cc

one_step :
    (t : State) (latency now : ℕ) (os : List Outcome) (s : Stat)
    → s.state ≡ alive
    → Lone t os
    → (s.consec_fail ≡ 0) ⊎ (t ≡ alive)
    → Shown s (record_outcome false t latency now s)
      × Ready (record_outcome false t latency now s) os
one_step alive latency now os s a l f =
    let (h, z) = alive_step latency now s a in
    (h, ready (record_outcome false alive latency now s) os z)
one_step down latency now os s a l f = (
  down_step latency now s a (not_ready s os f),
  after_down (record_outcome false down latency now s) os l,
)
one_step unknown latency now os s a l f = absurd l

-- Outside of a demonstration, in which one failure is enough, a target that is alive, and has no failure
-- open or is alive at the first outcome, keeps being shown as alive, with the same uptime and the
-- same number of reconnects, through any outcomes of which every Down is followed by an Alive, if by
-- anything, and none is Unknown.
pub one_failure_hidden :
    (os : List Outcome) (s : Stat)
    → Isolated os
    → s.state ≡ alive
    → Ready s os
    → Shown s (outcomes false os s)
unfolding outcomes
one_failure_hidden [] s i a r = (a, refl, refl)
one_failure_hidden (o ∷ os) s i a r =
    let t = record_outcome false o.state o.latency o.at s in
    let (h, r') = one_step o.state o.latency o.at os s a i.0 r in
    Shown-trans s t (outcomes false os t) h (one_failure_hidden os t i.1 h.0 r')
