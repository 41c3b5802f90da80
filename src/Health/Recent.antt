-- ===== src/Health/Recent.antt =====
-- internal/health/monitor.go: the success rate and the latency that `toView` shows.
use velinx.Base.{
  ℕ, zero, suc, ◌+◌, ◌-◌, ◌*◌, ◌/◌, ◌≤◌, ◌<◌, ◌≡◌, refl, sym, ap, ◌∙◌, subst, arith, List, [], ◌∷◌,
  ◌++◌, length, take, drop, last_n, length-append, length-drop, take_all, append_nil, append_assoc,
  ◌==◌, if◌then◌else◌, Bool, true, false, Bool-cases, inl, inr,
}
use native.Mathlib.Nat.{div-le_of_le-mul}
use velinx.Health.{
  State, alive, down, unknown, Sample, Stat, same_state, push_sample, count, commit, committed,
  record_outcome, new_stat,
}
use velinx.Health.Window.{Ring, push_sample-Ring, new_stat-Ring}
use velinx.Health.Flaps.{Outcome, outcomes, probed}
use velinx.Health.Views.{oks, latencies, quotient, window, success_rate_of, avg_latency_of}

-- The samples of the outcomes, in their order; an Unknown is none.
unfoldable pub samples_of : List Outcome → List Sample
samples_of [] = []
samples_of (o ∷ os) =
    let rest = samples_of os in
    elim o.state [
      | alive ↦ record { ok = true; latency = o.latency } ∷ rest
      | down ↦ record { ok = false; latency = 0 } ∷ rest
      | unknown ↦ rest
    ]

oks-append : (xs ys : List Sample) → oks (xs ++ ys) ≡ oks xs + oks ys
unfolding oks
oks-append [] ys = omega arith
oks-append (x ∷ xs) ys = let r = oks-append xs ys in ground arith

latencies-append : (xs ys : List Sample) → latencies (xs ++ ys) ≡ latencies xs + latencies ys
unfolding latencies
latencies-append [] ys = omega arith
latencies-append (x ∷ xs) ys = let r = latencies-append xs ys in ground arith

oks_le : (xs : List Sample) → oks xs ≤ length xs
unfolding oks
oks_le [] = omega arith
oks_le (x ∷ xs) = let r = oks_le xs in ground arith

take-drop {ℓ} : {A : Type ℓ} (n : ℕ) (xs : List A) → take n xs ++ drop n xs ≡ xs
take-drop zero xs = refl
take-drop (suc n) [] = refl
take-drop (suc n) (x ∷ xs) = ap (λ r. x ∷ r) (take-drop n xs)

-- What is counted of a window and of the end of the history is the same.
record Agree (w h : List Sample) : Type 0 where
  rate : oks w ≡ oks h
  sum : latencies w ≡ latencies h
  len : length w ≡ length h

swapped : (n : ℕ) (xs : List Sample) → Agree xs (drop n xs ++ take n xs)
swapped n xs =
    let e = take-drop n xs in
    record {
      rate =
          ap oks (sym e)
          ∙ oks-append (take n xs) (drop n xs)
          ∙ omega (arith, oks-append (drop n xs) (take n xs));
      sum =
          ap latencies (sym e)
          ∙ latencies-append (take n xs) (drop n xs)
          ∙ omega (arith, latencies-append (drop n xs) (take n xs));
      len =
          ap length (sym e)
          ∙ length-append (take n xs) (drop n xs)
          ∙ omega (arith, length-append (drop n xs) (take n xs));
    }

short_history : (h : List Sample) → length h < 30 → last_n 30 h ≡ h
short_history h l = let e : length h - 30 ≡ 0 = omega arith in rw e refl

window-Agree : (s : Stat) (h : List Sample) → Ring s h → Agree (window s) (last_n 30 h)
unfolding window
window-Agree s h r = elim r.phase [
  | inl f ↦
      let e : take s.recent_n s.recent ≡ last_n 30 h =
        ap (λ n. take n s.recent) f.count ∙ f.held ∙ sym (short_history h f.room) in
      rw e (record { rate = refl; sum = refl; len = refl })
  | inr f ↦
      let z = r.size in
      let e : take s.recent_n s.recent ≡ s.recent =
        ap (λ n. take n s.recent) f.count ∙ take_all 30 s.recent (omega arith) in
      rw e (subst (Agree s.recent) f.held (swapped s.recent_pos s.recent))
]

window-length : (s : Stat) (h : List Sample) → Ring s h → s.recent_n ≡ length (last_n 30 h)
window-length s h r = elim r.phase [
  | inl f ↦ f.count ∙ ap length (sym (short_history h f.room))
  | inr f ↦ let q = f.enough in f.count ∙ omega (arith, length-drop (length h - 30) h)
]

-- The window and the counters of a history.
record Tracks (s : Stat) (h : List Sample) : Type 0 where
  ring : Ring s h
  counted : s.ok + s.fail ≡ length h

tracks_either :
    (c : Bool) (s t : Stat) (h : List Sample)
    → Tracks s h
    → Tracks t h
    → Tracks (if c then s else t) h
tracks_either true s t h p q = p
tracks_either false s t h p q = q

commit-Tracks :
    (new : State) (now : ℕ) (s : Stat) (h : List Sample) → Tracks s h → Tracks (commit new now s) h
unfolding commit
commit-Tracks new now s h t =
    tracks_either (same_state new s.state) s _ h t (record { ring = t.ring; counted = t.counted })

snoc_counted :
    (a b : ℕ) (h : List Sample) (p : Sample) → a ≡ length h → b ≡ a + 1 → b ≡ length (h ++ (p ∷ []))
snoc_counted a b h p e f = let l = length-append h (p ∷ []) in omega arith

abbrev with_outcome : State → ℕ → List Sample → List Sample
with_outcome alive latency h = h ++ (record { ok = true; latency = latency } ∷ [])
with_outcome down latency h = h ++ (record { ok = false; latency = 0 } ∷ [])
with_outcome unknown latency h = h

record_outcome-Tracks :
    (demo : Bool) (state : State) (latency now : ℕ) (s : Stat) (h : List Sample)
    → Tracks s h
    → Tracks (record_outcome demo state latency now s) (with_outcome state latency h)
unfolding record_outcome count push_sample
record_outcome-Tracks demo alive latency now s h t =
    let n = count alive latency (probed now s) in
    let p : Sample = record { ok = true; latency = latency } in
    commit-Tracks (committed demo alive n) now n (h ++ (p ∷ [])) (record {
      ring = push_sample-Ring p s h t.ring;
      counted = snoc_counted (s.ok + s.fail) (s.ok + 1 + s.fail) h p t.counted (omega arith);
    })
record_outcome-Tracks demo down latency now s h t =
    let n = count down latency (probed now s) in
    let p : Sample = record { ok = false; latency = 0 } in
    commit-Tracks (committed demo down n) now n (h ++ (p ∷ [])) (record {
      ring = push_sample-Ring p s h t.ring;
      counted = snoc_counted (s.ok + s.fail) (s.ok + (s.fail + 1)) h p t.counted (omega arith);
    })
record_outcome-Tracks demo unknown latency now s h t =
    let n = probed now s in
    commit-Tracks (committed demo unknown n) now n h (record { ring = t.ring; counted = t.counted })

samples_of-cons :
    (state : State) (o : Outcome) (h : List Sample) (os : List Outcome)
    → o.state ≡ state
    → with_outcome state o.latency h ++ samples_of os ≡ h ++ samples_of (o ∷ os)
unfolding samples_of
samples_of-cons alive o h os e = rw (e, samples_of) (append_assoc h _ (samples_of os))
samples_of-cons down o h os e = rw (e, samples_of) (append_assoc h _ (samples_of os))
samples_of-cons unknown o h os e = rw (e, samples_of) refl

outcomes-Tracks :
    (demo : Bool) (os : List Outcome) (s : Stat) (h : List Sample)
    → Tracks s h
    → Tracks (outcomes demo os s) (h ++ samples_of os)
unfolding outcomes samples_of
outcomes-Tracks demo [] s h t = subst (Tracks s) (sym (append_nil h)) t
outcomes-Tracks demo (o ∷ os) s h t =
    subst (Tracks (outcomes demo os (record_outcome demo o.state o.latency o.at s)))
      (samples_of-cons o.state o h os refl)
      (outcomes-Tracks demo os (record_outcome demo o.state o.latency o.at s)
        (with_outcome o.state o.latency h)
        (record_outcome-Tracks demo o.state o.latency o.at s h t))

-- The averages over the last 30 samples of a history.
unfoldable pub recent_rate : List Sample → ℕ
unfolding quotient oks
recent_rate h = quotient (oks (last_n 30 h) * 100) (length (last_n 30 h))

unfoldable pub recent_latency : List Sample → ℕ
unfolding quotient latencies oks
recent_latency h = quotient (latencies (last_n 30 h)) (oks (last_n 30 h))

quotient_zero : (n d : ℕ) → d ≡ 0 → quotient n d ≡ 0
unfolding quotient
quotient_zero n d e = rw e refl

divided : (n d : ℕ) → (d == 0) ≡ false → quotient n d ≡ n / d
unfolding quotient
divided n d e = rw e refl

quotient_le : (n d : ℕ) → n ≤ d → quotient (n * 100) d ≤ 100
unfolding quotient
quotient_le n d h = elim (Bool-cases (d == 0)) [
  | inl e ↦ rw e (omega arith)
  | inr e ↦ rw e (div-le_of_le-mul d (grind arith))
]

-- Without a sample there is nothing to average.
nothing_sampled :
    (s : Stat) (h : List Sample)
    → Tracks s h
    → s.recent_n ≡ 0
    → (success_rate_of s ≡ recent_rate h) × (avg_latency_of s ≡ recent_latency h)
unfolding success_rate_of avg_latency_of recent_rate recent_latency
nothing_sampled s h t z =
    let w = last_n 30 h in
    let n = window-length s h t.ring in
    let l = length-drop (length h - 30) h in
    let k = t.counted in
    let d = oks_le w in
    let e : (s.recent_n == 0) ≡ true = ground arith in
    (
      rw e (
          quotient_zero (s.ok * 100) (s.ok + s.fail) (omega arith)
          ∙ sym (quotient_zero (oks w * 100) (length w) (omega arith))),
      rw e (
          quotient_zero s.sum_latency s.ok (omega arith)
          ∙ sym (quotient_zero (latencies w) (oks w) (omega arith))),
    )

something_sampled :
    (s : Stat) (h : List Sample)
    → Tracks s h
    → (s.recent_n == 0) ≡ false
    → (success_rate_of s ≡ recent_rate h) × (avg_latency_of s ≡ recent_latency h)
unfolding success_rate_of avg_latency_of recent_rate recent_latency
something_sampled s h t e =
    let a = window-Agree s h t.ring in
    let n = window-length s h t.ring in
    let f : (length (last_n 30 h) == 0) ≡ false = subst (λ m. (m == 0) ≡ false) n e in
    (
      rw (e, a.rate) (ap (λ m. oks (last_n 30 h) * 100 / m) n ∙ sym (divided _ _ f)),
      rw (e, a.rate, a.sum) refl,
    )

recent_rate_le : (h : List Sample) → recent_rate h ≤ 100
unfolding recent_rate
recent_rate_le h = quotient_le (oks (last_n 30 h)) (length (last_n 30 h)) (oks_le (last_n 30 h))

fresh : (now : ℕ) → Tracks (new_stat now) []
unfolding new_stat
fresh now = record { ring = new_stat-Ring now; counted = refl }

shown :
    (s : Stat) (h : List Sample)
    → Tracks s h
    → (success_rate_of s ≡ recent_rate h) × (avg_latency_of s ≡ recent_latency h)
shown s h t = elim (Bool-cases (s.recent_n == 0)) [
  | inl e ↦ nothing_sampled s h t (ground arith)
  | inr e ↦ something_sampled s h t e
]

-- The success rate and the average latency that are shown of a target are those of its last 30 outcomes
-- that were Alive or Down, fewer while there are fewer, and 0 while there are none; the rate is at most
-- 100. The window goes round whatever the outcomes of the probes are.
pub shown_rate_is_recent :
    (demo : Bool) (now : ℕ) (os : List Outcome)
    → let s = outcomes demo os (new_stat now) in
      (success_rate_of s ≡ recent_rate (samples_of os))
      × (avg_latency_of s ≡ recent_latency (samples_of os))
      × (success_rate_of s ≤ 100)
shown_rate_is_recent demo now os =
    let s = outcomes demo os (new_stat now) in
    let t = outcomes-Tracks demo os (new_stat now) [] (fresh now) in
    let (a, b) = shown s (samples_of os) t in
    (a, b, subst (λ n. n ≤ 100) (sym a) (recent_rate_le (samples_of os)))
