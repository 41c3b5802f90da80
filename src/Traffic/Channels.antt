-- ===== src/Traffic/Channels.antt =====
-- internal/traffic/ring.go: sequences of pushes, subscriptions, cancellations and receives.
use mathlib.Core.List.{append-nil, append_assoc}
use velinx.Base.{
  ℕ, zero, suc, ◌≤◌, ◌<◌, ◌≡◌, refl, sym, ◌-◌, true, false, Option, some, List, [], ◌∷◌, ◌++◌,
  arith, length, length-append, drop, map, All, last_n, ◌>>=◌, ◌==◌, if◌then◌else◌, not, ℤ, is_pos,
  to_ℕ, Bool-cases, inl, inr, ltb, ◌&&◌,
}
use velinx.Traffic.{
  Sample, Chan, Hub, chan_cap, new_hub, store, send, broadcast, push, recent_n, subscribe,
  unsubscribe, unsubscribe_all, cancel, receive,
}
use velinx.Traffic.Recent.{recent_n_lem, store-last_n}

-- A channel is closed exactly when it has left `subs`, and its queue fits.
pub record IsOpen (c : Chan) : Type 0 where
  pub open_subscribed : c.closed ≡ not c.subscribed
  pub fits : length c.queue ≤ chan_cap

send_total : (s : Sample) (c : Chan) → IsOpen c → (c' : Chan) × (send s c ≡ some c') × IsOpen c'
unfolding send
send_total s c v = elim (Bool-cases c.subscribed) [
  | inl p ↦ elim (Bool-cases (ltb (length c.queue) chan_cap)) [
    | inl q ↦ (
      record c { queue = c.queue ++ (s ∷ []) },
      ground arith,
      ground (arith, length-append c.queue (s ∷ [])),
    )
    | inr q ↦ (c, ground arith, v)
  ]
  | inr p ↦ (c, ground arith, v)
]

broadcast_total :
    (s : Sample) (cs : List Chan)
    → All IsOpen cs
    → (cs' : List Chan) × (broadcast s cs ≡ some cs') × All IsOpen cs'
unfolding broadcast
broadcast_total s [] v = ([], refl, tt)
broadcast_total s (c ∷ cs) v =
    let (c', sent, open_c) = send_total s c v.0 in
    let (cs', rest, open_cs) = broadcast_total s cs v.1 in
    (c' ∷ cs', rw (sent, rest), (open_c, open_cs))

unsubscribe_total :
    (k : ℕ) (c : Chan) → IsOpen c → (c' : Chan) × (unsubscribe k c ≡ some c') × IsOpen c'
unfolding unsubscribe
unsubscribe_total k c v = elim (Bool-cases (c.id == k && c.subscribed)) [
  | inl p ↦ (record c { subscribed = false; closed = true }, ground arith, ground arith)
  | inr p ↦ (c, ground arith, v)
]

unsubscribe_all_total :
    (k : ℕ) (cs : List Chan)
    → All IsOpen cs
    → (cs' : List Chan) × (unsubscribe_all k cs ≡ some cs') × All IsOpen cs'
unfolding unsubscribe_all
unsubscribe_all_total k [] v = ([], refl, tt)
unsubscribe_all_total k (c ∷ cs) v =
    let (c', gone, open_c) = unsubscribe_total k c v.0 in
    let (cs', rest, open_cs) = unsubscribe_all_total k cs v.1 in
    (c' ∷ cs', rw (gone, rest), (open_c, open_cs))

drop_fits : (l : List Sample) (n : ℕ) → length l ≤ n → length (drop 1 l) ≤ n
drop_fits [] n h = h
drop_fits (x ∷ l) n h = omega arith

receive-IsOpen : (k : ℕ) (cs : List Chan) → All IsOpen cs → All IsOpen (map (receive k) cs)
unfolding receive
receive-IsOpen k [] v = tt
receive-IsOpen k (c ∷ cs) v =
    (ground (arith, drop_fits c.queue chan_cap, v.0), receive-IsOpen k cs v.1)

pub data Op : Type 0 where
  pushes : Sample → Op
  subscribes : Op
  cancels receives : ℕ → Op

-- One operation of the hub or of a consumer; `none` is a panic.
unfoldable pub apply : Op → Hub → Option Hub
apply (pushes s) h = push s h
apply subscribes h = some (subscribe h).0
apply (cancels k) h = cancel k h
apply (receives k) h = some (record h { chans = map (receive k) h.chans })

unfoldable pub run : List Op → Hub → Option Hub
run [] h = some h
run (o ∷ os) h = apply o h >>= run os

-- The samples that a sequence of operations pushes, oldest first.
unfoldable pub pushed : List Op → List Sample
pushed [] = []
pushed (pushes s ∷ os) = s ∷ pushed os
pushed (_ ∷ os) = pushed os

abbrev pushed_by : Op → List Sample
pushed_by (pushes s) = s ∷ []
pushed_by _ = []

-- The hub after `past` was pushed to it.
pub record Holds (size : ℕ) (past : List Sample) (h : Hub) : Type 0 where
  pub sized : h.size ≡ size
  pub buffered : h.buf ≡ last_n size past
  pub channels : All IsOpen h.chans

apply-Holds :
    (size : ℕ) (past : List Sample) (o : Op) (h : Hub)
    → 0 < size
    → Holds size past h
    → (h' : Hub) × (apply o h ≡ some h') × Holds size (past ++ pushed_by o) h'
unfolding apply push cancel subscribe
apply-Holds size past (pushes s) h p v =
    let (cs, sent, opened) = broadcast_total s h.chans v.channels in
    (
      record h { buf = store h.size h.buf s; chans = cs },
      rw sent,
      record {
        sized = v.sized;
        buffered = rw (v.sized, v.buffered) (store-last_n size past s p);
        channels = opened;
      },
    )
apply-Holds size past subscribes h p v = (
  (subscribe h).0,
  refl,
  rw append-nil (record {
    sized = v.sized;
    buffered = v.buffered;
    channels = (record { open_subscribed = refl; fits = omega arith }, v.channels);
  }),
)
apply-Holds size past (cancels k) h p v =
    let (cs, gone, opened) = unsubscribe_all_total k h.chans v.channels in
    (
      record h { chans = cs },
      rw gone,
      rw append-nil (record { sized = v.sized; buffered = v.buffered; channels = opened }),
    )
apply-Holds size past (receives k) h p v = (
  record h { chans = map (receive k) h.chans },
  refl,
  rw append-nil (record {
    sized = v.sized;
    buffered = v.buffered;
    channels = receive-IsOpen k h.chans v.channels;
  }),
)

pushed-cons : (o : Op) (os : List Op) → pushed (o ∷ os) ≡ pushed_by o ++ pushed os
unfolding pushed
pushed-cons (pushes s) os = refl
pushed-cons _ os = refl

run-Holds :
    (size : ℕ) (past : List Sample) (os : List Op) (h : Hub)
    → 0 < size
    → Holds size past h
    → (h' : Hub) × (run os h ≡ some h') × Holds size (past ++ pushed os) h'
unfolding run
run-Holds size past [] h p v = (h, refl, unfold pushed in rw append-nil v)
run-Holds size past (o ∷ os) h p v =
    let (h1, one, v1) = apply-Holds size past o h p v in
    let (h2, rest, v2) = run-Holds size (past ++ pushed_by o) os h1 p v1 in
    (h2, rw one rest, rw (pushed-cons o os, ← append_assoc) v2)

unfoldable pub capacity : ℤ → ℕ
capacity size = if is_pos size then to_ℕ size else 300

capacity_pos : (size : ℤ) → 0 < capacity size
unfolding capacity
capacity_pos size = ground arith

drop_nil {ℓ} : {A : Type ℓ} (n : ℕ) → drop {A = A} n [] ≡ []
drop_nil zero = refl
drop_nil (suc n) = refl

new_hub-Holds : (size : ℤ) → Holds (capacity size) [] (new_hub size)
unfolding new_hub capacity
new_hub-Holds size = record {
  sized = refl;
  buffered = sym (drop_nil (0 - capacity size));
  channels = tt;
}

abbrev pub retained : ℤ → ℤ → List Sample → List Sample
retained size n past =
    let l = last_n (capacity size) past in if is_pos n then last_n (to_ℕ n) l else l

-- A new hub under any pushes, subscriptions, cancellations and receives never panics: no sample is
-- sent on a closed channel and no channel is closed twice. Afterwards the hub retains the last
-- `size` samples pushed (300 for a size that is not positive), every channel is closed exactly when
-- it is not subscribed, none holds more than 16 samples, and `RecentN n` returns the last `n` of the
-- samples retained, oldest first, and all of them for `n ≤ 0`.
pub hub_refines_history :
    (size n : ℤ) (os : List Op)
    → (h : Hub) × (run os (new_hub size) ≡ some h)
      × Holds (capacity size) (pushed os) h
      × (recent_n n h ≡ retained size n (pushed os))
hub_refines_history size n os =
    let (h, ran, v) =
      run-Holds (capacity size) [] os (new_hub size) (capacity_pos size) (new_hub-Holds size) in
    (h, ran, v, rw (recent_n_lem, v.buffered))
