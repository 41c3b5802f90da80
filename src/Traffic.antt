-- ===== src/Traffic.antt =====
-- internal/traffic/ring.go: the buffer of recent samples and its subscribers. A channel is a queue of
-- at most 16 samples with its `closed` state, and stays in the model after it leaves `subs`, so that
-- a send or a second close on a closed channel is a panic here too: `none`.
pub mod Recent
pub mod Channels
mod Examples
use velinx.Base.{
  ℕ, ◌+◌, ◌-◌, Bool, true, false, Option, none, some, List, [], ◌∷◌, ◌++◌, ◌&&◌, leb, ltb, ◌==◌,
  if◌then◌else◌, length, take, drop, ℤ, pos, is_pos, to_ℕ, map,
}

pub record Sample : Type 0 where
  pub t : ℕ
  pub up : ℕ
  pub down : ℕ

pub record Chan : Type 0 where
  pub id : ℕ
  pub queue : List Sample
  pub subscribed : Bool
  pub closed : Bool

pub record Hub : Type 0 where
  pub buf : List Sample
  pub size : ℕ
  pub chans : List Chan
  pub next_id : ℕ

abbrev pub chan_cap : ℕ
chan_cap = 16

unfoldable pub new_hub : ℤ → Hub
new_hub size = record {
  buf = [];
  size = if is_pos size then to_ℕ size else 300;
  chans = [];
  next_id = 0;
}

-- `copy(h.buf, h.buf[1:])` leaves the last element where it is.
shift : List Sample → List Sample
shift [] = []
shift (x ∷ []) = x ∷ []
shift (x ∷ y ∷ l) = y ∷ shift (y ∷ l)

unfoldable pub store : ℕ → List Sample → Sample → List Sample
unfolding shift
store size buf s = (if leb size (length buf) then take (size - 1) (shift buf) else buf) ++ (s ∷ [])

-- The non-blocking send of one sample to one channel of `subs`; others are not sent to.
unfoldable pub send : Sample → Chan → Option Chan
send s c =
    if c.subscribed
    then (if c.closed
        then none
        else some
            (if ltb (length c.queue) chan_cap then record c { queue = c.queue ++ (s ∷ []) } else c))
    else some c

cons_if : Option Chan → Option (List Chan) → Option (List Chan)
cons_if (some c) (some cs) = some (c ∷ cs)
cons_if _ _ = none

unfoldable pub broadcast : Sample → List Chan → Option (List Chan)
unfolding cons_if
broadcast s [] = some []
broadcast s (c ∷ cs) = cons_if (send s c) (broadcast s cs)

with_chans : Hub → Option (List Chan) → Option Hub
with_chans h none = none
with_chans h (some cs) = some (record h { chans = cs })

unfoldable pub push : Sample → Hub → Option Hub
unfolding store with_chans
push s h = with_chans (record h { buf = store h.size h.buf s }) (broadcast s h.chans)

unfoldable pub recent_n : ℤ → Hub → List Sample
recent_n n h =
    let len = length h.buf in drop (if is_pos n && ltb (to_ℕ n) len then len - to_ℕ n else 0) h.buf

unfoldable pub recent : Hub → List Sample
unfolding recent_n
recent h = recent_n (pos 0) h

unfoldable pub subscribe : Hub → Hub × ℕ
subscribe h = (
  record h {
    chans = record { id = h.next_id; queue = []; subscribed = true; closed = false } ∷ h.chans;
    next_id = h.next_id + 1;
  },
  h.next_id,
)

-- `cancel` of one channel: out of `subs`, then closed; nothing if it left `subs` before.
unfoldable pub unsubscribe : ℕ → Chan → Option Chan
unsubscribe k c =
    if c.id == k && c.subscribed
    then (if c.closed then none else some (record c { subscribed = false; closed = true }))
    else some c

unfoldable pub unsubscribe_all : ℕ → List Chan → Option (List Chan)
unfolding cons_if
unsubscribe_all k [] = some []
unsubscribe_all k (c ∷ cs) = cons_if (unsubscribe k c) (unsubscribe_all k cs)

unfoldable pub cancel : ℕ → Hub → Option Hub
unfolding with_chans
cancel k h = with_chans h (unsubscribe_all k h.chans)

-- A receive on a channel by its consumer.
unfoldable pub receive : ℕ → Chan → Chan
receive k c = if c.id == k then record c { queue = drop 1 c.queue } else c
