-- ===== src/Health/Views.antt =====
-- internal/health/monitor.go: `toView`, `Snapshot` and the cached cause of a failure.
use velinx.Base.{
  ℕ, ◌+◌, ◌*◌, ◌-◌, ◌/◌, ◌==◌, String, Bool, true, false, List, [], ◌∷◌, ◌&&◌, ◌||◌, not, ◌=$◌, ltb,
  leb, if◌then◌else◌, Option, none, some, ℤ, pos, negsuc, take,
}
use velinx.Model.{Group, Profile, outbound_direct}
use velinx.Health.{
  State, alive, down, unknown, Sample, Stat, Target, same_state, stat_of, targets_from,
}

pub data Handshake : Type 0 where
  done failed unsure : Handshake

pub record View : Type 0 where
  pub id : String
  pub name : String
  pub kind : String
  pub state : State
  pub handshake : Handshake
  pub latency_ms : ℕ
  pub avg_latency_ms : ℕ
  pub success_rate : ℕ
  pub probes : ℕ
  pub reconnects : ℕ
  pub uptime_s : ℤ
  pub rate_up_bps : ℕ
  pub rate_down_bps : ℕ
  pub bytes_up : ℕ
  pub bytes_down : ℕ
  pub cause : String
  pub cause_fix : String

unfoldable pub oks : List Sample → ℕ
oks [] = 0
oks (p ∷ ps) = let n = oks ps in if p.ok then n + 1 else n

unfoldable pub latencies : List Sample → ℕ
latencies [] = 0
latencies (p ∷ ps) = let n = latencies ps in if p.ok then n + p.latency else n

-- The division of Go, and 0 where the source does not divide.
unfoldable pub quotient : ℕ → ℕ → ℕ
quotient n d = if d == 0 then 0 else n / d

-- The valid part of the window.
unfoldable pub window : Stat → List Sample
window s = take s.recent_n s.recent

unfoldable pub success_rate_of : Stat → ℕ
unfolding oks quotient window
success_rate_of s =
    if s.recent_n == 0
    then quotient (s.ok * 100) (s.ok + s.fail)
    else oks (window s) * 100 / s.recent_n

unfoldable pub avg_latency_of : Stat → ℕ
unfolding oks latencies quotient window
avg_latency_of s =
    if s.recent_n == 0
    then quotient s.sum_latency s.ok
    else quotient (latencies (window s)) (oks (window s))

unfoldable pub handshake_of : State → Handshake
handshake_of alive = done
handshake_of down = failed
handshake_of unknown = unsure

-- `(a - b) / 1000` in seconds, cut towards zero, of a clock that may have been set back.
unfoldable pub seconds : ℕ → ℕ → ℤ
seconds a b =
    if leb b a
    then pos ((a - b) / 1000)
    else if (b - a) / 1000 == 0
    then pos 0
    else negsuc ((b - a) / 1000 - 1)

unfoldable pub uptime_of : ℕ → Stat → ℤ
unfolding seconds same_state
uptime_of now s = if same_state s.state alive then seconds now s.last_change else pos 0

-- `toView`
unfoldable pub to_view : String → Option Stat → ℕ → View
unfolding handshake_of success_rate_of avg_latency_of uptime_of
to_view id none now = record {
  id = id;
  name = "";
  kind = "";
  state = unknown;
  handshake = unsure;
  latency_ms = 0;
  avg_latency_ms = 0;
  success_rate = 0;
  probes = 0;
  reconnects = 0;
  uptime_s = pos 0;
  rate_up_bps = 0;
  rate_down_bps = 0;
  bytes_up = 0;
  bytes_down = 0;
  cause = "";
  cause_fix = "";
}
to_view id (some s) now = record {
  id = id;
  name = s.name;
  kind = s.kind;
  state = s.state;
  handshake = handshake_of s.state;
  latency_ms = s.last_latency;
  avg_latency_ms = avg_latency_of s;
  success_rate = success_rate_of s;
  probes = s.probes;
  reconnects = s.reconnects;
  uptime_s = uptime_of now s;
  rate_up_bps = s.rate_up;
  rate_down_bps = s.rate_down;
  bytes_up = s.total_up;
  bytes_down = s.total_down;
  cause = "";
  cause_fix = "";
}

labelled : Target → View → View
labelled t v = record v {
  name = if v.name =$ "" then t.name else v.name;
  kind = if v.kind =$ "" then t.kind else v.kind;
}

unfoldable pub views_of : ℕ → List (String × Stat) → List Target → List View
unfolding to_view labelled stat_of
views_of now stats [] = []
views_of now stats (t ∷ ts) =
    labelled t (to_view t.id (stat_of t.id stats) now) ∷ views_of now stats ts

-- `stateByID[id]`, to which a later view writes over an earlier one.
unfoldable pub state_in : Option State → String → List View → Option State
state_in last id [] = last
state_in last id (v ∷ vs) =
    let last' = if v.id =$ id then some v.state else last in state_in last' id vs

unfoldable pub is_state : State → Option State → Bool
unfolding same_state
is_state s none = false
is_state s (some t) = same_state s t

unfoldable pub is_alive_member : List View → String → Bool
unfolding is_state state_in
is_alive_member vs m = m =$ outbound_direct || is_state alive (state_in none m vs)

unfoldable pub any_alive : List View → List String → Bool
unfolding is_alive_member
any_alive vs [] = false
any_alive vs (m ∷ ms) = is_alive_member vs m || any_alive vs ms

unfoldable pub any_down : List View → List String → Bool
unfolding is_alive_member is_state state_in
any_down vs [] = false
any_down vs (m ∷ ms) =
    (not (is_alive_member vs m) && is_state down (state_in none m vs)) || any_down vs ms

unfoldable pub derived : Bool → Bool → View → View
derived true d v = record v { state = alive; handshake = done }
derived false true v = record v { state = down; handshake = failed }
derived false false v = record v { state = unknown }

-- The health of one group, from the states before any group was derived.
unfoldable pub derive_group : List View → Group → List View → List View
unfolding any_alive any_down derived
derive_group before g [] = []
derive_group before g (v ∷ vs) =
    let rest = derive_group before g vs in
    (if v.id =$ g.id then derived (any_alive before g.members) (any_down before g.members) v else v)
    ∷ rest

unfoldable pub derive_groups : List View → List Group → List View → List View
unfolding derive_group
derive_groups before [] vs = vs
derive_groups before (g ∷ gs) vs = derive_groups before gs (derive_group before g vs)

-- `views[idx[id]]`: the last view of the id.
unfoldable pub view_in : Option View → String → List View → Option View
view_in last id [] = last
view_in last id (v ∷ vs) = let last' = if v.id =$ id then some v else last in view_in last' id vs

has_no_traffic : View → Bool
has_no_traffic v =
    v.bytes_up == 0 && v.bytes_down == 0 && v.rate_up_bps == 0 && v.rate_down_bps == 0

add_traffic : Option View → View → View
add_traffic none v = v
add_traffic (some w) v = record v {
  bytes_up = v.bytes_up + w.bytes_up;
  bytes_down = v.bytes_down + w.bytes_down;
  rate_up_bps = v.rate_up_bps + w.rate_up_bps;
  rate_down_bps = v.rate_down_bps + w.rate_down_bps;
}

-- The sum over the members. A member that is the group itself counts what was summed so far.
sum_members : String → List View → List String → View → View
unfolding add_traffic view_in
sum_members self vs [] v = v
sum_members self vs (m ∷ ms) v =
    let member = if m =$ self then some v else view_in none m vs in
    sum_members self vs ms (add_traffic member v)

replace_last : String → View → List View → List View × Bool
replace_last id w [] = ([], false)
replace_last id w (v ∷ vs) =
    let (rest, found) = replace_last id w vs in
    if found then (v ∷ rest, true) else if v.id =$ id then (w ∷ rest, true) else (v ∷ rest, false)

fill_group : Group → List View → List View
unfolding view_in has_no_traffic sum_members replace_last
fill_group g vs = elim (view_in none g.id vs) [
  | none ↦ vs
  | some v ↦
      if has_no_traffic v then (replace_last g.id (sum_members g.id vs g.members v) vs).0 else vs
]

unfoldable pub fill_groups : List Group → List View → List View
unfolding fill_group
fill_groups [] vs = vs
fill_groups (g ∷ gs) vs = fill_groups gs (fill_group g vs)

unfoldable pub explain : String × String → List View → List View
unfolding same_state
explain (cause, fix) [] = []
explain (cause, fix) (v ∷ vs) =
    let rest = explain (cause, fix) vs in
    (if same_state v.state down then record v { cause = cause; cause_fix = fix } else v) ∷ rest

-- `Snapshot`, with what `causeFor` says.
unfoldable pub snapshot : Profile → List (String × Stat) → ℕ → String × String → List View
unfolding views_of targets_from derive_groups fill_groups explain
snapshot p stats now cause =
    let views = views_of now stats (targets_from p) in
    explain cause (fill_groups p.groups (derive_groups views p.groups views))

pub record Cause : Type 0 where
  pub title : String
  pub fix : String
  pub expires : ℕ

-- `causeFor`, with what a scan of the log would derive.
unfoldable pub cause_for : ℕ → String × String → Cause → Cause
cause_for now (title, fix) c =
    if ltb now c.expires then c else record { title = title; fix = fix; expires = now + 30000 }
