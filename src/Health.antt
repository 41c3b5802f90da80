-- ===== src/Health.antt =====
-- internal/health/monitor.go: the statistics of every target that is probed. Times are milliseconds, and
-- counters do not overflow; `stats` is an association list. What a probe, the Clash API, the counters
-- of an interface and the log of the engine say is the input of the operations.
pub mod Window
pub mod Flaps
pub mod Isolated
pub mod Volume
pub mod Views
pub mod Recent
mod Examples
use velinx.Base.{
  ℕ, zero, suc, ◌+◌, ◌*◌, ◌-◌, ◌%◌, String, Bool, true, false, List, [], ◌∷◌, ◌++◌, ◌&&◌, not, ◌=$◌,
  ltb, if◌then◌else◌, Option, none, some, map,
}
use velinx.Go.Strings.{is_empty}
use velinx.Model.{Endpoint, Group, Profile}
use velinx.Pbr.Resolve.{engine_amneziawg, awg_iface, param_text}

pub data State : Type 0 where
  alive down unknown : State

-- `probeSample`
pub record Sample : Type 0 where
  pub ok : Bool
  pub latency : ℕ

pub record Stat : Type 0 where
  pub name : String
  pub kind : String
  pub probes : ℕ
  pub ok : ℕ
  pub fail : ℕ
  pub sum_latency : ℕ
  pub last_latency : ℕ
  pub state : State
  pub reconnects : ℕ
  pub consec_fail : ℕ
  pub first_seen : ℕ
  pub last_change : ℕ
  pub last_probe : ℕ
  pub active_up : ℕ
  pub active_down : ℕ
  pub rate_up : ℕ
  pub rate_down : ℕ
  pub total_up : ℕ
  pub total_down : ℕ
  pub last_conn_sample : ℕ
  pub recent : List Sample
  pub recent_n : ℕ
  pub recent_pos : ℕ

abbrev pub health_window : ℕ
health_window = 30

abbrev pub flap_threshold : ℕ
flap_threshold = 2

abbrev blank_sample : Sample
blank_sample = record { ok = false; latency = 0 }

unfoldable pub repeated : ℕ → List Sample
repeated zero = []
repeated (suc n) = blank_sample ∷ repeated n

-- `s.recent[i] = p`, for an index inside of the array.
unfoldable pub set_at : ℕ → Sample → List Sample → List Sample
set_at i p [] = []
set_at zero p (x ∷ xs) = p ∷ xs
set_at (suc i) p (x ∷ xs) = x ∷ set_at i p xs

-- `pushSample`
unfoldable pub push_sample : Sample → Stat → Stat
unfolding set_at
push_sample p s = record s {
  recent = set_at s.recent_pos p s.recent;
  recent_pos = (s.recent_pos + 1) % health_window;
  recent_n = if ltb s.recent_n health_window then s.recent_n + 1 else s.recent_n;
}

unfoldable pub new_stat : ℕ → Stat
unfolding repeated
new_stat now = record {
  name = "";
  kind = "";
  probes = 0;
  ok = 0;
  fail = 0;
  sum_latency = 0;
  last_latency = 0;
  state = unknown;
  reconnects = 0;
  consec_fail = 0;
  first_seen = now;
  last_change = now;
  last_probe = 0;
  active_up = 0;
  active_down = 0;
  rate_up = 0;
  rate_down = 0;
  total_up = 0;
  total_down = 0;
  last_conn_sample = 0;
  recent = repeated health_window;
  recent_n = 0;
  recent_pos = 0;
}

-- The switch over the outcome of a probe.
unfoldable pub count : State → ℕ → Stat → Stat
unfolding push_sample
count alive latency s =
    push_sample (record { ok = true; latency = latency })
      (record s {
        ok = s.ok + 1;
        sum_latency = s.sum_latency + latency;
        last_latency = latency;
        consec_fail = 0;
      })
count down latency s =
    push_sample blank_sample (record s { fail = s.fail + 1; consec_fail = s.consec_fail + 1 })
count unknown latency s = s

unfoldable pub same_state : State → State → Bool
same_state alive alive = true
same_state down down = true
same_state unknown unknown = true
same_state _ _ = false

unfoldable pub threshold : Bool → ℕ
threshold demo = if demo then 1 else flap_threshold

-- The state that is committed, which a Down below the threshold does not change.
unfoldable pub committed : Bool → State → Stat → State
unfolding same_state threshold
committed demo state s =
    if same_state state down && ltb s.consec_fail (threshold demo) then s.state else state

unfoldable pub commit : State → ℕ → Stat → Stat
unfolding same_state
commit new now s = if same_state new s.state then s else record s {
  reconnects =
      if same_state new alive && same_state s.state down then s.reconnects + 1 else s.reconnects;
  state = new;
  last_change = now;
}

-- `record` of one target's outcome.
unfoldable pub record_outcome : Bool → State → ℕ → ℕ → Stat → Stat
unfolding count committed commit
record_outcome demo state latency now s =
    let c = count state latency (record s { probes = s.probes + 1; last_probe = now }) in
    commit (committed demo state c) now c

unfoldable pub stat_of : String → List (String × Stat) → Option Stat
stat_of k [] = none
stat_of k ((j, s) ∷ m) = let rest = stat_of k m in if j =$ k then some s else rest

-- `m.stats[id] = s`
unfoldable pub put_stat : String → Stat → List (String × Stat) → List (String × Stat)
put_stat k s [] = (k, s) ∷ []
put_stat k s ((j, t) ∷ m) =
    let rest = put_stat k s m in if j =$ k then (j, s) ∷ m else (j, t) ∷ rest

unfoldable pub stat_or_new : ℕ → Option Stat → Stat
unfolding new_stat
stat_or_new now none = new_stat now
stat_or_new now (some s) = s

unfoldable pub named : String → String → Stat → Stat
named name kind s = record s {
  name = if name =$ "" then s.name else name;
  kind = if kind =$ "" then s.kind else kind;
}

-- `record`
unfoldable pub record_probe :
    Bool → String → String → String → State → ℕ → ℕ → List (String × Stat) → List (String × Stat)
unfolding stat_of stat_or_new put_stat named record_outcome
record_probe demo id name kind state latency now m =
    put_stat id
      (record_outcome demo state latency now (named name kind (stat_or_new now (stat_of id m)))) m

-- `target`
pub record Target : Type 0 where
  pub id : String
  pub name : String
  pub kind : String
  pub test_url : String
  pub iface : List ℕ

unfoldable pub health_url : Option velinx.Model.Health → String
health_url none = ""
health_url (some h) = h.url

unfoldable pub probe_iface : Endpoint → List ℕ
unfolding param_text is_empty awg_iface
probe_iface e =
    let i = param_text "interface" e in
    if is_empty i && e.engine =$ engine_amneziawg then awg_iface e.id else i

endpoint_targets : List Endpoint → List Target
unfolding health_url probe_iface
endpoint_targets [] = []
endpoint_targets (e ∷ es) =
    let rest = endpoint_targets es in
    let t : Target = record {
      id = e.id;
      name = e.name;
      kind = "endpoint";
      test_url = health_url e.health;
      iface = probe_iface e;
    } in
    if e.enabled then t ∷ rest else rest

group_target : Group → Target
unfolding health_url
group_target g = record {
  id = g.id;
  name = g.name;
  kind = "group";
  test_url = health_url g.test;
  iface = [];
}

-- `targetsFrom`
unfoldable pub targets_from : Profile → List Target
unfolding endpoint_targets group_target
targets_from p = endpoint_targets p.endpoints ++ map group_target p.groups

-- A connection of the Clash API.
pub record Conn : Type 0 where
  pub upload : ℕ
  pub download : ℕ
  pub chains : List String

add_bytes : ℕ → ℕ → Option (ℕ × ℕ) → Option (ℕ × ℕ)
add_bytes u d none = some (u, d)
add_bytes u d (some (v, e)) = some (v + u, e + d)

along_chain : String → Conn → List String → Option (ℕ × ℕ) → Option (ℕ × ℕ)
unfolding add_bytes
along_chain id c [] sum = sum
along_chain id c (t ∷ ts) sum =
    let sum' = if t =$ id then add_bytes c.upload c.download sum else sum in
    along_chain id c ts sum'

clash_bytes : String → List Conn → Option (ℕ × ℕ) → Option (ℕ × ℕ)
unfolding along_chain
clash_bytes id [] sum = sum
clash_bytes id (c ∷ cs) sum = clash_bytes id cs (along_chain id c c.chains sum)

counted_or : Option (ℕ × ℕ) → Option (ℕ × ℕ) → Option (ℕ × ℕ)
counted_or sum none = sum
counted_or sum (some (rx, tx)) = some (tx, rx)

-- What the interface of a target has sent and received takes the place of the connections' sum.
kernel_bytes : (List ℕ → Option (ℕ × ℕ)) → String → List Target → Option (ℕ × ℕ) → Option (ℕ × ℕ)
unfolding is_empty counted_or
kernel_bytes read id [] sum = sum
kernel_bytes read id (t ∷ ts) sum =
    let counted = counted_or sum (read t.iface) in
    let mine = t.kind =$ "endpoint" && not (is_empty t.iface) && t.id =$ id in
    let sum' = if mine then counted else sum in kernel_bytes read id ts sum'

-- `agg[id]` of `sampleTraffic`: the bytes sent and received, if there are any to count.
unfoldable pub aggregate :
    List Conn → (List ℕ → Option (ℕ × ℕ)) → List Target → String → Option (ℕ × ℕ)
unfolding clash_bytes kernel_bytes
aggregate conns read tgs id = kernel_bytes read id tgs (clash_bytes id conns none)

-- `per_second` is the division of bytes by milliseconds in float64, cut to an integer.
module _ (per_second : ℕ → ℕ → ℕ) where
  -- `addCumulativeTraffic`
  unfoldable pub add_cumulative_traffic : ℕ → ℕ → ℕ → Stat → Stat
  add_cumulative_traffic sent received now s =
      let timed = ltb 0 s.last_conn_sample && ltb s.last_conn_sample now in
      let dt = now - s.last_conn_sample in
      let more_up = ltb s.active_up sent in
      let more_down = ltb s.active_down received in
      record s {
        rate_up =
            if timed
            then (if more_up then per_second (sent - s.active_up) dt else 0)
            else s.rate_up;
        total_up = if timed && more_up then s.total_up + (sent - s.active_up) else s.total_up;
        rate_down =
            if timed
            then (if more_down then per_second (received - s.active_down) dt else 0)
            else s.rate_down;
        total_down =
            if timed && more_down then s.total_down + (received - s.active_down) else s.total_down;
        active_up = sent;
        active_down = received;
        last_conn_sample = now;
      }

  -- A target that contributed nothing in this turn.
  unfoldable pub decay : ℕ → Stat → Stat
  decay now s = record s {
    rate_up = 0;
    rate_down = 0;
    active_up = 0;
    active_down = 0;
    last_conn_sample = now;
  }

  unfoldable pub sampled : ℕ → Option (ℕ × ℕ) → Stat → Stat
  unfolding add_cumulative_traffic decay
  sampled now none s = decay now s
  sampled now (some (sent, received)) s = add_cumulative_traffic sent received now s

  -- The two loops at the end of `sampleTraffic`, of which each target meets one.
  unfoldable pub sample_stats :
      ℕ → (String → Option (ℕ × ℕ)) → List (String × Stat) → List (String × Stat)
  unfolding sampled
  sample_stats now agg [] = []
  sample_stats now agg ((k, s) ∷ m) = (k, sampled now (agg k) s) ∷ sample_stats now agg m
