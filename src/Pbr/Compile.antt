-- ===== src/Pbr/Compile.antt =====
-- internal/pbr/pbr.go: `Compile`.
mod Tags
pub mod Marks
pub mod Plans
pub mod Posture
pub mod Tables
use velinx.Base.{
  ℕ, ◌+◌, ◌*◌, ◌%◌, ◌^◌, String, Bool, false, List, [], ◌∷◌, ◌++◌, ◌&&◌, ◌||◌, not, ◌=$◌,
  if◌then◌else◌, Option, none, some, map,
}
use velinx.Go.Strings.{codes, is_empty}
use velinx.Go.Sort.{sort}
use velinx.Model.{Endpoint, Group, Profile, group_by_id, outbound_direct}
use velinx.Pbr.{
  EgressKind, wan, interface, Egress, Zone, no_offload_devices, unknown_offload, Warning, Flowtable,
  Plan, Options, with_defaults,
}
use velinx.Go.Same.{has_text}
use velinx.Pbr.Classify.{classify_cidrs, text_before}
use velinx.Pbr.Resolve.{kernel_iface, param_text, resolve_egress}
use velinx.Pbr.Zones.{Build, warn, warn_some}
use velinx.Pbr.Collect.{collect}

-- `bypass`, of the enabled endpoints that have an interface.
bypass_of : List Endpoint → List (List ℕ)
unfolding kernel_iface param_text is_empty
bypass_of [] = []
bypass_of (e ∷ es) =
    let rest = bypass_of es in
    let peer = param_text "endpoint_ip" e in
    let server = if e.server =$ "" then [] else codes e.server ∷ [] in
    let own = if is_empty peer then server else server ++ (peer ∷ []) in
    if not e.enabled || is_empty (kernel_iface e) then rest else own ++ rest

-- The loop of `MasqIfaces`, with the interfaces so far.
masq_from : List (List ℕ) → List Endpoint → List (List ℕ)
unfolding kernel_iface has_text is_empty
masq_from seen [] = seen
masq_from seen (e ∷ es) =
    let i = kernel_iface e in
    let skip = not e.enabled || is_empty i || has_text i seen in
    let seen' = if skip then seen else seen ++ (i ∷ []) in masq_from seen' es

is_kill_switched : Option Group → Bool
is_kill_switched none = false
is_kill_switched (some g) = g.kill_switch

fails_closed : Profile → EgressKind → String → Bool
unfolding is_kill_switched group_by_id
fails_closed p interface tag = is_kill_switched (group_by_id p tag)
fails_closed p _ tag = false

-- The egress of the `i`-th of the other tags.
unfoldable pub other_egress : Options → Profile → ℕ → String → Egress
unfolding resolve_egress fails_closed
other_egress o p i tag =
    let to = resolve_egress p tag in
    record {
      tag = tag;
      kind = to.kind;
      iface = to.iface;
      mark = (i + 2) % 2 ^ 32 * o.mark_step % 2 ^ 32;
      table = o.table_base + i;
      fail_closed = fails_closed p to.kind tag;
    }

unfoldable pub other_egresses : Options → Profile → ℕ → List String → List Egress
unfolding other_egress
other_egresses o p i [] = []
other_egresses o p i (t ∷ ts) = other_egress o p i t ∷ other_egresses o p (i + 1) ts

unfoldable pub tag_before : String → String → Bool
unfolding text_before
tag_before s t = text_before (codes s) (codes t)

unfoldable pub without_direct : List String → List String
without_direct [] = []
without_direct (t ∷ ts) =
    let rest = without_direct ts in if t =$ outbound_direct then rest else t ∷ rest

unfoldable pub other_tags : Build → List String
unfolding without_direct sort tag_before
other_tags b = sort tag_before (without_direct b.used_egress)

abbrev pub wan_egress : Options → Egress
wan_egress o = record {
  tag = outbound_direct;
  kind = wan;
  iface = [];
  mark = o.mark_step;
  table = o.wan_table;
  fail_closed = false;
}

unfoldable pub egresses_of : Options → Profile → Build → List Egress
unfolding other_egresses other_tags
egresses_of o p b = wan_egress o ∷ other_egresses o p 0 (other_tags b)

-- The warnings of the second `resolveEgress` of every tag.
warn_egresses : Profile → List String → Build → Build
unfolding resolve_egress warn_some
warn_egresses p [] b = b
warn_egresses p (t ∷ ts) b = warn_egresses p ts (warn_some t (resolve_egress p t).warning b)

-- `markByTag[t]`, to which a later egress writes over an earlier one: 0 for a tag that has none.
unfoldable pub mark_in : ℕ → List Egress → String → ℕ
mark_in last [] t = last
mark_in last (e ∷ es) t = let last' = if e.tag =$ t then e.mark else last in mark_in last' es t

unfoldable pub mark_zone : List Egress → Zone → Zone
unfolding mark_in
mark_zone es z = record z { mark = mark_in 0 es z.egress_tag }

unfoldable pub zone_before : Zone → Zone → Bool
unfolding text_before
zone_before y z = text_before y.name z.name

unfoldable pub marked : List Egress → List Zone → List Zone
unfolding mark_zone sort zone_before
marked es zs = sort zone_before (map (mark_zone es) zs)

unfoldable pub flowtable_of : Options → Option Flowtable
unfolding sort tag_before is_empty
flowtable_of o =
    if (o.offload =$ "sw" || o.offload =$ "hw") && not (is_empty o.offload_devices)
    then some (record { devices = sort tag_before o.offload_devices; hw = o.offload =$ "hw" })
    else none

warn_offload : Options → Build → Build
unfolding warn is_empty
warn_offload o b =
    if o.offload =$ "sw" || o.offload =$ "hw"
    then (if is_empty o.offload_devices then warn "offload" no_offload_devices b else b)
    else if o.offload =$ "" || o.offload =$ "off"
    then b
    else warn "offload" (unknown_offload o.offload) b

unfoldable pub plan_of : Options → Profile → Build → Plan
unfolding egresses_of marked classify_cidrs bypass_of masq_from flowtable_of
plan_of o p b =
    let bypass = classify_cidrs (bypass_of p.endpoints) in
    record {
      table = o.table;
      mask = o.mark_mask;
      egresses = egresses_of o p b;
      zones = marked (egresses_of o p b) b.zones;
      bypass_v4 = bypass.v4;
      bypass_v6 = bypass.v6;
      flowtable = flowtable_of o;
      masq_ifaces = masq_from [] p.endpoints;
    }

unfoldable pub compile_for : Options → Profile → Plan × List Warning
unfolding plan_of warn_egresses warn_offload other_tags collect
compile_for o p =
    let b = collect o p in
    (plan_of o p b, (warn_offload o (warn_egresses p (other_tags b) b)).warns)

-- `none` is the error of a profile that is nil.
unfoldable pub compile : Option Profile → Options → Option (Plan × List Warning)
unfolding compile_for with_defaults
compile none o = none
compile (some p) o = some (compile_for (with_defaults o) p)
