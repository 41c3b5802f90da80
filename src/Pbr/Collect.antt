-- ===== src/Pbr/Collect.antt =====
-- internal/pbr/pbr.go: the loops of `Compile` over the rules and the routing lists.
pub mod Kept
pub mod Valid
use velinx.Base.{
  ℕ, String, Bool, List, [], ◌∷◌, ◌++◌, ◌&&◌, ◌||◌, not, ◌=$◌, if◌then◌else◌, Option, none, some,
  map, is_some,
}
use velinx.Go.Strings.{codes, is_empty}
use velinx.Model.{Rule, RoutingList, Profile}
use velinx.Model.Matchers.{has_source_matcher}
use velinx.Pbr.{
  EgressKind, interface, unset, Message, domain_rule, geoip_rule, remote_list, Options,
}
use velinx.Pbr.Classify.{classify_cidrs, nft_name}
use velinx.Pbr.Resolve.{egress_v4_only_posture, resolve_egress}
use velinx.Pbr.Zones.{Build, SrcSpec, warn, warn_some, add_zone}

unfoldable pub warn_if : Bool → String → Message → Build → Build
unfolding warn
warn_if c scope m b = if c then warn scope m b else b

-- The networks that are routed to a tag: of a tunnel that carries no IPv6 only those of IPv4.
unfoldable pub for_egress : Profile → EgressKind → String → List (List ℕ) → List (List ℕ)
unfolding egress_v4_only_posture classify_cidrs
for_egress p interface tag ss = if egress_v4_only_posture p tag then (classify_cidrs ss).v4 else ss
for_egress p _ tag ss = ss

unfoldable pub source_of : Profile → EgressKind → Rule → Option SrcSpec
unfolding has_source_matcher for_egress
source_of p k r =
    if has_source_matcher r
    then some (record {
      cidrs = for_egress p k r.outbound (map codes r.source_ip_cidr);
      mac = r.source_mac;
      iface = r.source_iface;
      port = r.source_port;
    })
    else none

unfoldable pub zone_rule : Options → Profile → Rule → EgressKind → Build → Build
unfolding add_zone for_egress source_of is_empty nft_name
zone_rule o p r k b =
    let cidrs = for_egress p k r.outbound (map codes r.ip_cidr) in
    let src = source_of p k r in
    if not (is_empty cidrs) || is_some src
    then add_zone o (codes "rule_" ++ nft_name (codes r.id)) r.outbound cidrs src r.id b
    else b

unfoldable pub route_rule : Options → Profile → Rule → EgressKind → Build → Build
unfolding zone_rule
route_rule o p r unset b = b
route_rule o p r k b = zone_rule o p r k b

unfoldable pub add_rule : Options → Profile → Rule → Build → Build
unfolding warn_if warn_some resolve_egress route_rule has_source_matcher is_empty
add_rule o p r b =
    let has_names =
      not (is_empty r.domain) || not (is_empty r.domain_suffix) || not (is_empty r.geo_site) in
    let b1 = warn_if has_names r.id domain_rule b in
    let b2 = warn_if (not (is_empty r.geo_ip)) r.id geoip_rule b1 in
    let to = resolve_egress p r.outbound in
    if r.disabled || r.default
    then b
    else if is_empty r.ip_cidr && not (has_source_matcher r)
    then b2
    else route_rule o p r to.kind (warn_some r.id to.warning b2)

unfoldable pub add_rules : Options → Profile → List Rule → Build → Build
unfolding add_rule
add_rules o p [] b = b
add_rules o p (r ∷ rs) b = add_rules o p rs (add_rule o p r b)

unfoldable pub zone_list :
    Options → Profile → RoutingList → List (List ℕ) → EgressKind → Build → Build
unfolding add_zone for_egress is_empty nft_name
zone_list o p l cidrs k b =
    let ss = for_egress p k l.outbound cidrs in
    if is_empty ss
    then b
    else add_zone o (codes "list_" ++ nft_name (codes l.id)) l.outbound ss none l.id b

unfoldable pub route_list :
    Options → Profile → RoutingList → List (List ℕ) → EgressKind → Build → Build
unfolding zone_list
route_list o p l cidrs unset b = b
route_list o p l cidrs k b = zone_list o p l cidrs k b

unfoldable pub add_list : Options → Profile → RoutingList → Build → Build
unfolding warn_if warn_some resolve_egress route_list is_empty
add_list o p l b =
    let b1 = warn_if (not (l.source =$ "")) l.id (remote_list l.source) b in
    let cidrs = map codes (l.manual ++ l.cidr_cache) in
    let to = resolve_egress p l.outbound in
    if not l.enabled
    then b
    else if is_empty cidrs
    then b1
    else route_list o p l cidrs to.kind (warn_some l.id to.warning b1)

unfoldable pub add_lists : Options → Profile → List RoutingList → Build → Build
unfolding add_list
add_lists o p [] b = b
add_lists o p (l ∷ ls) b = add_lists o p ls (add_list o p l b)

abbrev pub no_build : Build
no_build = record { zones = []; warns = []; used_egress = []; used_names = [] }

unfoldable pub collect : Options → Profile → Build
unfolding add_rules add_lists
collect o p = add_lists o p p.routing_lists (add_rules o p p.rules no_build)
