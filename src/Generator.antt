-- ===== src/Generator.antt =====
-- internal/generator/singbox.go: which outbounds and rules the kernel carries instead of sing-box. A set of
-- tags is a list of them.
pub mod NativeOnly
pub mod Planes
pub mod Roots
pub mod Tests
pub mod Adopted
pub mod Covered
mod Examples
use velinx.Base.{
  ℕ, zero, suc, String, Bool, true, false, List, [], ◌∷◌, ◌++◌, ◌==◌, ◌/◌, ◌^◌, ◌&&◌, ◌||◌, not,
  ◌=$◌, if◌then◌else◌, Option, none, some, map, length,
}
use velinx.Go.Strings.{codes, is_empty, same, to_lower, trim_space, has_prefix, contains}
use velinx.Go.Ip.{Addr, parse_addr, is_ip, is_cidr}
use velinx.Model.{
  Endpoint, Group, Rule, RoutingList, Profile, endpoint_by_id, group_by_id, outbound_direct,
  outbound_block,
}
use velinx.Pbr.Resolve.{kernel_iface}
use velinx.Pbr.Zones.{has_tag}

unfoldable pub canonical_outbound : String → String
unfolding to_lower same
canonical_outbound o =
    let t = to_lower (codes o) in
    if same t (codes outbound_direct)
    then outbound_direct
    else if same t (codes outbound_block)
    then outbound_block
    else o

-- `case model.OutboundDirect, model.OutboundBlock, ""`
unfoldable pub is_action : String → Bool
is_action tag = tag =$ outbound_direct || tag =$ outbound_block || tag =$ ""

unfoldable pub is_kernel : Option Endpoint → Bool
unfolding is_empty kernel_iface
is_kernel none = false
is_kernel (some e) = not (is_empty (kernel_iface e))

unfoldable pub any_kernel : Profile → List String → Bool
unfolding is_kernel endpoint_by_id
any_kernel p [] = false
any_kernel p (m ∷ ms) = is_kernel (endpoint_by_id p m) || any_kernel p ms

unfoldable pub kernel_group : Profile → Option Group → Bool
unfolding any_kernel
kernel_group p none = false
kernel_group p (some g) = any_kernel p g.members

unfoldable pub kernel_target : Profile → Option Endpoint → Option Group → Bool
unfolding is_empty kernel_group kernel_iface
kernel_target p (some e) g = not (is_empty (kernel_iface e))
kernel_target p none g = kernel_group p g

-- `kernelEgress`
unfoldable pub kernel_egress : Profile → String → Bool
unfolding is_action kernel_target endpoint_by_id group_by_id
kernel_egress p tag =
    if is_action tag then false else kernel_target p (endpoint_by_id p tag) (group_by_id p tag)

-- `ipOnlyKernelRule`
unfoldable pub ip_only_kernel_rule : Rule → Bool
unfolding is_empty
ip_only_kernel_rule r =
    not (is_empty r.ip_cidr)
    && is_empty r.domain
    && is_empty r.domain_suffix
    && is_empty r.geo_site
    && is_empty r.geo_ip
    && is_empty r.port
    && is_empty r.source_ip_cidr
    && is_empty r.source_mac
    && is_empty r.source_iface
    && is_empty r.source_port

-- `ip.To4() != nil`, also for an IPv4 address inside of an IPv6 one.
is_v4 : Option Addr → Bool
is_v4 none = false
is_v4 (some a) = a.width == 32 || a.value / 2 ^ 32 == 65535

split_entry : List ℕ → List (List ℕ) × List (List ℕ) → List (List ℕ) × List (List ℕ)
unfolding is_empty has_prefix contains is_cidr is_ip parse_addr is_v4
split_entry e (domains, ips) =
    if is_empty e || has_prefix (codes "#") e
    then (domains, ips)
    else if contains (codes "/") e && is_cidr e
    then (domains, e ∷ ips)
    else if is_ip e
    then (domains, (e ++ codes (if is_v4 (parse_addr e) then "/32" else "/128")) ∷ ips)
    else (e ∷ domains, ips)

-- `splitDomainsIPs`
unfoldable pub split_domains_ips : List String → List (List ℕ) × List (List ℕ)
unfolding split_entry trim_space
split_domains_ips [] = ([], [])
split_domains_ips (e ∷ es) =
    let rest = split_domains_ips es in split_entry (trim_space (codes e)) rest

unfoldable pub add_root : String → List String → List String
unfolding is_action canonical_outbound has_tag
add_root tag roots =
    if is_action (canonical_outbound tag) || has_tag tag roots then roots else tag ∷ roots

-- A rule that the kernel routes as sing-box would.
unfoldable pub is_dropped_rule : Profile → Rule → Bool
unfolding kernel_egress ip_only_kernel_rule
is_dropped_rule p r = not r.default && kernel_egress p r.outbound && ip_only_kernel_rule r

unfoldable pub rule_roots : Profile → List Rule → List String → List String
unfolding is_dropped_rule add_root
rule_roots p [] roots = roots
rule_roots p (r ∷ rs) roots =
    let roots' = if r.disabled || is_dropped_rule p r then roots else add_root r.outbound roots in
    rule_roots p rs roots'

unfoldable pub is_dropped_list : Profile → RoutingList → Bool
unfolding kernel_egress split_domains_ips is_empty
is_dropped_list p l =
    let (domains, ips) = split_domains_ips l.manual in
    kernel_egress p l.outbound && l.source =$ "" && is_empty domains && not (is_empty ips)

unfoldable pub list_roots : Profile → List RoutingList → List String → List String
unfolding is_dropped_list add_root
list_roots p [] roots = roots
list_roots p (l ∷ ls) roots =
    let roots' =
      if not l.enabled || is_dropped_list p l then roots else add_root l.outbound roots in
    list_roots p ls roots'

unfoldable pub roots_of : Profile → List String
unfolding rule_roots list_roots
roots_of p = list_roots p p.routing_lists (rule_roots p p.rules [])

unfoldable pub visit_all :
    (String → List String → List String) → List String → List String → List String
visit_all go [] reach = reach
visit_all go (t ∷ ts) reach = visit_all go ts (go t reach)

unfoldable pub members_of : Option Group → List String
members_of none = []
members_of (some g) = g.members

-- `visit`, which goes down only from groups that were not reached before.
unfoldable pub visit_tag : Profile → ℕ → String → List String → List String
unfolding visit_all has_tag members_of group_by_id
visit_tag p zero tag reach = reach
visit_tag p (suc fuel) tag reach =
    let go = visit_tag p fuel in
    if has_tag tag reach then reach else visit_all go (members_of (group_by_id p tag)) (tag ∷ reach)

-- `hybridReachable`; a tag that no group has is reached with one turn more than there are groups.
unfoldable pub hybrid_reachable : Profile → List String
unfolding visit_all visit_tag roots_of
hybrid_reachable p = visit_all (visit_tag p (suc (length p.groups))) (roots_of p) []
