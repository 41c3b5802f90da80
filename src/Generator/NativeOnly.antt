-- ===== src/Generator/NativeOnly.antt =====
-- internal/generator/native_only.go: whether a profile can do without sing-box.
use velinx.Base.{
  ℕ, ◌+◌, String, Bool, true, false, List, [], ◌∷◌, ◌&&◌, ◌||◌, not, ◌=$◌, ltb, if◌then◌else◌,
  Option, none, some,
}
use velinx.Go.Strings.{codes, is_empty, contains}
use velinx.Go.Sort.{any}
use velinx.Model.{
  Endpoint, Rule, RoutingList, Profile, engine_external, proto_wireguard, outbound_direct,
}
use velinx.Pbr.Resolve.{engine_amneziawg}
use velinx.Generator.{canonical_outbound, split_domains_ips, hybrid_reachable}

abbrev pub engine_singbox : String
engine_singbox = "singbox"

-- `EndpointNeedsSingbox`
unfoldable pub endpoint_needs_singbox : Option Endpoint → Bool
endpoint_needs_singbox none = true
endpoint_needs_singbox (some e) =
    if e.engine =$ engine_external || e.engine =$ engine_amneziawg
    then false
    else if e.engine =$ engine_singbox
    then not (e.protocol =$ proto_wireguard)
    else true

-- The loop of `ProfileNativeOnly`, with `enabled` so far.
unfoldable pub native_from : ℕ → List Endpoint → Bool
unfolding endpoint_needs_singbox
native_from n [] = ltb 0 n
native_from n (e ∷ es) =
    let skipped = native_from n es in
    let counted = native_from (n + 1) es in
    if not e.enabled then skipped else if endpoint_needs_singbox (some e) then false else counted

-- `ProfileNativeOnly`
unfoldable pub profile_native_only : Option Profile → Bool
unfolding native_from
profile_native_only none = false
profile_native_only (some p) = native_from 0 p.endpoints

unfoldable pub each {ℓ} : {A : Type ℓ} → (A → Bool) → List A → Bool
each test [] = true
each test (x ∷ xs) = test x && each test xs

unfoldable pub is_direct : String → Bool
unfolding canonical_outbound
is_direct o = canonical_outbound o =$ outbound_direct || canonical_outbound o =$ ""

unfoldable pub default_fits : Rule → Bool
unfolding is_direct
default_fits r = not r.default || is_direct r.outbound

-- `ruleHasDomainOrGeo`
unfoldable pub rule_has_domain_or_geo : Rule → Bool
unfolding is_empty
rule_has_domain_or_geo r =
    not (is_empty r.domain)
    || not (is_empty r.domain_suffix)
    || not (is_empty r.geo_site)
    || not (is_empty r.geo_ip)

unfoldable pub list_fits : RoutingList → Bool
unfolding split_domains_ips is_empty
list_fits l = not l.enabled || l.source =$ "" && is_empty (split_domains_ips l.manual).0

-- `anyV6CIDR`
unfoldable pub any_v6_cidr : List String → Bool
unfolding any contains
any_v6_cidr cidrs = any (λ c. contains (codes ":") (codes c)) cidrs

unfoldable pub has_external : List Endpoint → Bool
unfolding any
has_external es = any (λ e. e.enabled && e.engine =$ engine_external) es

unfoldable pub has_no_v6 : Profile → Bool
unfolding each any_v6_cidr
has_no_v6 p =
    each (λ r. not (any_v6_cidr r.ip_cidr)) p.rules
    && each (λ l. not (l.enabled && (any_v6_cidr l.manual || any_v6_cidr l.cidr_cache)))
        p.routing_lists

-- `DatapathNativeOnly`
unfoldable pub datapath_native_only : Option Profile → String → Bool
unfolding profile_native_only each default_fits hybrid_reachable is_empty rule_has_domain_or_geo
    list_fits has_external has_no_v6
datapath_native_only none mode = false
datapath_native_only (some p) mode =
    profile_native_only (some p)
    && mode =$ "fast"
    && each default_fits p.rules
    && is_empty (hybrid_reachable p)
    && each (λ r. not (rule_has_domain_or_geo r)) p.rules
    && each list_fits p.routing_lists
    && (not (has_external p.endpoints) || has_no_v6 p)
