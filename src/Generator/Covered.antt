-- ===== src/Generator/Covered.antt =====
-- internal/generator/native_only.go: what is left without sing-box when it is not run.
use velinx.Base.{◌≡◌, ◌⊎◌, String, true, false, [], ◌=$◌, some}
use velinx.Model.{Endpoint, Rule, RoutingList, Profile}
use velinx.Pbr.{interface}
use velinx.Pbr.Resolve.{resolve_egress}
use velinx.Generator.{canonical_outbound, is_action, ip_only_kernel_rule, split_domains_ips}
use velinx.Generator.NativeOnly.{endpoint_needs_singbox, is_direct, rule_has_domain_or_geo}

-- What no sing-box is needed for: nothing, an action of every plane, or an interface of the kernel.
abbrev pub IsCarried : Profile → String → Type 0
IsCarried p tag =
    (is_action (canonical_outbound tag) ≡ true) ⊎ ((resolve_egress p tag).kind ≡ interface)

-- A rule is off, or it goes where the kernel does and has no names to match; an action apart, it has
-- nothing but networks to match and is no default.
abbrev pub RuleFits : Profile → Rule → Type 0
RuleFits p r =
    (rule_has_domain_or_geo r ≡ false)
    × ((r.default ≡ false) ⊎ (is_direct r.outbound ≡ true))
    × ((r.disabled ≡ true)
        ⊎ (is_action (canonical_outbound r.outbound) ≡ true)
        ⊎ ((r.default ≡ false)
            × ((resolve_egress p r.outbound).kind ≡ interface)
            × (ip_only_kernel_rule r ≡ true)))

-- A list is off, or it comes from no server, has no names, and goes where the kernel does.
abbrev pub ListFits : Profile → RoutingList → Type 0
ListFits p l =
    (l.enabled ≡ false)
    ⊎ (((l.source =$ "") ≡ true) × ((split_domains_ips l.manual).0 ≡ []) × IsCarried p l.outbound)

abbrev pub EndpointFits : Endpoint → Type 0
EndpointFits e = (e.enabled ≡ false) ⊎ (endpoint_needs_singbox (some e) ≡ false)
