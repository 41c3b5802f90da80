-- ===== src/Generator/Adopted.antt =====
-- internal/generator/native_only.go: destinations of IPv6 and adopted interfaces.
use velinx.Base.{◌≡◌, ◌⊎◌, inl, inr, String, true, false, List, ◌&&◌, ◌||◌, not, ◌=$◌, All, All-map}
use velinx.Go.Strings.{codes, contains}
use velinx.Model.{engine_external, RoutingList, Profile}
use velinx.Generator.NativeOnly.{each, has_external, has_no_v6, any_v6_cidr}
use velinx.Generator.Tests.{both, all_of, unnegated, or_cases, none_of, and_cases, neither}

abbrev pub NoV6 : List String → Type 0
NoV6 cidrs = All (λ c. contains (codes ":") (codes c) ≡ false) cidrs

-- No interface that is on was adopted from the system, or nothing is routed by an address of IPv6.
abbrev pub V6Fits : Profile → Type 0
V6Fits p =
    All (λ e. (e.enabled ≡ false) ⊎ ((e.engine =$ engine_external) ≡ false)) p.endpoints
    ⊎ (All (λ r. NoV6 r.ip_cidr) p.rules
        × All (λ l. (l.enabled ≡ false) ⊎ (NoV6 l.manual × NoV6 l.cidr_cache)) p.routing_lists)

no_v6 : (cidrs : List String) → any_v6_cidr cidrs ≡ false → NoV6 cidrs
unfolding any_v6_cidr
no_v6 cidrs h = none_of (λ c. contains (codes ":") (codes c)) cidrs h

list_v6 :
    (l : RoutingList)
    → not (l.enabled && (any_v6_cidr l.manual || any_v6_cidr l.cidr_cache)) ≡ true
    → (l.enabled ≡ false) ⊎ (NoV6 l.manual × NoV6 l.cidr_cache)
list_v6 l h =
    elim (and_cases l.enabled (any_v6_cidr l.manual || any_v6_cidr l.cidr_cache) (unnegated _ h)) [
      | inl off ↦ inl off
      | inr k ↦
          let (a, b) = neither (any_v6_cidr l.manual) (any_v6_cidr l.cidr_cache) k in
          inr (no_v6 l.manual a, no_v6 l.cidr_cache b)
    ]

pub v6_fits : (p : Profile) → (not (has_external p.endpoints) || has_no_v6 p) ≡ true → V6Fits p
unfolding has_external has_no_v6
v6_fits p h = elim (or_cases (has_external p.endpoints) (has_no_v6 p) h) [
  | inl n ↦ inl (
      All-map p.endpoints (λ e k. and_cases e.enabled (e.engine =$ engine_external) k)
        (none_of (λ e. e.enabled && e.engine =$ engine_external) p.endpoints n))
  | inr k ↦
      let (a, b) = both (each (λ r. not (any_v6_cidr r.ip_cidr)) p.rules) _ k in
      inr (
        All-map p.rules (λ r q. no_v6 r.ip_cidr (unnegated _ q))
            (all_of (λ r. not (any_v6_cidr r.ip_cidr)) p.rules a),
        All-map p.routing_lists list_v6 (all_of _ p.routing_lists b),
      )
]
