-- ===== src/Pbr/Compile/Posture.antt =====
-- internal/pbr/pbr.go: the zones of a tunnel that carries no IPv6.
use velinx.Base.{
  Bool-cases, inl, inr, ◌≡◌, refl, ◌∙◌, String, Bool, true, List, [], Option, none, some, ℕ, All,
  All-snoc, All-Elem, Elem, subst, ap, false, ◌∷◌, ◌⊎◌, map, ◌=$◌, if◌then◌else◌, not, arith,
}
use velinx.Go.Sort.{All-sort}
use velinx.Model.{Any, items, Endpoint, Profile, endpoint_by_id, engine_external}
use velinx.Model.Params.{lookup}
use velinx.Go.Strings.{codes, contains}
use velinx.Pbr.{EgressKind, interface, Zone, Plan, Options, Warning, Message, with_defaults}
use velinx.Pbr.Classify.{classify_cidrs}
use velinx.Pbr.Classify.OnlyV4.{classify_cidrs-OnlyV4}
use velinx.Pbr.Resolve.{
  engine_amneziawg, resolve_egress, egress_v4_only_posture, is_external_endpoint, has_engine,
  v4_only_wireguard, local_addr_declares_v6, addresses, any_colon,
}
use velinx.Pbr.Zones.{
  is_scoped, Build, SrcSpec, Matched, warn, enter_zone, zone_of, matched, match_source,
}
use velinx.Pbr.Collect.{collect, no_build, for_egress}
use velinx.Pbr.Collect.Kept.{add_rules-kept, add_lists-kept}
use velinx.Pbr.Compile.{compile, plan_of, marked, mark_zone, zone_before, egresses_of}
use velinx.Pbr.Compile.Plans.{compile-eq, All-mark}

module _ (o : Options) (p : Profile) where
  -- A zone of a tag that is a tunnel without IPv6 has no IPv6 destination.
  abbrev Strips : Zone → Type 0
  Strips z =
      (resolve_egress p z.egress_tag).kind ≡ interface
      → egress_v4_only_posture p z.egress_tag ≡ true
      → z.v6 ≡ []

  match_source-v6 : (src : Option SrcSpec) (m : Matched) → (match_source src m).v6 ≡ m.v6
  unfolding match_source
  match_source-v6 none m = refl
  match_source-v6 (some src) m = elim (Bool-cases (is_scoped (classify_cidrs src.cidrs) src)) [
    | inl e ↦ rw (e, match_source) refl
    | inr e ↦ rw (e, match_source) refl
  ]

  matched-v6 :
      (collect : Bool) (ss : List (List ℕ)) (src : Option SrcSpec)
      → (matched collect ss src).v6 ≡ (classify_cidrs ss).v6
  unfolding matched
  matched-v6 collect ss src = match_source-v6 src _

  for_egress-OnlyV4 :
      (k : EgressKind) (tag : String) (ss : List (List ℕ))
      → k ≡ interface
      → egress_v4_only_posture p tag ≡ true
      → (classify_cidrs (for_egress p k tag ss)).v6 ≡ []
  unfolding for_egress
  for_egress-OnlyV4 k tag ss e h = rw (e, for_egress, h) (classify_cidrs-OnlyV4 ss)

  abbrev Stripped : Build → Type 0
  Stripped b = All Strips b.zones

  warn-Stripped :
      (scope : String) (m : Message) (b : Build) → Stripped b → Stripped (warn scope m b)
  unfolding warn
  warn-Stripped scope m b h = h

  enter-Stripped :
      (name : List ℕ) (tag scope : String) (ss : List (List ℕ)) (src : Option SrcSpec) (b : Build)
      → Stripped b
      → Stripped (
          enter_zone name tag
            (matched o.collect_domain_zones (for_egress p (resolve_egress p tag).kind tag ss) src)
            scope
            b)
  unfolding enter_zone zone_of warn
  enter-Stripped name tag scope ss src b h =
      All-snoc Strips b.zones _ h
        (λ k v. matched-v6 o.collect_domain_zones _ src ∙ for_egress-OnlyV4 _ tag ss k v)

  collect-Stripped : Stripped (collect o p)
  unfolding collect
  collect-Stripped =
      add_lists-kept o p Stripped warn-Stripped enter-Stripped p.routing_lists _
        (add_rules-kept o p Stripped warn-Stripped enter-Stripped p.rules no_build tt)

compile-posture :
    (p : Profile) (o : Options) (plan : Plan) (ws : List Warning) (z : Zone)
    → compile (some p) o ≡ some (plan, ws)
    → Elem z plan.zones
    → (resolve_egress p z.egress_tag).kind ≡ interface
    → egress_v4_only_posture p z.egress_tag ≡ true
    → z.v6 ≡ []
unfolding plan_of marked mark_zone
compile-posture p o plan ws z c i k v =
    let d = with_defaults o in
    let es = egresses_of d p (collect d p) in
    let all : All (Strips d p) (plan_of d p (collect d p)).zones =
      All-sort zone_before (Strips d p) _ (All-mark es (Strips d p) _ (collect-Stripped d p)) in
    let e = compile-eq p o plan ws c in
    All-Elem (Strips d p) z _ all (subst (λ q. Elem z q.zones) e i) k v

-- The addresses that an endpoint declares are texts, at least one, and none of them is one of IPv6.
abbrev pub DeclaresV4 : Option Any → Type 0
DeclaresV4 a =
    (x : String) × (xs : List String) × (s : String) × (a ≡ some (items (some x ∷ map some xs) s))
    × All (λ t. contains (codes ":") (codes t) ≡ false) (x ∷ xs)

-- An interface that was adopted from the system, or an AmneziaWG tunnel with IPv4 addresses alone.
abbrev pub IsV4Only : Endpoint → Type 0
IsV4Only e =
    (e.engine ≡ engine_external)
    ⊎ ((e.engine ≡ engine_amneziawg) × DeclaresV4 (lookup "local_address" e.params))

addresses-map :
    (xs : List String) (s : String) → addresses (some (items (map some xs) s)) ≡ map codes xs
unfolding addresses
addresses-map [] s = refl
addresses-map (x ∷ xs) s = ap (λ l. codes x ∷ l) (addresses-map xs s)

no_colon :
    (xs : List String)
    → All (λ t. contains (codes ":") (codes t) ≡ false) xs
    → any_colon (map codes xs) ≡ false
unfolding any_colon
no_colon [] h = refl
no_colon (x ∷ xs) h = let a = h.0 in let b = no_colon xs h.1 in ground arith

wireguard-V4 :
    (e : Endpoint)
    → e.engine ≡ engine_amneziawg
    → DeclaresV4 (lookup "local_address" e.params)
    → v4_only_wireguard (some e) ≡ true
unfolding v4_only_wireguard local_addr_declares_v6 any_colon
wireguard-V4 e w (x, xs, s, q, h) = rw (w, q, addresses-map xs s) (ap not (no_colon (x ∷ xs) h))

or_else : (a b : Bool) → b ≡ true → (if a then true else b) ≡ true
or_else true b h = refl
or_else false b h = h

posture-V4 :
    (e : Endpoint) (o : Option Endpoint)
    → o ≡ some e
    → IsV4Only e
    → (if has_engine engine_external o then true else v4_only_wireguard o) ≡ true
unfolding has_engine
posture-V4 e o q v = elim v [
  | inl x ↦ rw (q, x) refl
  | inr (w, d) ↦ rw q (or_else (e.engine =$ engine_external) _ (wireguard-V4 e w d))
]

posture-of :
    (p : Profile) (tag : String) (e : Endpoint)
    → endpoint_by_id p tag ≡ some e
    → IsV4Only e
    → egress_v4_only_posture p tag ≡ true
unfolding egress_v4_only_posture is_external_endpoint
posture-of p tag e q v = posture-V4 e (endpoint_by_id p tag) q v

-- A zone of a plan that is routed to an endpoint has no IPv6 destinations when the endpoint is an interface
-- adopted from the system, or an AmneziaWG tunnel that declares addresses and none of IPv6: no IPv6
-- packet is marked for it by its destination. Zones that are routed to a group are not meant.
pub compile-strips :
    (p : Profile) (o : Options) (plan : Plan) (ws : List Warning) (z : Zone) (e : Endpoint)
    → compile (some p) o ≡ some (plan, ws)
    → Elem z plan.zones
    → (resolve_egress p z.egress_tag).kind ≡ interface
    → endpoint_by_id p z.egress_tag ≡ some e
    → IsV4Only e
    → z.v6 ≡ []
compile-strips p o plan ws z e c i k q v =
    compile-posture p o plan ws z c i k (posture-of p z.egress_tag e q v)
