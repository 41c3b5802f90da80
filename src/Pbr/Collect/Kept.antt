-- ===== src/Pbr/Collect/Kept.antt =====
-- internal/pbr/pbr.go: what holds of the zones that `Compile` collects, from what a warning and a new zone
-- keep.
use velinx.Base.{
  ◌≡◌, refl, subst, String, Bool, true, false, List, [], ◌∷◌, ◌++◌, ◌&&◌, ◌||◌, not, ◌=$◌,
  if◌then◌else◌, Option, none, some, ℕ, map, is_some,
}
use velinx.Go.Strings.{codes, is_empty}
use velinx.Model.{Rule, RoutingList, Profile}
use velinx.Model.Matchers.{has_source_matcher}
use velinx.Pbr.{
  EgressKind, wan, interface, blackhole, unset, Message, domain_rule, geoip_rule, remote_list,
  Options,
}
use velinx.Pbr.Classify.{classify_cidrs, nft_name}
use velinx.Pbr.Resolve.{resolve_egress}
use velinx.Pbr.Zones.{
  Build, SrcSpec, warn, warn_some, warn_skipped, matched, matches_nothing, enter_zone, add_zone,
}
use velinx.Pbr.Collect.{
  warn_if, for_egress, source_of, zone_rule, route_rule, add_rule, add_rules, zone_list, route_list,
  add_list, add_lists,
}

-- Either branch of a conditional.
either {ℓ κ} :
    {A : Type ℓ} (Q : A → Type κ) (c : Bool) {x y : A} → Q x → Q y → Q (if c then x else y)
either Q true p q = p
either Q false p q = q

module _ (o : Options) (p : Profile) (Q : Build → Type 0)
    (on_warn : (scope : String) (m : Message) (b : Build) → Q b → Q (warn scope m b))
    (on_enter : (name : List ℕ) (tag scope : String) (ss : List (List ℕ)) (src : Option SrcSpec)
        (b : Build)
      → Q b
      → Q (
          enter_zone name tag
            (matched o.collect_domain_zones (for_egress p (resolve_egress p tag).kind tag ss) src)
            scope
            b)) where
  warn_some-kept : (scope : String) (m : Option Message) (b : Build) → Q b → Q (warn_some scope m b)
  unfolding warn_some
  warn_some-kept scope none b q = q
  warn_some-kept scope (some m) b q = on_warn scope m b q

  warn_skipped-kept :
      (scope : String) (ss : List (List ℕ)) (b : Build) → Q b → Q (warn_skipped scope ss b)
  unfolding warn_skipped
  warn_skipped-kept scope [] b q = q
  warn_skipped-kept scope (s ∷ ss) b q = warn_skipped-kept scope ss _ (on_warn scope _ b q)

  warn_if-kept :
      (c : Bool) (scope : String) (m : Message) (b : Build) → Q b → Q (warn_if c scope m b)
  unfolding warn_if
  warn_if-kept c scope m b q = either Q c (on_warn scope m b q) q

  add_zone-kept :
      (name : List ℕ) (tag scope : String) (ss : List (List ℕ)) (src : Option SrcSpec) (b : Build)
      → Q b
      → Q (add_zone o name tag (for_egress p (resolve_egress p tag).kind tag ss) src scope b)
  unfolding add_zone
  add_zone-kept name tag scope ss src b q =
      let b' = either Q o.collect_domain_zones q (
        warn_skipped-kept scope
          (classify_cidrs (for_egress p (resolve_egress p tag).kind tag ss)).bad b q) in
      let m =
        matched o.collect_domain_zones (for_egress p (resolve_egress p tag).kind tag ss) src in
      either Q (matches_nothing m) b' (on_enter name tag scope ss src _ b')

  zone_rule-kept :
      (r : Rule) (b : Build) → Q b → Q (zone_rule o p r (resolve_egress p r.outbound).kind b)
  unfolding zone_rule
  zone_rule-kept r b q =
      let k = (resolve_egress p r.outbound).kind in
      let ss = map codes r.ip_cidr in
      let name = codes "rule_" ++ nft_name (codes r.id) in
      either Q (not (is_empty (for_egress p k r.outbound ss)) || is_some (source_of p k r))
        (add_zone-kept name r.outbound r.id ss (source_of p k r) b q) q

  route_rule-kept :
      (r : Rule) (k : EgressKind) (b : Build)
      → (resolve_egress p r.outbound).kind ≡ k
      → Q b
      → Q (route_rule o p r k b)
  unfolding route_rule
  route_rule-kept r unset b e q = q
  route_rule-kept r wan b e q = subst (λ k. Q (zone_rule o p r k b)) e (zone_rule-kept r b q)
  route_rule-kept r interface b e q = subst (λ k. Q (zone_rule o p r k b)) e (zone_rule-kept r b q)
  route_rule-kept r blackhole b e q = subst (λ k. Q (zone_rule o p r k b)) e (zone_rule-kept r b q)

  add_rule-kept : (r : Rule) (b : Build) → Q b → Q (add_rule o p r b)
  unfolding add_rule
  add_rule-kept r b q =
      let has_names =
        not (is_empty r.domain) || not (is_empty r.domain_suffix) || not (is_empty r.geo_site) in
      let b1 = warn_if-kept has_names r.id domain_rule b q in
      let b2 = warn_if-kept (not (is_empty r.geo_ip)) r.id geoip_rule _ b1 in
      either Q (r.disabled || r.default) q (
        either Q (is_empty r.ip_cidr && not (has_source_matcher r)) b2 (
          route_rule-kept r _ _ refl
            (warn_some-kept r.id (resolve_egress p r.outbound).warning _ b2)))

  pub add_rules-kept : (rs : List Rule) (b : Build) → Q b → Q (add_rules o p rs b)
  unfolding add_rules
  add_rules-kept [] b q = q
  add_rules-kept (r ∷ rs) b q = add_rules-kept rs _ (add_rule-kept r b q)

  zone_list-kept :
      (l : RoutingList) (ss : List (List ℕ)) (b : Build)
      → Q b
      → Q (zone_list o p l ss (resolve_egress p l.outbound).kind b)
  unfolding zone_list
  zone_list-kept l ss b q =
      let name = codes "list_" ++ nft_name (codes l.id) in
      either Q (is_empty (for_egress p (resolve_egress p l.outbound).kind l.outbound ss)) q
        (add_zone-kept name l.outbound l.id ss none b q)

  route_list-kept :
      (l : RoutingList) (ss : List (List ℕ)) (k : EgressKind) (b : Build)
      → (resolve_egress p l.outbound).kind ≡ k
      → Q b
      → Q (route_list o p l ss k b)
  unfolding route_list
  route_list-kept l ss unset b e q = q
  route_list-kept l ss wan b e q =
      subst (λ k. Q (zone_list o p l ss k b)) e (zone_list-kept l ss b q)
  route_list-kept l ss interface b e q =
      subst (λ k. Q (zone_list o p l ss k b)) e (zone_list-kept l ss b q)
  route_list-kept l ss blackhole b e q =
      subst (λ k. Q (zone_list o p l ss k b)) e (zone_list-kept l ss b q)

  add_list-kept : (l : RoutingList) (b : Build) → Q b → Q (add_list o p l b)
  unfolding add_list
  add_list-kept l b q =
      let b1 = warn_if-kept (not (l.source =$ "")) l.id (remote_list l.source) b q in
      let cidrs = map codes (l.manual ++ l.cidr_cache) in
      either Q (not l.enabled) q (
        either Q (is_empty cidrs) b1 (
          route_list-kept l cidrs _ _ refl
            (warn_some-kept l.id (resolve_egress p l.outbound).warning _ b1)))

  pub add_lists-kept : (ls : List RoutingList) (b : Build) → Q b → Q (add_lists o p ls b)
  unfolding add_lists
  add_lists-kept [] b q = q
  add_lists-kept (l ∷ ls) b q = add_lists-kept ls _ (add_list-kept l b q)
