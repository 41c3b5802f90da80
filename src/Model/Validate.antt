-- ===== src/Model/Validate.antt =====
-- internal/model/validate.go, `Validate`: the checks in the order of the source, each stage a loop that
-- hands the tables on. The first problem ends the check.
pub mod Stage
pub mod Endpoints
pub mod Rules
pub mod Nesting
pub mod Unique
pub mod Accepted
pub mod Problems
pub mod Examples
use velinx.Base.{
  ℕ, zero, suc, ◌+◌, ◌≡◌, String, Bool, true, false, List, [], ◌∷◌, Option, none, some, ◌&&◌, ◌||◌,
  not, ltb, ◌==◌, ◌=$◌, if◌then◌else◌, ℤ, pos, in_range, is_some,
}
use velinx.Go.Strings.{codes, is_empty}
use velinx.Model.{
  Endpoint, Group, Rule, RoutingList, Profile, outbound_direct, outbound_block, engine_external,
}
use velinx.Model.Params.{param, missing_proto_param, invalid_proto_param}
use velinx.Model.Matchers.{
  rule_has_no_matcher, first_invalid_cidr, first_rejected, mac_accepted, iface_accepted,
  first_bad_port, valid_cidr_source, is_builtin,
}
use velinx.Model.Names.{
  Kind, Problem, Check, ok, err, ◌>>=◌, ◌>>◌, reject, reject_some, Names, kind_of, enabled_in,
  enter, enable, is_resolvable, is_usable,
}
use velinx.Model.Cycle.{Search, finished, back_edge, no_fuel, search_groups}

-- An integer that is unset (0) or lies in the range.
abbrev pub unset_or_in : ℕ → ℕ → ℤ → Bool
unset_or_in lo hi (pos zero) = true
unset_or_in lo hi n = in_range lo hi n

-- The identity fields that only an enabled endpoint must carry.
unfoldable pub check_params : Endpoint → Check (Unit {0})
check_params e =
    if e.enabled
    then (do
      reject_some (missing_proto_param e) (Problem.missing_param e.id e.protocol)
      reject_some (invalid_proto_param e) (Problem.invalid_param e.id e.protocol))
    else ok tt

unfoldable pub check_server : Endpoint → Check (Unit {0})
unfolding check_params
check_server e = do
  reject (e.server =$ "") (Problem.empty_server e.id)
  reject (not (in_range 1 65535 e.port)) (Problem.port_range e.id e.port)
  reject (e.protocol =$ "") (Problem.empty_protocol e.id)
  check_params e

-- The body of the loop over endpoints, after the id.
unfoldable pub check_endpoint : Endpoint → Check (Unit {0})
unfolding check_server is_empty
check_endpoint e = do
  reject (not (unset_or_in 576 9200 e.mtu)) (Problem.mtu_range e.id e.mtu)
  reject (not (unset_or_in 1 65535 e.persistent_keepalive))
      (Problem.keepalive_range e.id e.persistent_keepalive)
  if e.engine =$ engine_external
      then reject (is_empty (param e "interface")) (Problem.no_interface e.id)
      else check_server e

unfoldable pub check_endpoints : List Endpoint → Names → Check Names
unfolding check_endpoint enter
check_endpoints [] n = ok n
check_endpoints (e ∷ es) n = do
  m ← enter (Problem.empty_endpoint_id e.name) e.id Kind.endpoint n
  check_endpoint e
  check_endpoints es (enable e.id e.enabled m)

unfoldable pub check_groups : List Group → Names → Check Names
unfolding enter is_empty
check_groups [] n = ok n
check_groups (g ∷ gs) n = do
  m ← enter (Problem.empty_group_id g.name) g.id Kind.group n
  reject (is_empty g.members) (Problem.no_members g.id)
  check_groups gs (enable g.id true m)

unfoldable pub check_member : Names → Group → String → Check (Unit {0})
check_member n g m = if m =$ outbound_direct then ok tt else (do
  reject (m =$ outbound_block) (Problem.member_is_action g.id m)
  reject (not (is_some (kind_of m n.ids))) (Problem.member_unresolved g.id m)
  reject (m =$ g.id) (Problem.member_self g.id m)
  reject (not (enabled_in m n.enabled)) (Problem.member_disabled g.id m))

unfoldable pub check_members : Names → Group → List String → Check (Unit {0})
unfolding check_member
check_members n g [] = ok tt
check_members n g (m ∷ ms) = do check_member n g m; check_members n g ms

unfoldable pub check_all_members : Names → List Group → Check (Unit {0})
unfolding check_members
check_all_members n [] = ok tt
check_all_members n (g ∷ gs) = do check_members n g g.members; check_all_members n gs

unfoldable pub of_search : Search → Check (Unit {0})
of_search (finished c) = ok tt
of_search (back_edge a b) = err (Problem.cycle a b)
of_search no_fuel = err Problem.out_of_fuel

unfoldable pub check_cycles : Names → List Group → Check (Unit {0})
unfolding of_search
check_cycles n gs = of_search (search_groups n.ids gs)

-- The matchers of a rule that is not the default.
unfoldable pub check_matchers : Rule → Check (Unit {0})
check_matchers r = do
  reject (rule_has_no_matcher r) (Problem.no_matcher r.id)
  reject_some (first_invalid_cidr r.ip_cidr) (Problem.bad_ip_cidr r.id)
  reject_some (first_bad_port r.port) (Problem.bad_port r.id)
  reject_some (first_invalid_cidr r.source_ip_cidr) (Problem.bad_source_ip_cidr r.id)
  reject_some (first_bad_port r.source_port) (Problem.bad_source_port r.id)
  reject_some (first_rejected mac_accepted r.source_mac) (Problem.bad_source_mac r.id)
  reject_some (first_rejected iface_accepted r.source_iface) (Problem.bad_source_iface r.id)

-- A rule that is not disabled.
unfoldable pub check_rule : Names → Rule → Check (Unit {0})
unfolding check_matchers
check_rule n r = do
  if r.default then ok tt else check_matchers r
  reject (not (is_resolvable r.outbound n)) (Problem.outbound_unresolved r.id r.outbound)
  reject (not (is_usable r.outbound n)) (Problem.outbound_disabled r.id r.outbound)

-- The loop over rules, with the count of default rules.
unfoldable pub check_rules : List Rule → ℕ → Names → Check (Names × ℕ)
unfolding check_rule enter
check_rules [] defaults n = ok (n, defaults)
check_rules (r ∷ rs) defaults n = do
  m ← enter Problem.empty_rule_id r.id Kind.rule n
  if r.disabled then ok tt else check_rule m r
  check_rules rs (if not r.disabled && r.default then defaults + 1 else defaults) m

unfoldable pub check_via : Names → RoutingList → Check (Unit {0})
check_via n l = if l.download_via =$ "" then ok tt else (do
  reject (not (is_resolvable l.download_via n)) (Problem.via_unresolved l.id l.download_via)
  reject (not (is_usable l.download_via n)) (Problem.via_disabled l.id l.download_via))

unfoldable pub check_list : Names → RoutingList → Check (Unit {0})
unfolding check_via is_empty
check_list n l = do
  reject (l.source =$ "" && is_empty l.manual && l.cidr_source =$ "" && is_empty l.cidr_cache)
      (Problem.no_content l.id)
  reject (not (l.cidr_source =$ "") && not (valid_cidr_source (codes l.cidr_source)))
      (Problem.bad_cidr_source l.id l.cidr_source)
  reject (not (is_resolvable l.outbound n)) (Problem.list_outbound_unresolved l.id l.outbound)
  reject (not (is_usable l.outbound n)) (Problem.list_outbound_disabled l.id l.outbound)
  check_via n l

unfoldable pub check_lists : List RoutingList → Names → Check Names
unfolding check_list enter
check_lists [] n = ok n
check_lists (l ∷ ls) n = do
  m ← enter (Problem.empty_list_id l.name) l.id Kind.routing_list n
  check_list m l
  check_lists ls m

-- The tables that `Validate` has filled when it finds no problem.
unfoldable pub validate : Profile → Check Names
unfolding check_endpoints check_groups check_all_members check_cycles check_rules check_lists
validate p = do
  es ← check_endpoints p.endpoints (record { ids = []; enabled = [] })
  gs ← check_groups p.groups es
  check_all_members gs p.groups
  check_cycles gs p.groups
  (rs, defaults) ← check_rules p.rules 0 gs
  reject (ltb 1 defaults) (Problem.many_defaults defaults)
  check_lists p.routing_lists rs
