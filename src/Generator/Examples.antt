-- ===== src/Generator/Examples.antt =====
-- internal/generator/native_only.go: a profile that can do without sing-box.
use velinx.Base.{◌≡◌, refl, String, Bool, true, false, List, [], ◌∷◌, Option, none, some, pos, ℤ}
use velinx.Model.{Any, text, Endpoint, Rule, Profile, empty_profile}
use velinx.Go.Strings.{trim_space}
use velinx.Go.Ip.{is_cidr}
use velinx.Model.Names.{Check, ok, err, kind_of, is_resolvable, is_usable}
use velinx.Model.Params.{param}
use velinx.Model.Cycle.{search_groups, search_all, group_ids}
use velinx.Model.Matchers.{
  rule_has_no_matcher, has_non_blank, first_invalid_cidr, first_bad_port, is_builtin, is_blank,
  cidr_accepted,
}
use velinx.Model.Validate.{validate}
use velinx.Pbr.{Options, Plan, Warning, Zone}
use velinx.Pbr.Resolve.{resolve_egress}
use velinx.Pbr.Compile.{compile}
use velinx.Generator.{kernel_egress, hybrid_reachable}
use velinx.Generator.NativeOnly.{datapath_native_only}
use velinx.Generator.Planes.{is_interface, kernel_egress-resolve_egress}

endpoint : String → String → List (String × Any) → Endpoint
endpoint id engine params = record {
  id = id;
  name = id;
  engine = engine;
  protocol = "wireguard";
  server = "";
  port = pos 0;
  params = params;
  transport = none;
  tls = none;
  health = none;
  enabled = true;
  mtu = pos 0;
  persistent_keepalive = pos 0;
}

rule : String → List String → List ℤ → String → Rule
rule id ip_cidr port outbound = record {
  id = id;
  domain_suffix = [];
  domain = [];
  geo_site = [];
  geo_ip = [];
  ip_cidr = ip_cidr;
  port = port;
  source_ip_cidr = [];
  source_mac = [];
  source_iface = [];
  source_port = [];
  default = false;
  disabled = false;
  outbound = outbound;
}

profile_of : List Rule → Profile
unfolding endpoint
profile_of rules = record empty_profile {
  endpoints = endpoint "awg0" "external" (("interface", text "awg0") ∷ []) ∷ [];
  rules = rules;
}

abbrev bank : Rule
unfolding rule
bank = rule "bank" ("198.51.100.0/24" ∷ []) [] "awg0"

hybrid_keeps : datapath_native_only (some (profile_of (bank ∷ []))) "hybrid" ≡ false
unfolding datapath_native_only profile_of rule
hybrid_keeps = refl

-- A rule by ports stays in sing-box with its outbound.
kept_outbound :
    hybrid_reachable (profile_of (rule "mail" ("198.51.100.0/24" ∷ []) (pos 25 ∷ []) "awg0" ∷ []))
    ≡ "awg0" ∷ []
unfolding hybrid_reachable profile_of rule
kept_outbound = refl

kernel_egress-resolve_egress_example :
    kernel_egress (profile_of []) "awg0" ≡ is_interface (resolve_egress (profile_of []) "awg0").kind
kernel_egress-resolve_egress_example = kernel_egress-resolve_egress (profile_of []) "awg0"

-- Two rules that block: one by a port, one with its action in capital letters.
abbrev blocking : List Rule
unfolding rule
blocking =
    rule "no-mail" [] (pos 25 ∷ []) "block" ∷ rule "no-ads" ("203.0.113.0/24" ∷ []) [] "BLOCK" ∷ []

abbrev is_ok {ℓ} : {A : Type ℓ} → Check A → Bool
is_ok (ok a) = true
is_ok (err e) = false

blocking_accepted : is_ok (validate (profile_of blocking)) ≡ true
unfolding validate profile_of rule kind_of param trim_space search_groups search_all group_ids
    rule_has_no_matcher has_non_blank first_invalid_cidr first_bad_port is_resolvable is_builtin
    is_usable is_blank cidr_accepted is_cidr
blocking_accepted = refl

-- Sing-box is not run for them.
blocking_native : datapath_native_only (some (profile_of blocking)) "fast" ≡ true
unfolding datapath_native_only profile_of rule
blocking_native = refl

abbrev no_options : Options
no_options = record {
  table = "";
  mark_mask = 0;
  mark_step = 0;
  table_base = 0;
  wan_table = 0;
  rule_pref = 0;
  offload = "";
  offload_devices = [];
  collect_domain_zones = false;
}

abbrev zones_in : Option (Plan × List Warning) → Option (List Zone)
zones_in none = none
zones_in (some (plan, ws)) = some plan.zones

-- The kernel blocks nothing either.
blocking_ignored : zones_in (compile (some (profile_of blocking)) no_options) ≡ some []
unfolding compile profile_of rule has_non_blank
blocking_ignored = refl
