-- ===== src/Model/Validate/Examples.antt =====
-- internal/model/validate.go: a profile that is accepted and one whose groups hold each other.
use velinx.Base.{◌≡◌, refl, String, Bool, true, false, List, [], ◌∷◌, none, pos}
use velinx.Go.Strings.{trim_space}
use velinx.Model.{text, Endpoint, Group, Rule, RoutingList, Profile}
use velinx.Go.Ip.{is_cidr, addr_bits, parse_v4, parse_v6}
use velinx.Model.Names.{
  Check, ok, err, Names, Problem, kind_of, enabled_in, is_resolvable, is_usable,
}
use velinx.Model.Params.{missing_proto_param, invalid_proto_param}
use velinx.Model.Matchers.{
  rule_has_no_matcher, has_non_blank, is_blank, first_invalid_cidr, cidr_accepted, first_bad_port,
  is_builtin,
}
use velinx.Model.Cycle.{search_groups, search_all, group_ids, color_of, dfs, visit, group_adj}
use velinx.Model.Validate.{validate}
use velinx.Model.Validate.Accepted.{Accepted}
use velinx.Model.Validate.Problems.{RealCycle, validate-RealCycle}

abbrev pub is_ok : Check Names → Bool
is_ok (ok n) = true
is_ok (err e) = false

abbrev pub names_of : Check Names → Names
names_of (ok n) = n
names_of (err e) = record { ids = []; enabled = [] }

pub is_ok-eq-ok : (m : Check Names) → is_ok m ≡ true → m ≡ ok (names_of m)
is_ok-eq-ok (ok n) h = refl
is_ok-eq-ok (err e) h = absurd (cc)

abbrev pub tunnel : Endpoint
tunnel = record {
  id = "e1";
  name = "tunnel";
  engine = "sing-box";
  protocol = "wireguard";
  server = "vpn.example.org";
  port = pos 51820;
  params = ("private_key", text "a") ∷ ("peer_public_key", text "b") ∷ [];
  transport = none;
  tls = none;
  health = none;
  enabled = true;
  mtu = pos 1420;
  persistent_keepalive = pos 25;
}

abbrev pub group : String → List String → Group
group k ms = record {
  id = k;
  name = k;
  type = "urltest";
  members = ms;
  test = none;
  kill_switch = false;
  interrupt_on_switch = false;
}

abbrev pub rule : Rule
rule = record {
  id = "r1";
  domain_suffix = "example.com" ∷ [];
  domain = [];
  geo_site = [];
  geo_ip = [];
  ip_cidr = "10.0.0.0/8" ∷ [];
  port = pos 443 ∷ [];
  source_ip_cidr = [];
  source_mac = [];
  source_iface = [];
  source_port = [];
  default = false;
  disabled = false;
  outbound = "g2";
}

abbrev pub feed : RoutingList
feed = record {
  id = "l1";
  name = "feed";
  source = "";
  format = "domain";
  manual = "example.net" ∷ [];
  outbound = "g1";
  download_via = "direct";
  refresh_hours = pos 24;
  enabled = true;
  cidr_source = "";
  cidr_cache = [];
}

abbrev pub sample : Profile
sample = record {
  endpoints = tunnel ∷ [];
  groups = group "g1" ("e1" ∷ []) ∷ group "g2" ("g1" ∷ "direct" ∷ []) ∷ [];
  rules = rule ∷ [];
  routing_lists = feed ∷ [];
}

pub accepts_sample : is_ok (validate sample) ≡ true
unfolding validate kind_of missing_proto_param trim_space invalid_proto_param enabled_in
    search_groups search_all group_ids color_of dfs visit group_adj rule_has_no_matcher
    has_non_blank is_blank first_invalid_cidr cidr_accepted is_cidr addr_bits parse_v4 parse_v6
    first_bad_port is_resolvable is_builtin is_usable
accepts_sample = refl

abbrev looped : Profile
looped = record sample { groups = group "g1" ("g2" ∷ "e1" ∷ []) ∷ group "g2" ("g1" ∷ []) ∷ [] }

looped_problem : validate looped ≡ err (Problem.cycle "g2" "g1")
unfolding validate kind_of missing_proto_param trim_space invalid_proto_param enabled_in
    search_groups search_all group_ids color_of dfs visit group_adj
looped_problem = refl

validate-RealCycle_example : RealCycle looped (Problem.cycle "g2" "g1")
validate-RealCycle_example = validate-RealCycle looped (Problem.cycle "g2" "g1") looped_problem refl
