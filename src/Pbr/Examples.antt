-- ===== src/Pbr/Examples.antt =====
-- internal/pbr/pbr.go: plans of small profiles.
use velinx.Base.{
  drop, ◌≡◌, refl, String, true, false, List, [], ◌∷◌, Option, none, some, pos, ℕ, arith, map, inl,
  inr, Elem, All,
}
use velinx.Go.Strings.{codes}
use velinx.Go.Sort.{Pairwise, any}
use velinx.Model.{Any, text, items, Endpoint, RoutingList, Profile, empty_profile, endpoint_by_id}
use velinx.Model.Params.{lookup}
use velinx.Pbr.{Options, Plan, Warning, Egress, Zone, with_defaults}
use velinx.Pbr.Prefixes.{Prefix, contains, collapse_prefixes}
use velinx.Pbr.Prefixes.Collapse.{Disjoint, collapse_prefixes-Partition}
use velinx.Pbr.Classify.{classify_cidrs, print}
use velinx.Pbr.Classify.Networks.{names, classify_cidrs-Partition}
use velinx.Pbr.Resolve.{resolve_egress, engine_amneziawg, awg_iface}
use velinx.Pbr.Zones.{free_name}
use velinx.Pbr.Zones.Names.{FirstFree, free_name-FirstFree}
use velinx.Pbr.Compile.{compile}
use velinx.Pbr.Collect.Valid.{OtherName}
use velinx.Pbr.Compile.Marks.{OtherEgress}
use velinx.Pbr.Compile.Plans.{Routed, compile-Routed}
use velinx.Pbr.Compile.Tables.{Apart, compile-Apart, compile-takes_wan_table}
use velinx.Pbr.Compile.Posture.{compile-strips}

endpoint : String → String → List (String × Any) → Endpoint
endpoint id engine params = record {
  id = id;
  name = id;
  engine = engine;
  protocol = "wireguard";
  server = "203.0.113.7";
  port = pos 51820;
  params = params;
  transport = none;
  tls = none;
  health = none;
  enabled = true;
  mtu = pos 0;
  persistent_keepalive = pos 0;
}

list : String → String → List String → RoutingList
list id outbound manual = record {
  id = id;
  name = id;
  source = "";
  format = "";
  manual = manual;
  outbound = outbound;
  download_via = "";
  refresh_hours = pos 0;
  enabled = true;
  cidr_source = "";
  cidr_cache = [];
}

wireguard : Endpoint
unfolding endpoint
wireguard =
    endpoint "wg" engine_amneziawg (("local_address", items (some "10.8.0.2/32" ∷ []) "") ∷ [])

-- A tunnel that carries IPv4 only, and one that is adopted from the system.
abbrev profile : Profile
profile = record empty_profile {
  endpoints =
      endpoint "wg" engine_amneziawg (("local_address", items (some "10.8.0.2/32" ∷ []) "") ∷ [])
      ∷ endpoint "awg0" "external"
          (("interface", text "awg0") ∷ ("endpoint_ip", text "198.51.100.9") ∷ [])
      ∷ [];
  routing_lists =
      list "ru-services" "wg" ("77.88.55.0/24" ∷ "77.88.0.0/16" ∷ "2a02:6b8::/32" ∷ "10.1.2.3" ∷ [])
      ∷ list "ru_services" "awg0" ("5.255.255.70" ∷ "ya.ru" ∷ [])
      ∷ [];
}

abbrev no_options : Options
no_options = record {
  table = "";
  mark_mask = 0;
  mark_step = 0;
  table_base = 0;
  wan_table = 0;
  rule_pref = 0;
  offload = "";
  offload_devices = [];
  collect_domain_zones = false;
}

abbrev plan_in :
    Option (Plan × List Warning) → List (List ℕ) × List (List (List ℕ)) × List ℕ × List ℕ
plan_in none = ([], [], [], [])
plan_in (some (plan, ws)) = (
  map (λ z. z.name) plan.zones,
  map (λ z. z.v4) plan.zones,
  map (λ z. z.mark) plan.zones,
  map (λ e. e.table) plan.egresses,
)

compiled : plan_in (compile (some profile) no_options) ≡ (
  codes "list_ru_services" ∷ codes "list_ru_services_2" ∷ [],
  (codes "10.1.2.3/32" ∷ codes "77.88.0.0/16" ∷ []) ∷ (codes "5.255.255.70/32" ∷ []) ∷ [],
  0x30000 ∷ 0x20000 ∷ [],
  254 ∷ 151 ∷ 152 ∷ [],
)
unfolding compile endpoint list
compiled = refl

wireguard_interface : awg_iface "wg" ≡ codes "wr-5a47ac83"
unfolding awg_iface
wireguard_interface = refl

abbrev plan_or_empty : Option (Plan × List Warning) → Plan × List Warning
plan_or_empty none = (
  record {
    table = "";
    mask = 0;
    egresses = [];
    zones = [];
    bypass_v4 = [];
    bypass_v6 = [];
    flowtable = none;
    masq_ifaces = [];
  },
  [],
)
plan_or_empty (some x) = x

the_plan : Options → Plan
unfolding compile endpoint list
the_plan o = (plan_or_empty (compile (some profile) o)).0

the_warnings : Options → List Warning
unfolding compile endpoint list
the_warnings o = (plan_or_empty (compile (some profile) o)).1

compiles : (o : Options) → compile (some profile) o ≡ some (the_plan o, the_warnings o)
unfolding compile the_plan the_warnings endpoint list
compiles o = refl

compile-Routed_example :
    Pairwise OtherName (the_plan no_options).zones
    × Pairwise OtherEgress (the_plan no_options).egresses
    × All (Routed (the_plan no_options).egresses) (the_plan no_options).zones
compile-Routed_example =
    compile-Routed profile no_options (the_plan no_options) (the_warnings no_options)
      (compiles no_options)

compile-Apart_example : Pairwise Apart (the_plan no_options).egresses
unfolding the_plan compile with_defaults endpoint list
compile-Apart_example =
    compile-Apart profile no_options (the_plan no_options) (the_warnings no_options)
      (compiles no_options) (omega arith) (omega arith)

-- Options whose first table is that of the WAN.
abbrev late_tables : Options
late_tables = record no_options { table_base = 254 }

compile-takes_wan_table_example :
    (e : Egress) × Elem e (drop 1 (the_plan late_tables).egresses) × (e.table ≡ 254)
unfolding the_plan compile with_defaults endpoint list
compile-takes_wan_table_example =
    compile-takes_wan_table profile late_tables (the_plan late_tables) (the_warnings late_tables)
      (compiles late_tables) (omega arith) (omega arith)

abbrev wg_zone : Zone
wg_zone = record {
  name = codes "list_ru_services";
  egress_tag = "wg";
  mark = 0x30000;
  v4 = codes "10.1.2.3/32" ∷ codes "77.88.0.0/16" ∷ [];
  v6 = [];
  domains = [];
  src_v4 = [];
  src_v6 = [];
  src_mac = [];
  src_iface = [];
  src_port = [];
  src_scoped = false;
}

compile-strips_example : wg_zone.v6 ≡ []
unfolding compile the_plan resolve_egress endpoint_by_id lookup endpoint list wireguard
compile-strips_example =
    compile-strips profile no_options (the_plan no_options) (the_warnings no_options) wg_zone
      wireguard (compiles no_options) (inl refl) refl refl
      (inr (refl, ("10.8.0.2/32", [], "", refl, (refl, tt))))

-- A list with a network of IPv6 for a group of the adopted tunnel.
abbrev grouped : Profile
unfolding list
grouped = record profile {
  groups =
      record {
        id = "vpn";
        name = "vpn";
        type = "fallback";
        members = "awg0" ∷ [];
        test = none;
        kill_switch = false;
        interrupt_on_switch = false;
      }
      ∷ [];
  routing_lists = list "yandex" "vpn" ("2a02:6b8::/32" ∷ []) ∷ [];
}

abbrev v6_and_ifaces : Option (Plan × List Warning) → List (List (List ℕ)) × List (List ℕ)
v6_and_ifaces none = ([], [])
v6_and_ifaces (some (plan, ws)) = (map (λ z. z.v6) plan.zones, map (λ e. e.iface) plan.egresses)

-- The network is marked for the tunnel: the posture of an endpoint is not looked at through a group.
group_marks_v6 :
    v6_and_ifaces (compile (some grouped) no_options)
    ≡ (((codes "2a02:6b8::/32" ∷ []) ∷ []), ([] ∷ codes "awg0" ∷ []))
unfolding compile grouped endpoint list
group_marks_v6 = refl

abbrev nested : List Prefix
nested = record { addr = 0x0a010000; bits = 16 } ∷ record { addr = 0x0a000000; bits = 8 } ∷ []

collapsed : collapse_prefixes 32 nested ≡ record { addr = 0x0a000000; bits = 8 } ∷ []
unfolding collapse_prefixes
collapsed = refl

collapse_prefixes-Partition_example :
    ((a : ℕ)
      → any (λ q. contains 32 q a) (collapse_prefixes 32 nested)
        ≡ any (λ q. contains 32 q a) nested)
    × Pairwise (Disjoint 32) (collapse_prefixes 32 nested)
collapse_prefixes-Partition_example =
    collapse_prefixes-Partition 32 nested (omega arith, (omega arith, tt))

abbrev entries : List (List ℕ)
entries = codes " 10.0.0.7/8 " ∷ codes "10.1.2.3" ∷ codes "ya.ru" ∷ codes "2a02:6b8::/32" ∷ []

classified : (classify_cidrs entries).v4 ≡ codes "10.0.0.0/8" ∷ []
unfolding classify_cidrs
classified = refl

classify_cidrs-Partition_example :
    (ps : List Prefix) × ((classify_cidrs entries).v4 ≡ map (print 32) ps)
    × Pairwise (Disjoint 32) ps
    × ((a : ℕ) → any (λ q. contains 32 q a) ps ≡ names a entries)
classify_cidrs-Partition_example = classify_cidrs-Partition entries

abbrev taken : List (List ℕ)
taken = codes "list_a_3" ∷ codes "list_a_2" ∷ codes "list_a" ∷ []

free_name-FirstFree_example :
    FirstFree (codes "list_a") taken 2 (free_name 3 2 (codes "list_a") taken)
free_name-FirstFree_example = free_name-FirstFree (codes "list_a") taken
