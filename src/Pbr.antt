-- ===== src/Pbr.antt =====
-- internal/pbr/pbr.go: the plan of policy-based routing that a profile compiles to. A text that the source
-- builds is a list of code points; an id stays a text of the profile. A number of `Options` is not
-- negative, and a fwmark has 32 bits.
pub mod Prefixes
pub mod Classify
pub mod Resolve
pub mod Zones
pub mod Collect
pub mod Compile
mod Examples
use velinx.Base.{ℕ, String, Bool, List, [], Option, none, ℤ, ◌==◌, ◌=$◌, if◌then◌else◌}

-- `EgressKind`; `unset` is its zero value "".
pub data EgressKind : Type 0 where
  wan interface blackhole unset : EgressKind

pub record Egress : Type 0 where
  pub tag : String
  pub kind : EgressKind
  pub iface : List ℕ
  pub mark : ℕ
  pub table : ℕ
  pub fail_closed : Bool

pub record Zone : Type 0 where
  pub name : List ℕ
  pub egress_tag : String
  pub mark : ℕ
  pub v4 : List (List ℕ)
  pub v6 : List (List ℕ)
  pub domains : List (List ℕ)
  pub src_v4 : List (List ℕ)
  pub src_v6 : List (List ℕ)
  pub src_mac : List String
  pub src_iface : List String
  pub src_port : List ℤ
  pub src_scoped : Bool

-- One constructor for each text that is passed to `warn`.
pub data Message : Type 0 where
  proxy_endpoint no_kernel_member unknown_outbound : String → Message
  kernel_primary : String → List ℕ → Message
  skipped_entry renamed : List ℕ → Message
  domain_rule geoip_rule : Message
  remote_list : String → Message
  no_offload_devices : Message
  unknown_offload : String → Message

pub record Warning : Type 0 where
  pub scope : String
  pub msg : Message

pub record Flowtable : Type 0 where
  pub devices : List String
  pub hw : Bool

pub record Plan : Type 0 where
  pub table : String
  pub mask : ℕ
  pub egresses : List Egress
  pub zones : List Zone
  pub bypass_v4 : List (List ℕ)
  pub bypass_v6 : List (List ℕ)
  pub flowtable : Option Flowtable
  pub masq_ifaces : List (List ℕ)

pub record Options : Type 0 where
  pub table : String
  pub mark_mask : ℕ
  pub mark_step : ℕ
  pub table_base : ℕ
  pub wan_table : ℕ
  pub rule_pref : ℕ
  pub offload : String
  pub offload_devices : List String
  pub collect_domain_zones : Bool

abbrev or_default : ℕ → ℕ → ℕ
or_default n d = if n == 0 then d else n

-- `withDefaults`
unfoldable pub with_defaults : Options → Options
with_defaults o = record o {
  table = if o.table =$ "" then "velinx_pbr" else o.table;
  mark_mask = or_default o.mark_mask 0x00ff0000;
  mark_step = or_default o.mark_step 0x00010000;
  table_base = or_default o.table_base 151;
  wan_table = or_default o.wan_table 254;
  rule_pref = or_default o.rule_pref 150;
}
