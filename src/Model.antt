-- ===== src/Model.antt =====
-- internal/model/model.go: the configuration that the UI and the importers speak. A `map[string]any` is an
-- association list; a value of it that is not a text is kept as what `fmt` prints of it (`%v`), a list
-- with its elements that are texts besides.
pub mod Params
pub mod Matchers
pub mod Names
pub mod Cycle
pub mod Validate
use velinx.Base.{
  String, Bool, true, false, List, [], ◌∷◌, Option, none, some, ℤ, ◌=$◌, if◌then◌else◌,
}

pub data Any : Type 0 where
  nil : Any
  text : String → Any
  items : List (Option String) → String → Any
  other : String → Any

pub record Tls : Type 0 where
  pub enabled : Bool
  pub type : String
  pub sni : String
  pub alpn : List String
  pub insecure : Bool
  pub fingerprint : String
  pub public_key : String
  pub short_id : String
  pub fragment : Bool
  pub record_fragment : Bool

pub record Transport : Type 0 where
  pub type : String
  pub path : String
  pub host : String
  pub service_name : String
  pub headers : List (String × String)

pub record Health : Type 0 where
  pub url : String
  pub interval : ℤ
  pub tolerance : ℤ

pub record Endpoint : Type 0 where
  pub id : String
  pub name : String
  pub engine : String
  pub protocol : String
  pub server : String
  pub port : ℤ
  pub params : List (String × Any)
  pub transport : Option Transport
  pub tls : Option Tls
  pub health : Option Health
  pub enabled : Bool
  pub mtu : ℤ
  pub persistent_keepalive : ℤ

pub record Group : Type 0 where
  pub id : String
  pub name : String
  pub type : String
  pub members : List String
  pub test : Option Health
  pub kill_switch : Bool
  pub interrupt_on_switch : Bool

pub record Rule : Type 0 where
  pub id : String
  pub domain_suffix : List String
  pub domain : List String
  pub geo_site : List String
  pub geo_ip : List String
  pub ip_cidr : List String
  pub port : List ℤ
  pub source_ip_cidr : List String
  pub source_mac : List String
  pub source_iface : List String
  pub source_port : List ℤ
  pub default : Bool
  pub disabled : Bool
  pub outbound : String

pub record RoutingList : Type 0 where
  pub id : String
  pub name : String
  pub source : String
  pub format : String
  pub manual : List String
  pub outbound : String
  pub download_via : String
  pub refresh_hours : ℤ
  pub enabled : Bool
  pub cidr_source : String
  pub cidr_cache : List String

pub record Profile : Type 0 where
  pub endpoints : List Endpoint
  pub groups : List Group
  pub rules : List Rule
  pub routing_lists : List RoutingList

abbrev pub empty_profile : Profile
empty_profile = record { endpoints = []; groups = []; rules = []; routing_lists = [] }

abbrev pub outbound_direct : String
outbound_direct = "direct"

abbrev pub outbound_block : String
outbound_block = "block"

abbrev pub engine_external : String
engine_external = "external"

abbrev pub proto_tuic : String
proto_tuic = "tuic"

abbrev pub proto_shadowsocks : String
proto_shadowsocks = "shadowsocks"

abbrev pub proto_wireguard : String
proto_wireguard = "wireguard"

abbrev pub proto_amneziawg : String
proto_amneziawg = "amneziawg"

-- An element by its id: the first, as the loops of `EndpointByID` and its siblings find it.
module _ {A : Type 0} (id_of : A → String) where
  unfoldable pub first_by_id : String → List A → Option A
  first_by_id k [] = none
  first_by_id k (x ∷ xs) = let rest = first_by_id k xs in if id_of x =$ k then some x else rest

unfoldable pub endpoint_by_id : Profile → String → Option Endpoint
unfolding first_by_id
endpoint_by_id p id = first_by_id (λ e. e.id) id p.endpoints

unfoldable pub group_by_id : Profile → String → Option Group
unfolding first_by_id
group_by_id p id = first_by_id (λ g. g.id) id p.groups

unfoldable pub routing_list_by_id : Profile → String → Option RoutingList
unfolding first_by_id
routing_list_by_id p id = first_by_id (λ l. l.id) id p.routing_lists
