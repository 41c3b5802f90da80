-- ===== src/Pbr/Resolve.antt =====
-- internal/pbr/pbr.go: where an outbound of the profile leads to in the kernel.
use velinx.Base.{
  ℕ, String, Bool, true, false, List, [], ◌∷◌, ◌++◌, ◌&&◌, ◌||◌, not, ◌=$◌, if◌then◌else◌, Option,
  none, some,
}
use velinx.Go.Strings.{codes, contains, is_empty}
use velinx.Go.Hash.{utf8, fnv32a}
use velinx.Go.Numbers.{padded_hex}
use velinx.Model.{
  Any, text, items, Endpoint, Group, Profile, endpoint_by_id, group_by_id, engine_external,
  outbound_direct, outbound_block,
}
use velinx.Model.Params.{lookup}
use velinx.Pbr.{
  EgressKind, wan, interface, blackhole, unset, Message, proxy_endpoint, no_kernel_member,
  unknown_outbound, kernel_primary,
}

abbrev pub engine_amneziawg : String
engine_amneziawg = "amneziawg"

-- `util.AWGIface`
unfoldable pub awg_iface : String → List ℕ
unfolding utf8 fnv32a padded_hex
awg_iface id = codes "wr-" ++ padded_hex 8 (fnv32a (utf8 (codes id)))

text_of : Option Any → List ℕ
text_of (some (text s)) = codes s
text_of _ = []

unfoldable pub param_text : String → Endpoint → List ℕ
unfolding text_of lookup
param_text k e = text_of (lookup k e.params)

unfoldable pub kernel_iface : Endpoint → List ℕ
unfolding awg_iface param_text
kernel_iface e =
    if e.engine =$ engine_external
    then param_text "interface" e
    else if e.engine =$ engine_amneziawg
    then awg_iface e.id
    else []

unfoldable pub has_engine : String → Option Endpoint → Bool
has_engine engine none = false
has_engine engine (some e) = e.engine =$ engine

unfoldable pub is_external_endpoint : Profile → String → Bool
unfolding has_engine endpoint_by_id
is_external_endpoint p tag = has_engine engine_external (endpoint_by_id p tag)

-- `addrs`, of a list the elements that are texts.
unfoldable pub addresses : Option Any → List (List ℕ)
addresses (some (items [] s)) = []
addresses (some (items (none ∷ xs) s)) = addresses (some (items xs s))
addresses (some (items (some a ∷ xs) s)) = codes a ∷ addresses (some (items xs s))
addresses _ = []

unfoldable pub any_colon : List (List ℕ) → Bool
unfolding contains
any_colon [] = false
any_colon (a ∷ as_) = contains (codes ":") a || any_colon as_

-- `(known, hasV6)`
unfoldable pub local_addr_declares_v6 : Endpoint → Bool × Bool
unfolding addresses any_colon is_empty lookup
local_addr_declares_v6 e =
    let addrs = addresses (lookup "local_address" e.params) in
    (not (is_empty addrs), any_colon addrs)

unfoldable pub v4_only_wireguard : Option Endpoint → Bool
unfolding local_addr_declares_v6
v4_only_wireguard none = false
v4_only_wireguard (some e) =
    let (known, has_v6) = local_addr_declares_v6 e in
    if not (e.engine =$ engine_amneziawg) then false else known && not has_v6

unfoldable pub egress_v4_only_posture : Profile → String → Bool
unfolding is_external_endpoint v4_only_wireguard endpoint_by_id
egress_v4_only_posture p tag =
    if is_external_endpoint p tag then true else v4_only_wireguard (endpoint_by_id p tag)

-- The warning of `resolveEgress`, and the kind, which is `unset` where its last result is false, with the
-- interface.
pub record Resolved : Type 0 where
  pub warning : Option Message
  pub kind : EgressKind
  pub iface : List ℕ

abbrev refused : Message → Resolved
refused m = record { warning = some m; kind = unset; iface = [] }

unfoldable pub endpoint_iface : Option Endpoint → List ℕ
unfolding kernel_iface
endpoint_iface none = []
endpoint_iface (some e) = kernel_iface e

-- The interface of the first member that has one.
unfoldable pub first_iface : Profile → List String → List ℕ
unfolding endpoint_iface endpoint_by_id is_empty
first_iface p [] = []
first_iface p (m ∷ ms) =
    let rest = first_iface p ms in
    let i = endpoint_iface (endpoint_by_id p m) in if is_empty i then rest else i

unfoldable pub resolve_endpoint : String → Endpoint → Resolved
unfolding kernel_iface is_empty
resolve_endpoint tag e =
    if is_empty (kernel_iface e)
    then refused (proxy_endpoint tag)
    else record { warning = none; kind = interface; iface = kernel_iface e }

unfoldable pub resolve_group : Profile → String → Option Group → Resolved
unfolding first_iface is_empty
resolve_group p tag none = refused (unknown_outbound tag)
resolve_group p tag (some g) =
    let i = first_iface p g.members in
    if is_empty i
    then refused (no_kernel_member tag)
    else record { warning = some (kernel_primary tag i); kind = interface; iface = i }

unfoldable pub resolve_egress : Profile → String → Resolved
unfolding resolve_endpoint resolve_group endpoint_by_id group_by_id
resolve_egress p tag =
    if tag =$ outbound_direct || tag =$ ""
    then record { warning = none; kind = wan; iface = [] }
    else if tag =$ outbound_block
    then record { warning = none; kind = blackhole; iface = [] }
    else elim (endpoint_by_id p tag) [
      | some e ↦ resolve_endpoint tag e
      | none ↦ resolve_group p tag (group_by_id p tag)
    ]
