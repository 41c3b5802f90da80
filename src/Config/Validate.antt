-- ===== src/Config/Validate.antt =====
-- internal/config/config.go: `Config.Validate` and `Ports.Validate`.
use velinx.Base.{
  Bool, false, List, [], ◌∷◌, ◌&&◌, ◌||◌, not, if◌then◌else◌, Option, none, some, ℤ, pos, in_range,
  String,
}
use velinx.Go.Strings.{codes, is_empty, same, has_prefix, trim_space}
use velinx.Go.Ip.{is_cidr}
use velinx.Go.HostPort.{split_host_port, atoi}
use velinx.Config.{Text, Ports, Config, same_int}

-- One constructor for each error, with what it prints.
pub data Problem : Type 0 where
  no_listen : Problem
  port_range : String → ℤ → Problem
  port_taken : String → String → ℤ → Problem
  bad_listen bad_controller bad_routing_mode bad_offload bad_gateway_addr bad_notify_url :
      Text → Problem
  bad_gateway_mtu : ℤ → Problem
  blank_host : Problem
  malformed_listen : Problem

unfoldable pub port_of : Option ℤ → Bool
port_of none = false
port_of (some p) = in_range 1 65535 p

unfoldable pub port_part : Option (Text × Text) → Bool
unfolding port_of atoi
port_part none = false
port_part (some (host, port)) = port_of (atoi port)

unfoldable pub valid_host_port : Text → Bool
unfolding port_part split_host_port
valid_host_port s = port_part (split_host_port s)

unfoldable pub is_http_url : Text → Bool
unfolding has_prefix
is_http_url s = has_prefix (codes "http://") s || has_prefix (codes "https://") s

-- `seen[v]`
unfoldable pub seen_name : ℤ → List (ℤ × String) → Option String
unfolding same_int
seen_name v [] = none
seen_name v ((w, n) ∷ seen) = let rest = seen_name v seen in if same_int w v then some n else rest

unfoldable pub check_ports : List (ℤ × String) → List (String × ℤ) → Option Problem
unfolding seen_name
check_ports seen [] = none
check_ports seen ((n, v) ∷ named) =
    let rest = check_ports ((v, n) ∷ seen) named in
    if not (in_range 1 65535 v)
    then some (port_range n v)
    else elim (seen_name v seen) [ some other ↦ some (port_taken n other v) | none ↦ rest ]

-- `Ports.Validate`; `none` is no error.
unfoldable pub validate_ports : Ports → Option Problem
unfolding check_ports
validate_ports p =
    check_ports [] (("ui", p.ui) ∷ ("clash", p.clash) ∷ ("dns", p.dns) ∷ ("mixed", p.mixed) ∷ [])

unfoldable pub is_one_of : Text → List Text → Bool
unfolding same
is_one_of s [] = false
is_one_of s (t ∷ ts) = same s t || is_one_of s ts

abbrev pub routing_modes : List Text
routing_modes = [] ∷ codes "tun" ∷ codes "hybrid" ∷ codes "fast" ∷ codes "mixed" ∷ []

abbrev pub offloads : List Text
offloads = [] ∷ codes "off" ∷ codes "sw" ∷ codes "hw" ∷ []

unfoldable pub check_hosts : List Text → Option Problem
unfolding trim_space is_empty
check_hosts [] = none
check_hosts (h ∷ hs) =
    let rest = check_hosts hs in if is_empty (trim_space h) then some blank_host else rest

-- `if bad { return err }` before the rest.
abbrev pub fail_if : Bool → Problem → Option Problem → Option Problem
fail_if bad e rest = if bad then some e else rest

abbrev pub fail_with : Option Problem → Option Problem → Option Problem
fail_with none rest = rest
fail_with (some e) rest = some e

unfoldable pub check_rest : Config → Option Problem
unfolding valid_host_port is_http_url is_one_of is_empty is_cidr same_int check_hosts
check_rest c = fail_if (not (valid_host_port c.listen)) (bad_listen c.listen) (
    fail_if (not (is_empty c.clash.controller) && not (valid_host_port c.clash.controller))
      (bad_controller c.clash.controller)
      (fail_if (not (is_one_of c.routing_mode routing_modes)) (bad_routing_mode c.routing_mode) (
        fail_if (not (is_one_of c.offload offloads)) (bad_offload c.offload) (
          fail_if (not (same_int c.gateway_mtu (pos 0)) && not (in_range 576 9000 c.gateway_mtu))
            (bad_gateway_mtu c.gateway_mtu)
            (fail_if (not (is_empty c.gateway_addr) && not (is_cidr c.gateway_addr))
              (bad_gateway_addr c.gateway_addr)
              (fail_if
                (not (is_empty c.watchdog.notify_url) && not (is_http_url c.watchdog.notify_url))
                (bad_notify_url c.watchdog.notify_url) (check_hosts c.allowed_hosts)))))))

-- `Config.Validate`; `none` is no error.
unfoldable pub validate_config : Config → Option Problem
unfolding validate_ports check_rest is_empty
validate_config c =
    fail_if (is_empty c.listen) no_listen (fail_with (validate_ports c.ports) (check_rest c))
