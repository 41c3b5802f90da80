-- ===== src/Config/Requests/Resets.antt =====
-- internal/server/config.go: when a reset of the settings goes through.
use velinx.Base.{Bool, true, false, List, [], ◌&&◌, not, Option, none, some, ℤ, pos, in_range}
use velinx.Go.Numbers.{itoa}
use velinx.Go.HostPort.{split_host_port, join_host_port}
use velinx.Config.{Text, Config, Ports, same_int}
use velinx.Config.Validate.{Problem}
use velinx.Config.Requests.{Response, saved, preserving}

unfoldable pub is_saved : Response → Bool
is_saved (saved restart) = true
is_saved _ = false

-- A port for the panel that is none of the default ports of the others.
unfoldable pub is_free : ℤ → Bool
unfolding same_int
is_free ui =
    in_range 1 65535 ui
    && not (same_int ui (pos 9090))
    && not (same_int ui (pos 5353))
    && not (same_int ui (pos 7890))

is_none : Option Problem → Bool
is_none none = true
is_none (some e) = false

abbrev default_ports : ℤ → Ports
default_ports ui = record { ui = ui; clash = pos 9090; dns = pos 5353; mixed = pos 7890 }

-- The config of a reset with a bind address and the hosts that may be asked for.
abbrev based : Config → Text → List Text → Config
based old l hosts = record (preserving old) { listen = l; allowed_hosts = hosts }

host_of : Option (Text × Text) → Text
host_of none = []
host_of (some (host, port)) = host

-- The bind address of a reset.
new_listen : Config → Text
unfolding host_of
new_listen old = join_host_port (host_of (split_host_port old.listen)) (itoa old.ports.ui)
