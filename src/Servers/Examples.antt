-- ===== src/Servers/Examples.antt =====
-- internal/serverstore/serverstore.go: requests on a list of one server.
use velinx.Base.{◌≡◌, refl, true, false, String, List, [], ◌∷◌, Option, none, some, pos}
use velinx.Store.{has_id}
use velinx.Servers.{Server, Store, Contents, opened, open_store, patch, commit, Op, apply, serve}
use velinx.Servers.Persist.{on_disk, list_of, restart_finds_servers}

abbrev host : Server
host = record {
  id = "s1";
  name = "first";
  host = "203.0.113.7";
  port = pos 22;
  user = "root";
  installed = "vless" ∷ [];
  hardened = false;
  note = "";
  created_at = "";
  last_job = "";
}

abbrev store : Store
store = record { path = "/opt/etc/velinx/servers.json"; srv = host ∷ []; file = some (host ∷ []) }

abbrev harden : Server → Server
harden v = record v { hardened = true }

abbrev hardened_store : Store
hardened_store = (apply (Op.patches "s1" harden) none store).0

hardened : apply (Op.patches "s1" harden) none store ≡ (hardened_store, none)
unfolding apply patch commit has_id
hardened = refl

abbrev requests : List (Op × Option String)
requests =
    (Op.patches "s1" harden, some "disk full") ∷ (Op.upserts (record host { id = "s2" }), none) ∷ []

store-opened :
    open_store "/opt/etc/velinx/servers.json" (Contents.holds (host ∷ [])) none ≡ opened store
unfolding open_store
store-opened = refl

restart_finds_servers_example :
    list_of (open_store "/opt/etc/velinx/servers.json" (on_disk (serve requests store).file) none)
    ≡ some (serve requests store).srv
restart_finds_servers_example =
    restart_finds_servers "/opt/etc/velinx/servers.json" (Contents.holds (host ∷ [])) none none
      store requests store-opened
