-- ===== src/Config/Requests/Sound.antt =====
-- internal/server/config.go: which settings a request leaves behind.
use velinx.Base.{◌≡◌, refl, ap, ◌∙◌, Bool, List, [], Option, none, some}
use velinx.Go.Numbers.{itoa}
use velinx.Go.HostPort.{split_host_port, join_host_port, has_code}
use velinx.Go.HostPort.Joined.{IsHost, split-IsHost, split-join}
use velinx.Go.HostPort.Digits.{itoa-IsPort}
use velinx.Config.{Text, Config}
use velinx.Config.Validate.{Problem, validate_config}
use velinx.Config.Requests.{
  Server, Response, saved, save_failed, bad_request, bad_json, invalid_reset, malformed_listen,
  reconcile_listen, reconciled, apply_config_fields, persist_config, persist_and_answer, if_valid,
  if_reconciled, put_config, import_config, unredacted, reset_config, reset_of, preserving,
  or_default_listen, first_check, last_check, restart_needed,
}
use velinx.Config.Requests.Imports.{reconcile_same, validate_same}

-- Its bind address ends in the port of the panel, and it is valid.
pub record Sound (c : Config) : Type 0 where
  pub bound : reconcile_listen c ≡ some c
  pub valid : validate_config c ≡ none

reconciled-bound :
    (c : Config) (host : Text)
    → IsHost host
    → reconcile_listen (record c { listen = join_host_port host (itoa c.ports.ui) })
      ≡ some (record c { listen = join_host_port host (itoa c.ports.ui) })
unfolding reconcile_listen reconciled
reconciled-bound c host h =
    ap (reconciled (record c { listen = join_host_port host (itoa c.ports.ui) }))
      (split-join host (itoa c.ports.ui) h (itoa-IsPort c.ports.ui))

-- What is reconciled once is so for good.
Bound : Option Config → Type 0
Bound none = Unit
Bound (some d) = reconcile_listen d ≡ some d

reconciled-Bound :
    (c : Config) (o : Option (Text × Text))
    → ((host port : Text) → o ≡ some (host, port) → IsHost host)
    → Bound (reconciled c o)
unfolding reconciled Bound
reconciled-Bound c none h = tt
reconciled-Bound c (some (host, port)) h = reconciled-bound c host (h host port refl)

reconcile-Bound : (c : Config) → Bound (reconcile_listen c)
unfolding reconcile_listen
reconcile-Bound c =
    reconciled-Bound c (split_host_port c.listen) (λ host port e. split-IsHost c.listen host port e)

-- Saved, in memory and in the file, or refused with nothing changed.
pub data Outcome (s : Server) : Server × Response → Type 0 where
  committed :
      (c : Config) (restart : Bool)
      → Sound c
      → c.subscription ≡ s.cfg.subscription
      → Outcome s (record { cfg = c; file = c }, saved restart)
  not_json : Outcome s (s, bad_json)
  rejected : (e : Problem) → Outcome s (s, bad_request e)
  unsaved : (e : Text) → Outcome s (s, save_failed e)
  irreparable : (e : Problem) → Outcome s (s, invalid_reset e)

persist-Outcome :
    (save : Option Text) (c : Config) (s : Server)
    → Sound c
    → Outcome s (persist_and_answer save c s)
unfolding persist_and_answer persist_config apply_config_fields
persist-Outcome none c s v =
    committed (record c { subscription = s.cfg.subscription }) (restart_needed s.cfg c)
      (record {
        bound = reconcile_same c s.cfg.subscription v.bound;
        valid = validate_same c s.cfg.subscription ∙ v.valid;
      })
      refl
persist-Outcome (some e) c s v = unsaved e

if_valid-Outcome :
    (save : Option Text) (c : Config) (s : Server) (o : Option Problem)
    → reconcile_listen c ≡ some c
    → validate_config c ≡ o
    → Outcome s (if_valid save c s o)
unfolding if_valid
if_valid-Outcome save c s none r v = persist-Outcome save c s (record { bound = r; valid = v })
if_valid-Outcome save c s (some e) r v = rejected e

if_reconciled-Outcome :
    (save : Option Text) (s : Server) (o : Option Config)
    → Bound o
    → Outcome s (if_reconciled save s o)
unfolding if_reconciled Bound
if_reconciled-Outcome save s none b = rejected malformed_listen
if_reconciled-Outcome save s (some c) b = if_valid-Outcome save c s (validate_config c) b refl

pub put_config-Outcome :
    (body : Option Config) (save : Option Text) (s : Server) → Outcome s (put_config body save s)
unfolding put_config
put_config-Outcome none save s = not_json
put_config-Outcome (some c) save s =
    if_reconciled-Outcome save s (reconcile_listen c) (reconcile-Bound c)

pub import_config-Outcome :
    (body : Option Config) (save : Option Text) (s : Server) → Outcome s (import_config body save s)
unfolding import_config
import_config-Outcome none save s = not_json
import_config-Outcome (some c) save s =
    if_reconciled-Outcome save s (reconcile_listen (unredacted s.cfg c))
      (reconcile-Bound (unredacted s.cfg c))

pub no-IsHost : IsHost []
unfolding has_code
no-IsHost = record { opens = refl; closes = refl }

or_default-Bound :
    (c : Config) (o : Option Config)
    → Bound o
    → reconcile_listen (or_default_listen c o) ≡ some (or_default_listen c o)
unfolding or_default_listen Bound join_host_port
or_default-Bound c none b = reconciled-bound c [] no-IsHost
or_default-Bound c (some d) b = b

pub reset_of-bound : (old : Config) → reconcile_listen (reset_of old) ≡ some (reset_of old)
unfolding reset_of
reset_of-bound old =
    or_default-Bound (preserving old) (reconcile_listen (preserving old))
      (reconcile-Bound (preserving old))

with_hosts : List Text → Option Config → Option Config
with_hosts x none = none
with_hosts x (some c) = some (record c { allowed_hosts = x })

reconciled_hosts :
    (c : Config) (x : List Text) (o : Option (Text × Text))
    → reconciled (record c { allowed_hosts = x }) o ≡ with_hosts x (reconciled c o)
unfolding reconciled with_hosts
reconciled_hosts c x none = refl
reconciled_hosts c x (some (host, port)) = refl

bound_hosts :
    (c : Config) (x : List Text)
    → reconcile_listen c ≡ some c
    → reconcile_listen (record c { allowed_hosts = x }) ≡ some (record c { allowed_hosts = x })
unfolding reconcile_listen with_hosts
bound_hosts c x h = reconciled_hosts c x (split_host_port c.listen) ∙ ap (with_hosts x) h

last_check-Outcome :
    (save : Option Text) (c : Config) (s : Server) (o : Option Problem)
    → reconcile_listen c ≡ some c
    → validate_config c ≡ o
    → Outcome s (last_check save c s o)
unfolding last_check
last_check-Outcome save c s none r v = persist-Outcome save c s (record { bound = r; valid = v })
last_check-Outcome save c s (some e) r v = irreparable e

first_check-Outcome :
    (save : Option Text) (c : Config) (s : Server) (o : Option Problem)
    → reconcile_listen c ≡ some c
    → validate_config c ≡ o
    → Outcome s (first_check save c s o)
unfolding first_check
first_check-Outcome save c s none r v = persist-Outcome save c s (record { bound = r; valid = v })
first_check-Outcome save c s (some e) r v =
    last_check-Outcome save (record c { allowed_hosts = [] }) s _ (bound_hosts c [] r) refl

pub reset_config-Outcome : (save : Option Text) (s : Server) → Outcome s (reset_config save s)
unfolding reset_config
reset_config-Outcome save s =
    first_check-Outcome save (reset_of s.cfg) s _ (reset_of-bound s.cfg) refl

-- A request that changes the settings.
pub data Request : Type 0 where
  puts imports : Option Config → Request
  resets : Request

unfoldable pub serve : Request → Option Text → Server → Server × Response
serve (puts body) save s = put_config body save s
serve (imports body) save s = import_config body save s
serve resets save s = reset_config save s

-- A put, an import or a reset of the settings leaves memory and file as they were and says why, or it
-- leaves both with the same valid config, whose bind address ends in the port of the panel and whose
-- subscription is the one of before; this also when the file cannot be written.
pub serve-Outcome : (r : Request) (save : Option Text) (s : Server) → Outcome s (serve r save s)
unfolding serve
serve-Outcome (puts body) save s = put_config-Outcome body save s
serve-Outcome (imports body) save s = import_config-Outcome body save s
serve-Outcome resets save s = reset_config-Outcome save s
