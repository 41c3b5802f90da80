-- ===== src/Config/Requests.antt =====
-- internal/server/config.go: the requests that read and change the settings. The body of a request is the
-- config that its JSON text stands for, or none for a text that is not of this form.
pub mod Sound
pub mod Imports
pub mod Resets
use velinx.Base.{
  ℕ, Bool, true, false, List, [], ◌∷◌, ◌++◌, ◌&&◌, ◌||◌, not, if◌then◌else◌, Option, none, some, ℤ,
}
use velinx.Go.Strings.{codes, same}
use velinx.Go.Numbers.{itoa}
use velinx.Go.HostPort.{split_host_port, join_host_port}
use velinx.Config.{Text, Ports, Clash, SingBox, Config, default, redacted, redacted_mark, same_int}
use velinx.Config.Validate.{Problem, malformed_listen, validate_config}

-- The settings in memory and those in the file.
pub record Server : Type 0 where
  pub cfg : Config
  pub file : Config

pub data Response : Type 0 where
  saved : Bool → Response
  bad_request : Problem → Response
  bad_json : Response
  save_failed : Text → Response
  invalid_reset : Problem → Response

unfoldable pub reconciled : Config → Option (Text × Text) → Option Config
unfolding join_host_port itoa
reconciled c none = none
reconciled c (some (host, port)) =
    some (record c { listen = join_host_port host (itoa c.ports.ui) })

-- `reconcileListen`; `none` is its error.
unfoldable pub reconcile_listen : Config → Option Config
unfolding reconciled split_host_port
reconcile_listen c = reconciled c (split_host_port c.listen)

-- `applyConfigFields`: everything but the subscription.
unfoldable pub apply_config_fields : Config → Config → Config
apply_config_fields dst in_ = record in_ { subscription = dst.subscription }

-- `persistConfig`; `save` is the error of `Save`, and the file is replaced or left as it is.
unfoldable pub persist_config : Option Text → Config → Server → Server × Option Text
unfolding apply_config_fields
persist_config save in_ s =
    let snap = s.cfg in
    let applied = record s { cfg = apply_config_fields s.cfg in_ } in
    elim save [
      | none ↦ (record applied { file = applied.cfg }, none)
      | some e ↦ (record applied { cfg = snap }, some e)
    ]

unfoldable pub same_ports : Ports → Ports → Bool
unfolding same_int
same_ports p q =
    same_int p.ui q.ui
    && same_int p.clash q.clash
    && same_int p.dns q.dns
    && same_int p.mixed q.mixed

unfoldable pub same_bool : Bool → Bool → Bool
same_bool true b = b
same_bool false b = not b

unfoldable pub restart_needed : Config → Config → Bool
unfolding same_ports same_bool same
restart_needed old nw =
    not (same old.listen nw.listen)
    || not (same_ports old.ports nw.ports)
    || not (same old.sing_box.bin nw.sing_box.bin && same old.sing_box.config nw.sing_box.config)
    || not (same old.clash.controller nw.clash.controller && same old.clash.secret nw.clash.secret)
    || not (same_bool old.demo nw.demo)

-- The end of the three handlers.
unfoldable pub persist_and_answer : Option Text → Config → Server → Server × Response
unfolding persist_config restart_needed
persist_and_answer save in_ s =
    let (s', e) = persist_config save in_ s in
    elim e [ none ↦ (s', saved (restart_needed s.cfg in_)) | some err ↦ (s', save_failed err) ]

unfoldable pub if_valid : Option Text → Config → Server → Option Problem → Server × Response
unfolding persist_and_answer
if_valid save in_ s none = persist_and_answer save in_ s
if_valid save in_ s (some e) = (s, bad_request e)

unfoldable pub if_reconciled : Option Text → Server → Option Config → Server × Response
unfolding if_valid validate_config
if_reconciled save s none = (s, bad_request malformed_listen)
if_reconciled save s (some in_) = if_valid save in_ s (validate_config in_)

-- `handlePutConfig`
unfoldable pub put_config : Option Config → Option Text → Server → Server × Response
unfolding if_reconciled reconcile_listen
put_config none save s = (s, bad_json)
put_config (some in_) save s = if_reconciled save s (reconcile_listen in_)

-- A secret that is still masked is the one that is there.
unfoldable pub unmasked : Text → Text → Text
unfolding same
unmasked new old = if same new redacted_mark then old else new

unfoldable pub unredacted : Config → Config → Config
unfolding unmasked
unredacted old in_ = record in_ {
  clash = record (in_.clash) { secret = unmasked in_.clash.secret old.clash.secret };
  watchdog = record (in_.watchdog) {
    notify_url = unmasked in_.watchdog.notify_url old.watchdog.notify_url;
  };
}

-- `handleConfigImport`
unfoldable pub import_config : Option Config → Option Text → Server → Server × Response
unfolding if_reconciled reconcile_listen unredacted
import_config none save s = (s, bad_json)
import_config (some in_) save s = if_reconciled save s (reconcile_listen (unredacted s.cfg in_))

-- `handleConfigExport`: what the attachment stands for.
unfoldable pub export_config : Bool → Server → Config
unfolding redacted
export_config secrets s = if secrets then s.cfg else redacted s.cfg

unfoldable pub or_default_listen : Config → Option Config → Config
unfolding itoa
or_default_listen c none = record c { listen = b':' ∷ itoa c.ports.ui }
or_default_listen c (some d) = d

-- The defaults of `handleConfigReset` with what it preserves.
unfoldable pub preserving : Config → Config
preserving old = record default {
  listen = old.listen;
  ports = record (default.ports) { ui = old.ports.ui };
  allowed_hosts = old.allowed_hosts;
  subscription = old.subscription;
  clash = record (default.clash) { secret = old.clash.secret };
}

unfoldable pub reset_of : Config → Config
unfolding or_default_listen reconcile_listen preserving
reset_of old = or_default_listen (preserving old) (reconcile_listen (preserving old))

unfoldable pub last_check : Option Text → Config → Server → Option Problem → Server × Response
unfolding persist_and_answer
last_check save def s none = persist_and_answer save def s
last_check save def s (some e) = (s, invalid_reset e)

unfoldable pub first_check : Option Text → Config → Server → Option Problem → Server × Response
unfolding persist_and_answer last_check validate_config
first_check save def s none = persist_and_answer save def s
first_check save def s (some e) =
    let bare = record def { allowed_hosts = [] } in last_check save bare s (validate_config bare)

-- `handleConfigReset`
unfoldable pub reset_config : Option Text → Server → Server × Response
unfolding reset_of first_check validate_config
reset_config save s = let def = reset_of s.cfg in first_check save def s (validate_config def)
