-- ===== src/Config/Examples.antt =====
-- internal/server/config.go: requests on the default settings.
use velinx.Base.{◌≡◌, refl, false, none, some, pos}
use velinx.Go.Strings.{codes}
use velinx.Config.{Config, default, redacted}
use velinx.Config.Validate.{validate_config, port_taken, bad_notify_url}
use velinx.Config.Requests.{
  Server, invalid_reset, bad_request, reconcile_listen, put_config, import_config, export_config,
  reset_config,
}
use velinx.Config.Requests.Sound.{Outcome, serve, serve-Outcome, puts}
use velinx.Config.Requests.Imports.{answer, import_config-export_config}

-- Settings with secrets.
abbrev secretive : Config
secretive = record default {
  clash = record (default.clash) { secret = codes "hunter2" };
  watchdog = record { notify_url = codes "https://bot.example/T0KEN" };
  subscription = record (default.subscription) { token = codes "abc" };
}

abbrev server : Server
server = record { cfg = secretive; file = default }

is_valid : validate_config secretive ≡ none
unfolding validate_config
is_valid = refl

is_bound : reconcile_listen secretive ≡ some secretive
unfolding reconcile_listen
is_bound = refl

import_config-export_config_example :
    import_config (some (export_config false server)) none server ≡ answer none server
import_config-export_config_example =
    import_config-export_config false none server is_bound is_valid

-- A masked webhook that is put is no URL.
put_redacted :
    (put_config (some (redacted secretive)) none server).1
    ≡ bad_request (bad_notify_url (codes "***"))
unfolding put_config redacted
put_redacted = refl

-- The panel has the default port of the Clash API, and the Clash API another one.
abbrev swapped : Config
swapped = record default {
  listen = codes "192.168.1.1:9090";
  ports = record (default.ports) { ui = pos 9090; clash = pos 9191 };
}

swapped_valid : validate_config swapped ≡ none
unfolding validate_config
swapped_valid = refl

swapped_reset :
    (reset_config none (record { cfg = swapped; file = swapped })).1
    ≡ invalid_reset (port_taken "clash" "ui" (pos 9090))
unfolding reset_config
swapped_reset = refl

serve-Outcome_example : Outcome server (serve (puts (some swapped)) (some (codes "EROFS")) server)
serve-Outcome_example = serve-Outcome (puts (some swapped)) (some (codes "EROFS")) server
