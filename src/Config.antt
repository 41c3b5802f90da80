-- ===== src/Config.antt =====
-- internal/config/config.go: the settings of the daemon. A text is a list of code points, `int` a signed
-- integer. The path of the file is not part of the record; a list that is nil is an empty one.
pub mod Validate
pub mod Requests
mod Examples
use velinx.Base.{
  ℕ, Bool, true, false, List, [], ◌∷◌, ◌&&◌, not, if◌then◌else◌, ℤ, pos, negsuc, ◌==◌,
}
use velinx.Go.Strings.{codes, is_empty, same}

abbrev pub Text : Type 0
Text = List ℕ

pub record Ports : Type 0 where
  pub ui : ℤ
  pub clash : ℤ
  pub dns : ℤ
  pub mixed : ℤ

pub record Clash : Type 0 where
  pub controller : Text
  pub secret : Text

pub record SingBox : Type 0 where
  pub bin : Text
  pub config : Text

pub record Updater : Type 0 where
  pub arch : Text
  pub mirrors : List Text
  pub self_repo : Text
  pub auto_update : Bool

pub record FailSafe : Type 0 where
  pub target : Text
  pub auto_reboot : Bool

pub record Watchdog : Type 0 where
  pub notify_url : Text

pub record Subscription : Type 0 where
  pub token : Text
  pub url : Text
  pub refresh_hours : ℤ

pub record Config : Type 0 where
  pub listen : Text
  pub data_dir : Text
  pub demo : Bool
  pub gateway : Bool
  pub gateway_mtu : ℤ
  pub gateway_addr : Text
  pub routing_mode : Text
  pub offload : Text
  pub offload_devices : List Text
  pub ports : Ports
  pub clash : Clash
  pub sing_box : SingBox
  pub updater : Updater
  pub fail_safe : FailSafe
  pub watchdog : Watchdog
  pub subscription : Subscription
  pub allowed_hosts : List Text

-- `Default`
abbrev pub default : Config
default = record {
  listen = codes ":8088";
  data_dir = codes "/opt/var/velinx";
  demo = false;
  gateway = false;
  gateway_mtu = pos 0;
  gateway_addr = [];
  routing_mode = [];
  offload = [];
  offload_devices = [];
  ports = record { ui = pos 8088; clash = pos 9090; dns = pos 5353; mixed = pos 7890 };
  clash = record { controller = codes "127.0.0.1:9090"; secret = [] };
  sing_box = record {
    bin = codes "/opt/sbin/sing-box";
    config = codes "/opt/etc/velinx/singbox.json";
  };
  updater = record {
    arch = [];
    mirrors = [] ∷ codes "https://ghproxy.net/" ∷ codes "https://mirror.ghproxy.com/" ∷ [];
    self_repo = [];
    auto_update = false;
  };
  fail_safe = record { target = codes "1.1.1.1"; auto_reboot = false };
  watchdog = record { notify_url = [] };
  subscription = record { token = []; url = []; refresh_hours = pos 0 };
  allowed_hosts = [];
}

abbrev pub redacted_mark : Text
redacted_mark = codes "***"

-- A text that is not empty is masked.
unfoldable pub mask : Text → Text
unfolding is_empty
mask s = if is_empty s then s else redacted_mark

-- `Redacted`
unfoldable pub redacted : Config → Config
unfolding mask
redacted c = record c {
  clash = record (c.clash) { secret = mask c.clash.secret };
  subscription = record (c.subscription) {
    token = mask c.subscription.token;
    url = mask c.subscription.url;
  };
  watchdog = record (c.watchdog) { notify_url = mask c.watchdog.notify_url };
}

unfoldable pub same_int : ℤ → ℤ → Bool
same_int (pos m) (pos n) = m == n
same_int (negsuc m) (negsuc n) = m == n
same_int _ _ = false
