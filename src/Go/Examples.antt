-- ===== src/Go/Examples.antt =====
-- The models of `strings`, `net` and `encoding/base64` on texts whose answer is known.
use velinx.Base.{◌≡◌, refl, true, false, some, none}
use velinx.Go.Strings.{codes, trim_space, to_lower}
use velinx.Go.Ip.{is_ip, is_cidr}
use velinx.Go.Netip.{parse_prefix, print_prefix}
use velinx.Base.{Option, none, List, ℕ}
use velinx.Go.Mac.{is_mac}
use velinx.Go.Base64.{decoded_len}

trimmed : trim_space (codes " \tab c ") ≡ codes "ab c"
unfolding trim_space
trimmed = refl

lowered : to_lower (codes "DİRECT") ≡ codes "direct"
unfolding to_lower
lowered = refl

addresses :
    (is_ip (codes "10.0.0.1") ≡ true)
    × (is_ip (codes "10.0.0.01") ≡ false)
    × (is_ip (codes "10.0.0.256") ≡ false)
    × (is_ip (codes "1.2.3") ≡ false)
    × (is_ip (codes "::1") ≡ true)
    × (is_ip (codes "2001:db8::8:800:200c:417a") ≡ true)
    × (is_ip (codes "::ffff:10.0.0.1") ≡ true)
    × (is_ip (codes "1:2:3:4:5:6:7:8") ≡ true)
    × (is_ip (codes "1:2:3:4:5:6:7:8:9") ≡ false)
    × (is_ip (codes "1::2::3") ≡ false)
    × (is_ip (codes "fe80::1%eth0") ≡ false)
unfolding is_ip
addresses = (refl, refl, refl, refl, refl, refl, refl, refl, refl, refl, refl)

prefixes :
    (is_cidr (codes "10.0.0.0/8") ≡ true)
    × (is_cidr (codes "10.0.0.0/33") ≡ false)
    × (is_cidr (codes "10.0.0.0/") ≡ false)
    × (is_cidr (codes "10.0.0.0") ≡ false)
    × (is_cidr (codes "2001:db8::/32") ≡ true)
    × (is_cidr (codes "1.2.3.4/08") ≡ true)
unfolding is_cidr
prefixes = (refl, refl, refl, refl, refl, refl)

hardware :
    (is_mac (codes "aa:bb:cc:dd:ee:ff") ≡ true)
    × (is_mac (codes "aa-bb-cc-dd-ee-ff") ≡ true)
    × (is_mac (codes "aabb.ccdd.eeff") ≡ true)
    × (is_mac (codes "aa:bb:cc:dd:ee") ≡ false)
    × (is_mac (codes "aa:bb:cc:dd:ee:fg") ≡ false)
unfolding is_mac
hardware = (refl, refl, refl, refl, refl)

decoded :
    (decoded_len (record { url = false; padded = true }) (codes "aGVsbG8=") ≡ some 5)
    × (decoded_len (record { url = false; padded = false }) (codes "aGVsbG8") ≡ some 5)
    × (decoded_len (record { url = false; padded = true }) (codes "aGVsbG8") ≡ none)
unfolding decoded_len
decoded = (refl, refl, refl)

reprinted : List ℕ → Option (List ℕ)
unfolding parse_prefix print_prefix
reprinted s = elim (parse_prefix s) [
  | none ↦ none
  | some (a, n) ↦ some (print_prefix a.width a.value n)
]

printed :
    (reprinted (codes "10.20.0.255/8") ≡ some (codes "10.20.0.255/8"))
    × (reprinted (codes "2001:DB8:0:0:1:0:0:0/32") ≡ some (codes "2001:db8:0:0:1::/32"))
    × (reprinted (codes "::/0") ≡ some (codes "::/0"))
    × (reprinted (codes "::ffff:1.2.3.4/128") ≡ some (codes "::ffff:1.2.3.4/128"))
    × (reprinted (codes "1::2:3:4:5:6:7/9") ≡ some (codes "1:0:2:3:4:5:6:7/9"))
    × (reprinted (codes "fe80::1%eth0/64") ≡ none)
    × (reprinted (codes "10.0.0.0/08") ≡ none)
unfolding reprinted
printed = (refl, refl, refl, refl, refl, refl, refl)
