-- ===== src/Model/Matchers.antt =====
-- internal/model/validate.go: the matchers of a rule, the source of a routing list, and builtin targets.
use velinx.Base.{
  ℕ, String, Bool, true, false, List, [], ◌∷◌, Option, none, some, ◌&&◌, ◌||◌, not, ltb, ◌==◌,
  if◌then◌else◌, ℤ, in_range,
}
use velinx.Go.Strings.{
  codes, trim_space, to_lower, to_upper, is_empty, same, has_prefix, trim_prefix, split, byte_len,
  all_codes, between, is_digit,
}
use velinx.Go.Ip.{is_ip, is_cidr}
use velinx.Go.Mac.{is_mac}
use velinx.Model.{Rule, outbound_direct, outbound_block}

unfoldable pub is_blank : String → Bool
unfolding trim_space is_empty
is_blank s = is_empty (trim_space (codes s))

unfoldable pub has_non_blank : List String → Bool
has_non_blank [] = false
has_non_blank (s ∷ ss) = not (is_blank s) || has_non_blank ss

unfoldable pub rule_has_no_matcher : Rule → Bool
unfolding is_empty
rule_has_no_matcher r =
    not (has_non_blank r.domain_suffix)
    && not (has_non_blank r.domain)
    && not (has_non_blank r.geo_site)
    && not (has_non_blank r.geo_ip)
    && not (has_non_blank r.ip_cidr)
    && is_empty r.port
    && not (has_non_blank r.source_ip_cidr)
    && not (has_non_blank r.source_mac)
    && not (has_non_blank r.source_iface)
    && is_empty r.source_port

unfoldable pub has_source_matcher : Rule → Bool
unfolding is_empty
has_source_matcher r =
    has_non_blank r.source_ip_cidr
    || has_non_blank r.source_mac
    || has_non_blank r.source_iface
    || not (is_empty r.source_port)

-- An entry that is blank, a CIDR or a bare address.
unfoldable pub cidr_accepted : String → Bool
cidr_accepted c = let s = trim_space (codes c) in is_empty s || is_cidr s || is_ip s

unfoldable pub first_rejected : (String → Bool) → List String → Option String
first_rejected accepted [] = none
first_rejected accepted (c ∷ cs) =
    let rest = first_rejected accepted cs in if accepted c then rest else some c

unfoldable pub first_invalid_cidr : List String → Option String
unfolding first_rejected
first_invalid_cidr cidrs = first_rejected cidr_accepted cidrs

unfoldable pub mac_accepted : String → Bool
mac_accepted m = let s = trim_space (codes m) in is_empty s || is_mac s

strip_star : List ℕ → List ℕ
strip_star [] = []
strip_star (c ∷ []) = if c == b'*' then [] else c ∷ []
strip_star (c ∷ d ∷ s) = c ∷ strip_star (d ∷ s)

iface_code : ℕ → Bool
iface_code c =
    between b'a' b'z' c
    || between b'A' b'Z' c
    || is_digit c
    || c == b'.'
    || c == b'-'
    || c == b'_'
    || c == b'@'

unfoldable pub valid_source_iface : List ℕ → Bool
unfolding strip_star iface_code is_empty byte_len all_codes
valid_source_iface s =
    let t = strip_star s in
    not (is_empty s) && not (ltb 15 (byte_len s)) && not (is_empty t) && all_codes iface_code t

unfoldable pub iface_accepted : String → Bool
iface_accepted i = let s = trim_space (codes i) in is_empty s || valid_source_iface s

-- `port < 0 || port > 65535`, for the first port that is so.
unfoldable pub first_bad_port : List ℤ → Option ℤ
first_bad_port [] = none
first_bad_port (p ∷ ps) =
    let rest = first_bad_port ps in if in_range 0 65535 p then rest else some p

asn_accepted : List ℕ → Bool
unfolding trim_space to_upper trim_prefix is_empty all_codes
asn_accepted a =
    let n = trim_prefix (codes "AS") (to_upper (trim_space a)) in
    not (is_empty n) && all_codes (λ c. is_digit c) n

all_asns : List (List ℕ) → Bool
unfolding asn_accepted
all_asns [] = true
all_asns (a ∷ as') = asn_accepted a && all_asns as'

unfoldable pub valid_cidr_source : List ℕ → Bool
unfolding has_prefix trim_prefix trim_space is_empty split all_asns
valid_cidr_source s =
    let list = trim_prefix (codes "asn:") s in
    if has_prefix (codes "https://") s || has_prefix (codes "http://") s
    then true
    else if not (has_prefix (codes "asn:") s)
    then false
    else not (is_empty (trim_space list)) && all_asns (split b',' list)

unfoldable pub is_builtin : String → Bool
unfolding to_lower same
is_builtin target =
    let t = to_lower (codes target) in
    same t (codes outbound_direct) || same t (codes outbound_block)
