-- ===== src/Model/Params.antt =====
-- internal/model/validate.go: the fields that a protocol needs, and the values that sing-box refuses.
use velinx.Base.{
  ℕ, ◌+◌, String, Bool, true, false, List, [], ◌∷◌, Option, none, some, ◌&&◌, ◌||◌, not, ◌==◌, ◌=$◌,
  if◌then◌else◌,
}
use velinx.Go.Strings.{codes, trim_space, is_empty, same, has_prefix, contains, byte_len, is_hex}
use velinx.Go.Base64.{Encoding, decoded_len}
use velinx.Model.{
  Any, text, Endpoint, proto_tuic, proto_shadowsocks, proto_wireguard, proto_amneziawg,
}

unfoldable pub lookup : String → List (String × Any) → Option Any
lookup k [] = none
lookup k ((j, v) ∷ m) = let rest = lookup k m in if j =$ k then some v else rest

text_value : Option Any → List ℕ
text_value (some (text s)) = trim_space (codes s)
text_value _ = []

-- `get`: the trimmed text of a parameter, and "" if it is missing or no text.
unfoldable pub param : Endpoint → String → List ℕ
unfolding lookup text_value
param e k = text_value (lookup k e.params)

unfoldable pub first_empty : Endpoint → List String → Option String
unfolding param is_empty
first_empty e [] = none
first_empty e (k ∷ ks) =
    let rest = first_empty e ks in if is_empty (param e k) then some k else rest

unfoldable pub missing_proto_param : Endpoint → Option String
unfolding first_empty
missing_proto_param e =
    if e.protocol =$ proto_tuic
    then first_empty e ("uuid" ∷ [])
    else if e.protocol =$ proto_shadowsocks
    then first_empty e ("method" ∷ "password" ∷ [])
    else if e.protocol =$ proto_wireguard || e.protocol =$ proto_amneziawg
    then first_empty e ("private_key" ∷ "peer_public_key" ∷ [])
    else none

known_ss_methods : List String
known_ss_methods =
    "aes-128-gcm" ∷ "aes-192-gcm" ∷ "aes-256-gcm" ∷ "chacha20-ietf-poly1305"
    ∷ "xchacha20-ietf-poly1305" ∷ "2022-blake3-aes-128-gcm" ∷ "2022-blake3-aes-256-gcm"
    ∷ "2022-blake3-chacha20-poly1305" ∷ "aes-128-ctr" ∷ "aes-192-ctr" ∷ "aes-256-ctr"
    ∷ "aes-128-cfb" ∷ "aes-192-cfb" ∷ "aes-256-cfb" ∷ "rc4-md5" ∷ "chacha20-ietf" ∷ "xchacha20"
    ∷ "none" ∷ []

is_listed : List ℕ → List String → Bool
unfolding same
is_listed s [] = false
is_listed s (k ∷ ks) = same s (codes k) || is_listed s ks

unfoldable pub known_ss_method : List ℕ → Bool
unfolding is_listed known_ss_methods
known_ss_method m = is_listed m known_ss_methods

is_dash_place : ℕ → Bool
is_dash_place i = i == 8 || i == 13 || i == 18 || i == 23

-- The characters of a UUID from place `i` on.
uuid_from : ℕ → List ℕ → Bool
unfolding is_dash_place
uuid_from i [] = true
uuid_from i (c ∷ s) = (if is_dash_place i then c == b'-' else is_hex c) && uuid_from (i + 1) s

-- The source walks bytes; a character of more than one byte is refused by both.
unfoldable pub is_uuidish : List ℕ → Bool
unfolding uuid_from byte_len
is_uuidish s = byte_len s == 36 && uuid_from 0 s

first_decoded : List Encoding → List ℕ → Option ℕ
first_decoded [] s = none
first_decoded (e ∷ es) s = elim (decoded_len e s) [ none ↦ first_decoded es s | some n ↦ some n ]

encoding : Bool → Bool → Encoding
encoding url padded = record { url = url; padded = padded }

-- The decoded length by the first encoding that accepts the text; `none` stands for -1.
unfoldable pub b64_len : List ℕ → Option ℕ
unfolding first_decoded encoding
b64_len s =
    first_decoded
      (encoding false true ∷ encoding false false ∷ encoding true true ∷ encoding true false ∷ []) s

pub data Invalid : Type 0 where
  invalid_uuid unsupported_method : Invalid
  wrong_key_length : ℕ → Invalid

has_length : ℕ → Option ℕ → Bool
has_length n none = false
has_length n (some m) = m == n

-- The key that a Shadowsocks-2022 method needs.
invalid_ss_key : List ℕ → List ℕ → Option Invalid
unfolding is_empty contains has_prefix b64_len has_length
invalid_ss_key m pw =
    let want = if contains (codes "aes-128") m then 16 else 32 in
    if not (has_prefix (codes "2022-blake3-") m)
    then none
    else if not (is_empty pw) && not (has_length want (b64_len pw))
    then some (wrong_key_length want)
    else none

unfoldable pub invalid_proto_param : Endpoint → Option Invalid
unfolding param is_empty known_ss_method is_uuidish invalid_ss_key
invalid_proto_param e =
    let u = param e "uuid" in
    let m = param e "method" in
    if e.protocol =$ proto_tuic
    then (if not (is_empty u) && not (is_uuidish u) then some invalid_uuid else none)
    else if e.protocol =$ proto_shadowsocks
    then (if not (is_empty m) && not (known_ss_method m)
        then some unsupported_method
        else invalid_ss_key m (param e "password"))
    else none
