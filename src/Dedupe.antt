-- ===== src/Dedupe.antt =====
-- internal/importer/dedupe.go: which endpoints of a bulk import are new. A key is a text as code points;
-- the two maps are association lists, newest entry first.
pub mod Count
pub mod Keys
mod Examples
use velinx.Base.{
  ℕ, suc, ◌+◌, ◌*◌, ◌/◌, ◌%◌, String, Bool, true, false, List, [], ◌∷◌, ◌++◌, Option, none, some, ℤ,
  pos, negsuc, ◌&&◌, ◌||◌, not, ◌=$◌, ltb, if◌then◌else◌, zero,
}
use velinx.Go.Strings.{codes, trim_space, to_lower, same}
use velinx.Go.Numbers.{itoa}
use velinx.Model.{Any, nil, text, items, other, Transport, Tls, Endpoint}
use velinx.Model.Params.{lookup}

print : Option Any → List ℕ
print none = []
print (some nil) = []
print (some (text s)) = trim_space (codes s)
print (some (items xs s)) = codes s
print (some (other s)) = codes s

unfoldable pub param_str : List (String × Any) → String → List ℕ
unfolding lookup print
param_str p k = print (lookup k p)

-- Fields that are written after one another with a bar between two.
bars : List (List ℕ) → List ℕ
bars [] = []
bars (f ∷ []) = f
bars (f ∷ fs) = f ++ b'|' ∷ bars fs

commas : List String → List ℕ
commas [] = []
commas (a ∷ []) = to_lower (trim_space (codes a))
commas (a ∷ as_) = to_lower (trim_space (codes a)) ++ b',' ∷ commas as_

folded : String → List ℕ
folded s = to_lower (trim_space (codes s))

transport_fields : Option Transport → List (List ℕ)
unfolding folded
transport_fields none = [] ∷ [] ∷ [] ∷ [] ∷ []
transport_fields (some t) =
    folded t.type
    ∷ trim_space (codes t.path)
    ∷ folded t.host
    ∷ trim_space (codes t.service_name)
    ∷ []

tls_fields : Option Tls → List (List ℕ)
unfolding folded commas
tls_fields none = codes "0" ∷ [] ∷ [] ∷ [] ∷ [] ∷ [] ∷ []
tls_fields (some s) =
    codes (if s.enabled then "1" else "0")
    ∷ folded s.type
    ∷ folded s.sni
    ∷ trim_space (codes s.public_key)
    ∷ trim_space (codes s.short_id)
    ∷ commas s.alpn
    ∷ []

unfoldable pub content_key : Endpoint → List ℕ
unfolding param_str itoa bars folded transport_fields tls_fields
content_key e = bars (
    to_lower (codes e.protocol)
    ∷ to_lower (codes e.engine)
    ∷ folded e.server
    ∷ itoa e.port
    ∷ param_str e.params "uuid"
    ∷ param_str e.params "password"
    ∷ param_str e.params "peer_public_key"
    ∷ param_str e.params "private_key"
    ∷ param_str e.params "method"
    ∷ param_str e.params "interface"
    ∷ (transport_fields e.transport ++ tls_fields e.tls))

-- `ids`
unfoldable pub ids_of : List Endpoint → List (String × List ℕ) → List (String × List ℕ)
unfolding content_key
ids_of [] m = m
ids_of (e ∷ es) m = ids_of es ((e.id, content_key e) ∷ m)

unfoldable pub id_key : String → List (String × List ℕ) → Option (List ℕ)
id_key k [] = none
id_key k ((j, v) ∷ m) = let rest = id_key k m in if j =$ k then some v else rest

-- `keys`
unfoldable pub keys_of : List Endpoint → List (List ℕ)
unfolding content_key
keys_of [] = []
keys_of (e ∷ es) = content_key e ∷ keys_of es

unfoldable pub has_key : List ℕ → List (List ℕ) → Bool
unfolding same
has_key k [] = false
has_key k (j ∷ ks) = same j k || has_key k ks

unfoldable pub same_key : Option (List ℕ) → List ℕ → Bool
unfolding same
same_key none k = false
same_key (some j) k = same j k

-- Whether the import writes over an endpoint of the same id and the same content.
unfoldable pub is_update : List (String × List ℕ) → Endpoint → Bool
unfolding id_key same_key content_key
is_update ids e = not (e.id =$ "") && same_key (id_key e.id ids) (content_key e)

unfoldable pub keep : Endpoint → List Endpoint × ℕ → List Endpoint × ℕ
keep e (us, n) = (e ∷ us, n)

unfoldable pub drop_one : List Endpoint × ℕ → List Endpoint × ℕ
drop_one (us, n) = (us, n + 1)

-- The loop over the incoming endpoints.
unfoldable pub dedupe : List (String × List ℕ) → List (List ℕ) → List Endpoint → List Endpoint × ℕ
unfolding is_update has_key keep drop_one content_key
dedupe ids keys [] = ([], 0)
dedupe ids keys (e ∷ es) =
    let kept = is_update ids e || not (has_key (content_key e) keys) in
    let keys' =
      if is_update ids e || has_key (content_key e) keys then keys else content_key e ∷ keys in
    let rest = dedupe ids keys' es in if kept then keep e rest else drop_one rest

unfoldable pub dedupe_new : List Endpoint → List Endpoint → List Endpoint × ℕ
unfolding dedupe ids_of keys_of
dedupe_new existing incoming = dedupe (ids_of existing []) (keys_of existing) incoming
