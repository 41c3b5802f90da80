-- ===== src/Pbr/Classify.antt =====
-- internal/pbr/pbr.go: `classifyCIDRs`, `normalizeDomains` and `nftName`.
pub mod Networks
pub mod OnlyV4
use velinx.Base.{
  ℕ, Bool, true, false, List, [], ◌∷◌, ◌++◌, ◌&&◌, ◌||◌, not, ◌==◌, ltb, if◌then◌else◌, Option,
  none, some, map,
}
use velinx.Go.Strings.{
  codes, trim_space, to_lower, trim_prefix, is_empty, contains as contains_text, between, same,
}
use velinx.Go.Same.{has_text}
use velinx.Go.Sort.{sort, any}
use velinx.Go.Ip.{Addr, parse_addr}
use velinx.Go.Netip.{parse_prefix, print_prefix}
use velinx.Pbr.Prefixes.{Prefix, masked, collapse_prefixes}

-- What the loop does with an entry.
pub data Entry : Type 0 where
  blank : Entry
  bad_entry : List ℕ → Entry
  network : ℕ → Prefix → Entry

unfoldable pub of_prefix : List ℕ → Option (Addr × ℕ) → Entry
unfolding masked
of_prefix s none = bad_entry s
of_prefix s (some (a, n)) = network a.width (masked a.width (record { addr = a.value; bits = n }))

unfoldable pub of_addr : List ℕ → Option Addr → Entry
of_addr s none = bad_entry s
of_addr s (some a) = network a.width (record { addr = a.value; bits = a.width })

unfoldable pub trimmed_entry : List ℕ → Entry
unfolding of_prefix of_addr parse_prefix parse_addr contains_text is_empty
trimmed_entry s =
    if is_empty s
    then blank
    else if contains_text (codes "/") s
    then of_prefix s (parse_prefix s)
    else of_addr s (parse_addr s)

unfoldable pub read_entry : List ℕ → Entry
unfolding trimmed_entry trim_space
read_entry s = trimmed_entry (trim_space s)

-- `p4`, `p6` and `bad`
pub record Entries : Type 0 where
  pub p4 : List Prefix
  pub p6 : List Prefix
  pub bad : List (List ℕ)

unfoldable pub print : ℕ → Prefix → List ℕ
unfolding print_prefix
print w p = print_prefix w p.addr p.bits

-- `if !seen[pfx.String()]`
unfoldable pub add_unseen : ℕ → Prefix → List Prefix → List Prefix
unfolding any same print
add_unseen w p ps = if any (λ q. same (print w q) (print w p)) ps then ps else ps ++ (p ∷ [])

unfoldable pub take_entry : Entry → Entries → Entries
unfolding add_unseen
take_entry blank e = e
take_entry (bad_entry s) e = record e { bad = e.bad ++ (s ∷ []) }
take_entry (network w p) e =
    if w == 128
    then record e { p6 = add_unseen 128 p e.p6 }
    else record e { p4 = add_unseen 32 p e.p4 }

unfoldable pub take_entries : List (List ℕ) → Entries → Entries
unfolding take_entry read_entry
take_entries [] e = e
take_entries (s ∷ ss) e = take_entries ss (take_entry (read_entry s) e)

pub record Classified : Type 0 where
  pub v4 : List (List ℕ)
  pub v6 : List (List ℕ)
  pub bad : List (List ℕ)

abbrev pub no_entries : Entries
no_entries = record { p4 = []; p6 = []; bad = [] }

unfoldable pub classify_cidrs : List (List ℕ) → Classified
unfolding take_entries collapse_prefixes print
classify_cidrs ss =
    let e = take_entries ss no_entries in
    record {
      v4 = map (print 32) (collapse_prefixes 32 e.p4);
      v6 = map (print 128) (collapse_prefixes 128 e.p6);
      bad = e.bad;
    }

-- The order of `sort.Strings`: that of the UTF-8 bytes, which is that of the code points.
unfoldable pub text_before : List ℕ → List ℕ → Bool
text_before [] [] = false
text_before [] (_ ∷ _) = true
text_before (_ ∷ _) [] = false
text_before (c ∷ s) (d ∷ t) = ltb c d || (c == d && text_before s t)

is_noise_code : ℕ → Bool
is_noise_code c = c == b' ' || c == 9 || c == b'#' || c == b'!' || c == b'/'

bare_domain : List ℕ → List ℕ
unfolding to_lower trim_space trim_prefix
bare_domain s = trim_prefix (codes ".") (trim_prefix (codes "*.") (to_lower (trim_space s)))

is_noise : List ℕ → Bool
unfolding any is_noise_code is_empty contains_text
is_noise s = is_empty s || any is_noise_code s || not (contains_text (codes ".") s)

-- The loop, with `out` so far.
new_domains : List (List ℕ) → List (List ℕ) → List (List ℕ)
unfolding is_noise has_text bare_domain
new_domains out [] = out
new_domains out (s ∷ ss) =
    let d = bare_domain s in
    let out' = if is_noise d || has_text d out then out else out ++ (d ∷ []) in new_domains out' ss

unfoldable pub normalize_domains : List (List ℕ) → List (List ℕ)
unfolding new_domains sort text_before
normalize_domains ss = sort text_before (new_domains [] ss)

nft_code : ℕ → ℕ
nft_code c =
    if between b'a' b'z' c || between b'A' b'Z' c || between b'0' b'9' c || c == b'_'
    then c
    else b'_'

unfoldable pub nft_name : List ℕ → List ℕ
unfolding nft_code
nft_name s = map nft_code s
