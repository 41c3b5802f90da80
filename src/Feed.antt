-- ===== src/Feed.antt =====
-- internal/cidrfeed/cidrfeed.go: the feeds of networks that a routing list is refreshed from.
pub mod Lines
pub mod Words
pub mod Written
pub mod Answers
mod Examples
use velinx.Base.{
  ℕ, ◌+◌, Bool, true, false, List, [], ◌∷◌, ◌++◌, ◌&&◌, ◌||◌, not, ◌==◌, if◌then◌else◌, Option,
  none, some,
}
use velinx.Go.Strings.{
  codes, is_empty, is_space, trim_space, to_upper, has_prefix, trim_prefix, split, all_codes,
  is_digit, contains as contains_text,
}
use velinx.Go.Same.{has_text}
use velinx.Go.Ip.{Addr, parse_addr}
use velinx.Go.Netip.{parse_prefix}
use velinx.Pbr.Prefixes.{masked}
use velinx.Pbr.Classify.{print}

unfoldable pub norm_prefix : Option (Addr × ℕ) → Option (List ℕ)
unfolding masked print
norm_prefix none = none
norm_prefix (some (a, n)) =
    some (print a.width (masked a.width (record { addr = a.value; bits = n })))

unfoldable pub norm_addr : Option Addr → Option (List ℕ)
unfolding print
norm_addr none = none
norm_addr (some a) = some (print a.width (record { addr = a.value; bits = a.width }))

-- `normalize`
unfoldable pub normalize : List ℕ → Option (List ℕ)
unfolding norm_prefix norm_addr parse_prefix parse_addr contains_text
normalize s =
    if contains_text (codes "/") s then norm_prefix (parse_prefix s) else norm_addr (parse_addr s)

-- The line before its comment.
unfoldable pub before_comment : List ℕ → List ℕ
before_comment [] = []
before_comment (c ∷ s) =
    let rest = before_comment s in if c == b'#' || c == b';' then [] else c ∷ rest

-- `strings.Fields(line)[0]`, of a line that has no space in front.
unfoldable pub first_field : List ℕ → List ℕ
unfolding is_space
first_field [] = []
first_field (c ∷ s) = let rest = first_field s in if is_space c then [] else c ∷ rest

-- What is known so far: the networks, which are the keys of `seen` too, and how many were no network.
pub record Feed : Type 0 where
  pub cidrs : List (List ℕ)
  pub skipped : ℕ

abbrev pub no_feed : Feed
no_feed = record { cidrs = []; skipped = 0 }

-- `if !seen[norm]`
unfoldable pub add_new : List ℕ → List (List ℕ) → List (List ℕ)
unfolding has_text
add_new s seen = if has_text s seen then seen else seen ++ (s ∷ [])

unfoldable pub take_norm : Option (List ℕ) → Feed → Feed
unfolding add_new
take_norm none f = record f { skipped = f.skipped + 1 }
take_norm (some s) f = record f { cidrs = add_new s f.cidrs }

unfoldable pub text_of_line : List ℕ → List ℕ
unfolding trim_space before_comment
text_of_line raw = trim_space (before_comment raw)

unfoldable pub take_line : List ℕ → Feed → Feed
unfolding take_norm normalize text_of_line first_field is_empty
take_line raw f =
    let line = text_of_line raw in
    if is_empty line then f else take_norm (normalize (first_field line)) f

unfoldable pub take_lines : List (List ℕ) → Feed → Feed
unfolding take_line
take_lines [] f = f
take_lines (l ∷ ls) f = take_lines ls (take_line l f)

-- `ParseList`
unfoldable pub parse_list : List ℕ → Feed
unfolding take_lines split
parse_list text = take_lines (split b'\n' text) no_feed

unfoldable pub take_prefixes : List (List ℕ) → Feed → Feed
unfolding take_norm normalize trim_space
take_prefixes [] f = f
take_prefixes (p ∷ ps) f = take_prefixes ps (take_norm (normalize (trim_space p)) f)

-- The prefixes of the answers that were merged, with those of one more.
unfoldable pub merged : List (List ℕ) → List (List ℕ) → List (List ℕ)
unfolding add_new
merged [] seen = seen
merged (c ∷ cs) seen = merged cs (add_new c seen)

pub data FetchError : Type 0 where
  unsupported : List ℕ → FetchError
  invalid_asn : List ℕ → FetchError
  asn_failed : List ℕ → FetchError
  feed_failed : FetchError
  no_asns : List ℕ → FetchError

pub data Fetched : Type 0 where
  fetched : Feed → Fetched
  fetch_failed : FetchError → Fetched

unfoldable pub is_digits : List ℕ → Bool
unfolding is_empty all_codes
is_digits s = not (is_empty s) && all_codes is_digit s

unfoldable pub asn_of : List ℕ → List ℕ
unfolding trim_prefix to_upper trim_space
asn_of a = trim_prefix (codes "AS") (to_upper (trim_space a))

abbrev pub ripestat_base : List ℕ
ripestat_base = codes "https://stat.ripe.net/data/announced-prefixes/data.json?resource=AS"

-- `get` is the answer of a server, none when there is no answer that can be used. `decoded` is the decoder
-- of the JSON body: the texts of its prefixes, none when it is no such body.
module _ (get : List ℕ → Option (List ℕ)) (decoded : List ℕ → Option (List (List ℕ))) where
  -- `ParseRIPEstat`
  unfoldable pub parse_ripestat : Option (List (List ℕ)) → Option Feed
  unfolding take_prefixes
  parse_ripestat none = none
  parse_ripestat (some ps) = some (take_prefixes ps no_feed)

  unfoldable pub answer_of : Option (List ℕ) → Option Feed
  unfolding parse_ripestat
  answer_of none = none
  answer_of (some body) = parse_ripestat (decoded body)

  unfoldable pub asn_feed : List ℕ → Option Feed
  unfolding answer_of
  asn_feed a = answer_of (get (ripestat_base ++ a))

  -- The loop of `fetchASNs`, with `n` answers so far.
  unfoldable pub fetch_from : List ℕ → List (List ℕ) → Feed → ℕ → Fetched
  unfolding asn_of is_empty is_digits asn_feed merged
  fetch_from list [] f n = if n == 0 then fetch_failed (no_asns list) else fetched f
  fetch_from list (x ∷ xs) f n =
      let skip = fetch_from list xs f n in
      let a = asn_of x in
      if is_empty a
      then skip
      else if not (is_digits a)
      then fetch_failed (invalid_asn a)
      else elim (asn_feed a) [
        | none ↦ fetch_failed (asn_failed a)
        | some g ↦
            fetch_from list xs
              (record { cidrs = merged g.cidrs f.cidrs; skipped = f.skipped + g.skipped }) (n + 1)
      ]

  unfoldable pub feed_of : Option (List ℕ) → Fetched
  unfolding parse_list
  feed_of none = fetch_failed feed_failed
  feed_of (some body) = fetched (parse_list body)

  -- `Fetch`
  unfoldable pub fetch : List ℕ → Fetched
  unfolding fetch_from feed_of has_prefix trim_prefix trim_space split
  fetch source =
      let s = trim_space source in
      let list = trim_prefix (codes "asn:") s in
      if has_prefix (codes "asn:") s
      then fetch_from list (split b',' list) no_feed 0
      else if has_prefix (codes "https://") s || has_prefix (codes "http://") s
      then feed_of (get s)
      else fetch_failed (unsupported s)
