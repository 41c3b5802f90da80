-- ===== src/Pbr/Classify/OnlyV4.antt =====
-- internal/pbr/pbr.go: an IPv4 list of `classifyCIDRs` that is classified once more.
use velinx.Base.{
  ℕ, ◌≤◌, ◌<◌, ◌^◌, ◌≡◌, refl, ap, ◌∙◌, arith, Bool, true, false, List, [], ◌∷◌, ◌++◌, ◌&&◌, ◌||◌,
  not, ◌==◌, map, All,
}
use velinx.Go.Strings.{
  is_space, trim_left, trim_right, trim_space, is_empty, codes, contains as contains_text,
  has_prefix, after_prefix, is_digit,
}
use velinx.Go.Numbers.{decimal}
use velinx.Go.Netip.{parse_prefix, print_prefix, print_v4}
use velinx.Go.Netip.RoundTrip.{parse_prefix-print_prefix, plain, plain-decimal, plain-print_v4}
use velinx.Pbr.Prefixes.{Prefix, masked, collapse_prefixes}
use velinx.Pbr.Prefixes.Collapse.{collapse_prefixes-All}
use velinx.Pbr.Classify.{
  Entries, no_entries, network, read_entry, trimmed_entry, of_prefix, take_entry, take_entries,
  classify_cidrs, print,
}
use velinx.Pbr.Classify.Networks.{IsV4, take_entries-Took}

-- A text without white space.
solid : List ℕ → Bool
solid [] = true
solid (c ∷ s) = not (is_space c) && solid s

solid-append : (s t : List ℕ) → solid s ≡ true → solid t ≡ true → solid (s ++ t) ≡ true
unfolding solid
solid-append [] t h k = k
solid-append (c ∷ s) t h k = let r = solid-append s t (ground arith) k in ground arith

plain_code : (c : ℕ) → (is_digit c || c == b'.') ≡ true → is_space c ≡ false
unfolding is_space
plain_code c h = ground arith

solid-plain : (s : List ℕ) → plain s ≡ true → solid s ≡ true
unfolding solid plain
solid-plain [] h = refl
solid-plain (c ∷ s) h =
    let r = solid-plain s (ground arith) in let e = plain_code c (ground arith) in rw e r

trim_right-solid : (s : List ℕ) → solid s ≡ true → trim_right s ≡ s
unfolding solid trim_right
trim_right-solid [] h = refl
trim_right-solid (c ∷ s) h =
    let r = trim_right-solid s (ground arith) in
    let e : is_space c ≡ false = ground arith in rw (e, r, trim_right) refl

trim_space-solid : (s : List ℕ) → solid s ≡ true → trim_space s ≡ s
unfolding solid trim_space trim_left trim_right
trim_space-solid [] h = refl
trim_space-solid (c ∷ s) h =
    let e : is_space c ≡ false = ground arith in
    let f : trim_left (c ∷ s) ≡ c ∷ s = rw (e, trim_left) refl in
    ap trim_right f ∙ trim_right-solid (c ∷ s) h

contains-slash : (s t : List ℕ) → contains_text (codes "/") (s ++ b'/' ∷ t) ≡ true
unfolding contains_text has_prefix after_prefix
contains-slash [] t = refl
contains-slash (c ∷ s) t =
    or_true (has_prefix (codes "/") (c ∷ s ++ b'/' ∷ t)) _ (contains-slash s t)
  where
    or_true : (x y : Bool) → y ≡ true → (x || y) ≡ true
    or_true true y h = refl
    or_true false y h = h

is_empty-slash : (s t : List ℕ) → is_empty (s ++ b'/' ∷ t) ≡ false
unfolding is_empty
is_empty-slash [] t = refl
is_empty-slash (c ∷ s) t = refl

solid-print : (a n : ℕ) → a < 2 ^ 32 → n ≤ 32 → solid (print_v4 a ++ b'/' ∷ decimal n) ≡ true
unfolding solid is_space
solid-print a n h k =
    solid-append (print_v4 a) (b'/' ∷ decimal n) (solid-plain (print_v4 a) (plain-print_v4 a h))
      (solid-plain (decimal n) (plain-decimal n (omega arith)))

trimmed_entry-slash :
    (s t : List ℕ)
    → trimmed_entry (s ++ b'/' ∷ t) ≡ of_prefix (s ++ b'/' ∷ t) (parse_prefix (s ++ b'/' ∷ t))
unfolding trimmed_entry
trimmed_entry-slash s t = rw (is_empty-slash s t, contains-slash s t) refl

-- A printed prefix of IPv4 is read as such.
read_entry-print : (p : Prefix) → IsV4 p → read_entry (print 32 p) ≡ network 32 (masked 32 p)
unfolding read_entry print print_prefix
read_entry-print p v =
    let s = print_v4 p.addr ++ b'/' ∷ decimal p.bits in
    ap trimmed_entry (trim_space-solid s (solid-print p.addr p.bits v.small v.short))
    ∙ trimmed_entry-slash (print_v4 p.addr) (decimal p.bits)
    ∙ ap (of_prefix s) (parse_prefix-print_prefix p.addr p.bits v.small v.short)

take_entries-print :
    (ps : List Prefix) (e : Entries) → All IsV4 ps → (take_entries (map (print 32) ps) e).p6 ≡ e.p6
unfolding take_entries take_entry
take_entries-print [] e h = refl
take_entries-print (p ∷ ps) e h =
    let r = read_entry-print p h.0 in rw (r, take_entries) (take_entries-print ps _ h.1)

-- An IPv4 list that was classified has no IPv6 networks when it is classified again.
pub classify_cidrs-OnlyV4 : (ss : List (List ℕ)) → (classify_cidrs (classify_cidrs ss).v4).v6 ≡ []
unfolding classify_cidrs
classify_cidrs-OnlyV4 ss =
    let valid = (take_entries-Took 0 ss no_entries tt).are_v4 in
    let kept = collapse_prefixes-All 32 IsV4 (take_entries ss no_entries).p4 valid in
    ap (λ ps. map (print 128) (collapse_prefixes 128 ps)) (take_entries-print _ no_entries kept)
