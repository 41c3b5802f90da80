-- ===== src/Go/Ip.antt =====
-- `netip.ParseAddr`, and `net.ParseIP` and `net.ParseCIDR` over it.
pub mod Bounds
use velinx.Base.{
  ℕ, zero, suc, ◌+◌, ◌-◌, ◌*◌, Bool, true, false, List, [], ◌∷◌, ◌&&◌, ◌||◌, not, ◌==◌,
  if◌then◌else◌, Option, none, some, leb, ltb, ◌>>=◌, length, ◌/◌, ◌%◌, is_some,
}
use velinx.Go.Strings.{is_digit, is_hex, is_empty}

-- An address as a number of `width` bits: 32 for IPv4, 128 for IPv6. What a zone is called does not matter.
pub record Addr : Type 0 where
  pub width : ℕ
  pub value : ℕ
  pub zoned : Bool

-- Four decimal fields of at most 255 with no leading zero: the field, the fields before it as a number,
-- its value and its digits so far.
unfoldable pub v4_from : ℕ → ℕ → ℕ → ℕ → List ℕ → Option ℕ
unfolding is_empty
v4_from field acc val digits [] =
    if field == 3 && ltb 0 digits then some (acc * 256 + val) else none
v4_from field acc val digits (c ∷ s) =
    let v = val * 10 + (c - b'0') in
    let same_field = v4_from field acc v (digits + 1) s in
    let next_field = v4_from (field + 1) (acc * 256 + val) 0 0 s in
    if is_digit c
    then (if (digits == 1 && val == 0) || ltb 255 v then none else same_field)
    else if c == b'.'
    then (if digits == 0 || is_empty s || field == 3 then none else next_field)
    else none

unfoldable pub parse_v4 : List ℕ → Option ℕ
unfolding v4_from
parse_v4 s = v4_from 0 0 0 0 s

hex_value : ℕ → ℕ
hex_value c = if is_digit c then c - b'0' else if leb b'a' c then c - b'a' + 10 else c - b'A' + 10

-- The hexadecimal digits in front: how many, their value, and what follows them.
hex_run : ℕ → List ℕ → ℕ × ℕ × List ℕ
unfolding hex_value
hex_run acc [] = (0, acc, [])
hex_run acc (c ∷ s) =
    let (n, v, rest) = hex_run (acc * 16 + hex_value c) s in
    if is_hex c then (n + 1, v, rest) else (0, acc, c ∷ s)

-- The groups that are written, with `none` for the ellipsis.
abbrev Groups : Type 0
Groups = List (Option ℕ)

-- The end of an address with `left` groups missing: an ellipsis fills at least one.
filled : ℕ → Bool → Groups → Option Groups
filled zero ellipsis gs = if ellipsis then none else some gs
filled (suc _) ellipsis gs = if ellipsis then some gs else none

-- An IPv4 address in place of the last two of `left + 1` groups.
embedded : ℕ → Bool → List ℕ → Option Groups
unfolding filled parse_v4
embedded left ellipsis s =
    if (ellipsis || left == 1) && leb 1 left
    then (parse_v4 s >>= λ v. filled (left - 1) ellipsis (some (v / 65536) ∷ some (v % 65536) ∷ []))
    else none

cons_to : Option ℕ → Option Groups → Option Groups
cons_to g none = none
cons_to g (some gs) = some (g ∷ gs)

-- What follows the group `v` that began at `s`: the address may go on by `go` with one ellipsis more.
after_group : (Bool → List ℕ → Option Groups) → ℕ → Bool → List ℕ → ℕ → List ℕ → Option Groups
unfolding filled embedded is_empty cons_to
after_group go left ellipsis s v [] = filled left ellipsis (some v ∷ [])
after_group go left ellipsis s v (c ∷ []) = if c == b'.' then embedded left ellipsis s else none
after_group go left ellipsis s v (c ∷ d ∷ rest) =
    if c == b'.'
    then embedded left ellipsis s
    else if not (c == b':')
    then none
    else if not (d == b':')
    then cons_to (some v) (go ellipsis (d ∷ rest))
    else if ellipsis
    then none
    else if is_empty rest
    then filled left true (some v ∷ none ∷ [])
    else cons_to (some v) (cons_to none (go true rest))

-- The groups of an IPv6 address, with at most `left` to come.
groups : ℕ → Bool → List ℕ → Option Groups
unfolding hex_run after_group is_empty
groups zero ellipsis s = if is_empty s && not ellipsis then some [] else none
groups (suc left) ellipsis s =
    let (n, v, rest) = hex_run 0 s in
    let go = λ (e : Bool) (t : List ℕ). groups left e t in
    let follow = after_group go left ellipsis s v rest in if n == 0 || ltb 4 n then none else follow

zeros_after : ℕ → ℕ → ℕ
zeros_after zero acc = acc
zeros_after (suc n) acc = zeros_after n (acc * 65536)

-- The groups as one number; the ellipsis stands for `missing` groups of zero.
joined : ℕ → ℕ → Groups → ℕ
unfolding zeros_after
joined missing acc [] = acc
joined missing acc (some g ∷ gs) = joined missing (acc * 65536 + g) gs
joined missing acc (none ∷ gs) = joined missing (zeros_after missing acc) gs

-- Of the list with the ellipsis in it; without one nothing is missing.
number_of : Option Groups → Option ℕ
unfolding joined
number_of none = none
number_of (some gs) = some (joined (9 - length gs) 0 gs)

unfoldable pub parse_v6 : List ℕ → Option ℕ
unfolding groups number_of is_empty cons_to
parse_v6 (c ∷ d ∷ s) =
    if c == b':' && d == b':'
    then (if is_empty s then some 0 else number_of (cons_to none (groups 8 true s)))
    else number_of (groups 8 false (c ∷ d ∷ s))
parse_v6 s = number_of (groups 8 false s)

-- The text before and after the first `sep`.
unfoldable pub cut : ℕ → List ℕ → Option (List ℕ × List ℕ)
cut sep [] = none
cut sep (c ∷ s) = elim (c == sep) [
  | true ↦ some ([], s)
  | false ↦ elim (cut sep s) [ none ↦ none | some (a, b) ↦ some (c ∷ a, b) ]
]

unfoldable pub v6_addr : Bool → Option ℕ → Option Addr
v6_addr zoned none = none
v6_addr zoned (some n) = some (record { width = 128; value = n; zoned = zoned })

unfoldable pub v4_addr : Option ℕ → Option Addr
v4_addr none = none
v4_addr (some n) = some (record { width = 32; value = n; zoned = false })

-- An IPv6 address, after whose `%` the name of a zone stands.
unfoldable pub with_zone : List ℕ → Option (List ℕ × List ℕ) → Option Addr
unfolding v6_addr parse_v6 is_empty
with_zone s none = v6_addr false (parse_v6 s)
with_zone s (some (addr, zone)) = if is_empty zone then none else v6_addr true (parse_v6 addr)

-- The first `.`, `:` or `%` decides the family.
unfoldable pub family : List ℕ → List ℕ → Option Addr
unfolding v4_addr parse_v4 with_zone cut
family whole [] = none
family whole (c ∷ s) =
    let rest = family whole s in
    if c == b'.'
    then v4_addr (parse_v4 whole)
    else if c == b':'
    then with_zone whole (cut b'%' whole)
    else if c == b'%'
    then none
    else rest

unfoldable pub parse_addr : List ℕ → Option Addr
unfolding family
parse_addr s = family s s

-- The bits of an address without a zone.
unzoned_bits : Option Addr → Option ℕ
unzoned_bits none = none
unzoned_bits (some a) = if a.zoned then none else some a.width

unfoldable pub addr_bits : List ℕ → Option ℕ
unfolding parse_addr unzoned_bits
addr_bits s = unzoned_bits (parse_addr s)

-- `net.ParseIP(s) != nil`
unfoldable pub is_ip : List ℕ → Bool
unfolding addr_bits
is_ip s = is_some (addr_bits s)

unfoldable pub number : ℕ → List ℕ → Option ℕ
number n [] = some n
number n (c ∷ s) = let r = number (n * 10 + (c - b'0')) s in if is_digit c then r else none

fits : Option ℕ → Option ℕ → Bool
fits (some bits) (some n) = leb n bits
fits _ _ = false

is_prefix : Option (List ℕ × List ℕ) → Bool
unfolding fits number addr_bits is_empty
is_prefix none = false
is_prefix (some (addr, mask)) = not (is_empty mask) && fits (addr_bits addr) (number 0 mask)

-- `_, _, err := net.ParseCIDR(s); err == nil`
unfoldable pub is_cidr : List ℕ → Bool
unfolding cut is_prefix
is_cidr s = is_prefix (cut b'/' s)
