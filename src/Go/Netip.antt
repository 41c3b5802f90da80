-- ===== src/Go/Netip.antt =====
-- `netip.ParsePrefix`, and the texts that `netip` prints of addresses and prefixes.
pub mod RoundTrip
pub mod Bounds
use velinx.Base.{
  ℕ, zero, suc, ◌+◌, ◌/◌, ◌%◌, List, [], ◌∷◌, ◌++◌, ◌&&◌, ◌||◌, ◌==◌, if◌then◌else◌, Option, none,
  some, leb, ltb, take, drop,
}
use velinx.Go.Strings.{between, codes}
use velinx.Go.Numbers.{decimal, hex}
use velinx.Go.Ip.{Addr, parse_addr, cut, number}

-- The length of a prefix: digits without a leading zero.
unfoldable pub prefix_bits : List ℕ → Option ℕ
unfolding number
prefix_bits [] = none
prefix_bits (c ∷ []) = number 0 (c ∷ [])
prefix_bits (c ∷ d ∷ s) = if between b'1' b'9' c then number 0 (c ∷ d ∷ s) else none

unfoldable pub sized : Option Addr → Option ℕ → Option (Addr × ℕ)
sized (some a) (some n) = if a.zoned || ltb a.width n then none else some (a, n)
sized _ _ = none

unfoldable pub parts : Option (List ℕ × List ℕ) → Option (Addr × ℕ)
unfolding sized parse_addr prefix_bits
parts none = none
parts (some (addr, bits)) = sized (parse_addr addr) (prefix_bits bits)

-- `netip.ParsePrefix`: the address and the length.
unfoldable pub parse_prefix : List ℕ → Option (Addr × ℕ)
unfolding parts cut
parse_prefix s = parts (cut b'/' s)

unfoldable pub print_v4 : ℕ → List ℕ
unfolding decimal
print_v4 n =
    let f3 = decimal (n % 256) in
    let f2 = decimal (n / 256 % 256) ++ b'.' ∷ f3 in
    let f1 = decimal (n / 65536 % 256) ++ b'.' ∷ f2 in decimal (n / 16777216) ++ b'.' ∷ f1

-- The last `k` groups of 16 bits.
groups_of : ℕ → ℕ → List ℕ
groups_of zero n = []
groups_of (suc k) n = groups_of k (n / 65536) ++ (n % 65536 ∷ [])

leading_zeros : List ℕ → ℕ
leading_zeros [] = 0
leading_zeros (g ∷ gs) = let n = leading_zeros gs in if g == 0 then n + 1 else 0

-- The start and the length of the first longest run of at least two zeros, from place `i` on.
longest_run : ℕ → ℕ × ℕ → List ℕ → ℕ × ℕ
unfolding leading_zeros
longest_run i best [] = best
longest_run i best (g ∷ gs) =
    let l = leading_zeros (g ∷ gs) in
    let best' = if leb 2 l && ltb best.1 l then (i, l) else best in longest_run (i + 1) best' gs

colons : List ℕ → List ℕ
unfolding hex
colons [] = []
colons (g ∷ []) = hex g
colons (g ∷ gs) = hex g ++ b':' ∷ colons gs

abbreviated : List ℕ → ℕ × ℕ → List ℕ
unfolding colons
abbreviated gs (start, l) =
    if l == 0
    then colons gs
    else colons (take start gs) ++ b':' ∷ b':' ∷ colons (drop (start + l) gs)

-- `Addr.String` of an IPv6 address, one that holds an IPv4 address included.
unfoldable pub print_v6 : ℕ → List ℕ
unfolding groups_of longest_run abbreviated print_v4
print_v6 n =
    if n / 4294967296 == 65535
    then codes "::ffff:" ++ print_v4 (n % 4294967296)
    else abbreviated (groups_of 8 n) (longest_run 0 (0, 0) (groups_of 8 n))

-- `Prefix.String`
unfoldable pub print_prefix : ℕ → ℕ → ℕ → List ℕ
unfolding print_v4 print_v6 decimal
print_prefix width addr bits =
    (if width == 32 then print_v4 addr else print_v6 addr) ++ b'/' ∷ decimal bits
