-- ===== src/Go/Netip/Bounds.antt =====
-- `netip.ParsePrefix`: how long a prefix that is read can be.
use velinx.Base.{
  ℕ, ◌≤◌, ◌≡◌, arith, List, ◌||◌, Option, none, some, ltb, Bool-cases, inl, inr, refl,
}
use velinx.Go.Ip.{Addr, parse_addr, cut}
use velinx.Go.Ip.Bounds.{AddrFits, parse_addr-Fits}
use velinx.Go.Netip.{parse_prefix, parts, sized, prefix_bits}

abbrev pub PrefixFits : Option (Addr × ℕ) → Type 0
PrefixFits none = Unit
PrefixFits (some (a, n)) = AddrFits a × (n ≤ a.width)

sized-Fits :
    (o : Option Addr) (n : Option ℕ)
    → ((a : Addr) → o ≡ some a → AddrFits a)
    → PrefixFits (sized o n)
unfolding sized
sized-Fits none n h = tt
sized-Fits (some a) none h = tt
sized-Fits (some a) (some n) h = elim (Bool-cases (a.zoned || ltb a.width n)) [
  | inl e ↦ rw e tt
  | inr e ↦ rw e (h a refl, ground arith)
]

parts-Fits : (o : Option (List ℕ × List ℕ)) → PrefixFits (parts o)
unfolding parts
parts-Fits none = tt
parts-Fits (some (addr, bits)) =
    sized-Fits (parse_addr addr) (prefix_bits bits) (λ a e. parse_addr-Fits addr a e)

pub parse_prefix-Fits : (s : List ℕ) → PrefixFits (parse_prefix s)
unfolding parse_prefix
parse_prefix-Fits s = parts-Fits (cut b'/' s)
