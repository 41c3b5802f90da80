-- ===== src/Go/Ip/Bounds.antt =====
-- `netip.ParseAddr`: how large an address that is read can be.
use velinx.Base.{
  ℕ, ◌+◌, ◌-◌, ◌*◌, ◌^◌, ◌<◌, ◌≤◌, ◌≡◌, subst, ◌⊎◌, inl, inr, refl, arith, Bool, true, false, List,
  [], ◌∷◌, ◌==◌, if◌then◌else◌, Option, none, some, Bool-cases,
}
use velinx.Go.Strings.{is_digit, is_empty}
use velinx.Go.Ip.{
  Addr, v4_from, parse_v4, v4_addr, v6_addr, parse_v6, with_zone, cut, family, parse_addr,
}

abbrev limit : ℕ → ℕ
limit n = if n == 0 then 1 else if n == 1 then 256 else if n == 2 then 65536 else 16777216

v4_from-lt :
    (field acc val digits : ℕ) (s : List ℕ) (r : ℕ)
    → field ≤ 3
    → acc < limit field
    → val < 256
    → v4_from field acc val digits s ≡ some r
    → r < 2 ^ 32
unfolding v4_from
v4_from-lt field acc val digits [] r f a v e = (ground arith)
v4_from-lt field acc val digits (c ∷ s) r f a v e = elim (Bool-cases (is_digit c)) [
  | inl d ↦
      v4_from-lt field acc (val * 10 + (c - b'0')) (digits + 1) s r f a (ground arith)
        (ground arith)
  | inr d ↦
      v4_from-lt (field + 1) (acc * 256 + val) 0 0 s r (ground arith) (ground arith) (omega arith)
        (ground arith)
]

-- An IPv4 address has 32 bits; an IPv6 address has the width of one.
abbrev pub AddrFits : Addr → Type 0
AddrFits a = ((a.width ≡ 32) × (a.value < 2 ^ 32)) ⊎ (a.width ≡ 128)

-- Of what is read, if anything is.
abbrev Fits : Option Addr → Type 0
Fits none = Unit
Fits (some a) = AddrFits a

v4_addr-Fits : (o : Option ℕ) → ((r : ℕ) → o ≡ some r → r < 2 ^ 32) → Fits (v4_addr o)
unfolding v4_addr
v4_addr-Fits none h = tt
v4_addr-Fits (some r) h = inl (refl, h r refl)

v6_addr-Fits : (z : Bool) (o : Option ℕ) → Fits (v6_addr z o)
unfolding v6_addr
v6_addr-Fits z none = tt
v6_addr-Fits z (some r) = inr refl

either-Fits : (c : Bool) (x y : Option Addr) → Fits x → Fits y → Fits (if c then x else y)
either-Fits true x y p q = p
either-Fits false x y p q = q

with_zone-Fits : (s : List ℕ) (o : Option (List ℕ × List ℕ)) → Fits (with_zone s o)
unfolding with_zone
with_zone-Fits s none = v6_addr-Fits false (parse_v6 s)
with_zone-Fits s (some (addr, zone)) =
    either-Fits (is_empty zone) none _ tt (v6_addr-Fits true (parse_v6 addr))

family-Fits : (whole s : List ℕ) → Fits (family whole s)
unfolding family parse_v4
family-Fits whole [] = tt
family-Fits whole (c ∷ s) =
    either-Fits (c == b'.') _ _
      (v4_addr-Fits (parse_v4 whole)
        (λ r e. v4_from-lt 0 0 0 0 whole r (omega arith) (omega arith) (omega arith) e))
      (either-Fits (c == b':') _ _ (with_zone-Fits whole (cut b'%' whole))
        (either-Fits (c == b'%') none _ tt (family-Fits whole s)))

pub parse_addr-Fits : (s : List ℕ) (a : Addr) → parse_addr s ≡ some a → AddrFits a
unfolding parse_addr
parse_addr-Fits s a e = subst Fits e (family-Fits s s)
