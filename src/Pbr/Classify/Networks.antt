-- ===== src/Pbr/Classify/Networks.antt =====
-- internal/pbr/pbr.go: which IPv4 addresses the entries of a list name, before and after `classifyCIDRs`.
use velinx.Base.{
  or_false, or_absorb, ℕ, ◌-◌, ◌^◌, ◌≤◌, ◌<◌, ◌≡◌, refl, sym, ap, ◌∙◌, ◌⊎◌, inl, inr, arith, Bool,
  true, false, List, [], ◌∷◌, ◌++◌, ◌||◌, ◌==◌, if◌then◌else◌, Option, none, some, map, All,
  All-snoc, Bool-cases,
}
use native.Mathlib.Nat.{div-mul-le_self}
use velinx.Go.Netip.Bounds.{PrefixFits, parse_prefix-Fits}
use velinx.Go.Strings.{trim_space, same, is_empty, codes, contains as contains_text}
use velinx.Go.Sort.{any, Pairwise}
use velinx.Go.Same.{eq_of_same}
use velinx.Go.Ip.{Addr, parse_addr}
use velinx.Go.Ip.Bounds.{AddrFits, parse_addr-Fits}
use velinx.Go.Netip.{parse_prefix}
use velinx.Go.Netip.RoundTrip.{parse_prefix-print_prefix}
use velinx.Pbr.Prefixes.{Prefix, contains, collapse_prefixes, masked, net_of}
use velinx.Pbr.Prefixes.Collapse.{Disjoint, Fits, collapse_prefixes-Partition}
use velinx.Pbr.Classify.{
  Entry, blank, bad_entry, network, Entries, no_entries, read_entry, trimmed_entry, of_prefix,
  of_addr, add_unseen, take_entry, take_entries, classify_cidrs, print,
}

-- A prefix of IPv4.
pub record IsV4 (p : Prefix) : Type 0 where
  pub short : p.bits ≤ 32
  pub small : p.addr < 2 ^ 32

-- Different prefixes print differently.
prefix_of : Option (Addr × ℕ) → Prefix
prefix_of none = record { addr = 0; bits = 0 }
prefix_of (some (a, n)) = record { addr = a.value; bits = n }

print-injective : (p q : Prefix) → IsV4 p → IsV4 q → print 32 p ≡ print 32 q → p ≡ q
unfolding print prefix_of
print-injective p q u v e =
    let x = parse_prefix-print_prefix p.addr p.bits u.small u.short in
    let y = parse_prefix-print_prefix q.addr q.bits v.small v.short in
    ap prefix_of (sym x ∙ ap parse_prefix e ∙ y)

masked-IsV4 : (p : Prefix) → IsV4 p → IsV4 (masked 32 p)
unfolding masked net_of
masked-IsV4 p v = record {
  short = v.short;
  small =
      let h = div-mul-le_self p.addr (2 ^ (32 - p.bits)) in let k = v.small in omega (arith, h, k);
}

-- Whether an entry is a network of IPv4 that has the address.
unfoldable pub entry_has : ℕ → Entry → Bool
unfolding contains
entry_has a blank = false
entry_has a (bad_entry s) = false
entry_has a (network w p) = if w == 128 then false else contains 32 p a

-- Whether an entry of a list names the address.
unfoldable pub names : ℕ → List (List ℕ) → Bool
unfolding entry_has read_entry
names a [] = false
names a (s ∷ ss) = entry_has a (read_entry s) || names a ss

abbrev EntryFits : Entry → Type 0
EntryFits blank = Unit
EntryFits (bad_entry s) = Unit
EntryFits (network w p) = (w ≡ 128) ⊎ IsV4 p

of_prefix-Fits : (s : List ℕ) (o : Option (Addr × ℕ)) → PrefixFits o → EntryFits (of_prefix s o)
unfolding of_prefix
of_prefix-Fits s none h = tt
of_prefix-Fits s (some (a, n)) h = elim h.0 [
  | inl f ↦ inr (
      let k : n ≤ 32 = let g = h.1 in let w = f.0 in omega arith in
      rw (f.0, masked)
        (masked-IsV4 (record { addr = a.value; bits = n }) (record { short = k; small = f.1 })))
  | inr f ↦ inl f
]

of_addr-Fits :
    (s : List ℕ) (o : Option Addr)
    → ((a : Addr) → o ≡ some a → AddrFits a)
    → EntryFits (of_addr s o)
unfolding of_addr
of_addr-Fits s none h = tt
of_addr-Fits s (some a) h = elim (h a refl) [
  | inl f ↦ inr (record { short = omega arith; small = f.1 })
  | inr f ↦ inl f
]

either-Fits : (c : Bool) (x y : Entry) → EntryFits x → EntryFits y → EntryFits (if c then x else y)
either-Fits true x y p q = p
either-Fits false x y p q = q

trimmed_entry-Fits : (s : List ℕ) → EntryFits (trimmed_entry s)
unfolding trimmed_entry
trimmed_entry-Fits s = either-Fits (is_empty s) blank _ tt (
    either-Fits (contains_text (codes "/") s) _ _
      (of_prefix-Fits s (parse_prefix s) (parse_prefix-Fits s))
      (of_addr-Fits s (parse_addr s) (parse_addr-Fits s)))

read_entry-Fits : (s : List ℕ) → EntryFits (read_entry s)
unfolding read_entry
read_entry-Fits s = trimmed_entry-Fits (trim_space s)

abbrev has : ℕ → List Prefix → Bool
has a ps = any (λ q. contains 32 q a) ps

any-append :
    (a : ℕ) (ps : List Prefix) (p : Prefix) → has a (ps ++ (p ∷ [])) ≡ (has a ps || contains 32 p a)
unfolding any
any-append a [] p = sym (or_false (contains 32 p a))
any-append a (q ∷ qs) p = rw (any-append a qs p) (ground arith)

-- A prefix that was seen adds no address.
seen-has :
    (a : ℕ) (p : Prefix) (ps : List Prefix)
    → IsV4 p
    → All IsV4 ps
    → any (λ q. same (print 32 q) (print 32 p)) ps ≡ true
    → contains 32 p a ≡ true
    → has a ps ≡ true
unfolding any
seen-has a p [] v vs e h = absurd cc
seen-has a p (q ∷ qs) v vs e h = elim (Bool-cases (same (print 32 q) (print 32 p))) [
  | inl d ↦
      let q-is-p = print-injective q p vs.0 v (eq_of_same (print 32 q) (print 32 p) d) in
      rw q-is-p (ground arith)
  | inr d ↦ let r = seen-has a p qs v vs.1 (ground arith) h in ground arith
]

add_unseen-has :
    (a : ℕ) (p : Prefix) (ps : List Prefix)
    → IsV4 p
    → All IsV4 ps
    → has a (add_unseen 32 p ps) ≡ (has a ps || contains 32 p a)
unfolding add_unseen
add_unseen-has a p ps v vs = elim (Bool-cases (any (λ q. same (print 32 q) (print 32 p)) ps)) [
  | inl e ↦ rw e (or_absorb (has a ps) (contains 32 p a) (seen-has a p ps v vs e))
  | inr e ↦ rw e (any-append a ps p)
]

add_unseen-IsV4 :
    (p : Prefix) (ps : List Prefix) → IsV4 p → All IsV4 ps → All IsV4 (add_unseen 32 p ps)
unfolding add_unseen
add_unseen-IsV4 p ps v vs = elim (Bool-cases (any (λ q. same (print 32 q) (print 32 p)) ps)) [
  | inl e ↦ rw e vs
  | inr e ↦ rw e (All-snoc IsV4 ps p vs v)
]

pub record Took (a : ℕ) (e : Entries) (new : Bool) (f : Entries) : Type 0 where
  pub are_v4 : All IsV4 f.p4
  pub named : has a f.p4 ≡ (has a e.p4 || new)

take_entry-Took :
    (a : ℕ) (x : Entry) (e : Entries)
    → EntryFits x
    → All IsV4 e.p4
    → Took a e (entry_has a x) (take_entry x e)
unfolding take_entry entry_has
take_entry-Took a blank e f vs = record { are_v4 = vs; named = or_false (has a e.p4) }
take_entry-Took a (bad_entry s) e f vs = record { are_v4 = vs; named = or_false (has a e.p4) }
take_entry-Took a (network w p) e f vs = elim (Bool-cases (w == 128)) [
  | inl q ↦ rw q (record { are_v4 = vs; named = or_false (has a e.p4) })
  | inr q ↦ elim f [
    | inl g ↦ absurd (ground arith)
    | inr v ↦
        rw q (record { are_v4 = add_unseen-IsV4 p e.p4 v vs; named = add_unseen-has a p e.p4 v vs })
  ]
]

or_assoc_of : (k m n r s : Bool) → m ≡ (k || n) → s ≡ (m || r) → s ≡ (k || (n || r))
or_assoc_of true m n r s p q = rw (q, p) refl
or_assoc_of false m n r s p q = rw (q, p) refl

pub take_entries-Took :
    (a : ℕ) (ss : List (List ℕ)) (e : Entries)
    → All IsV4 e.p4
    → Took a e (names a ss) (take_entries ss e)
unfolding take_entries names
take_entries-Took a [] e vs = record { are_v4 = vs; named = or_false (has a e.p4) }
take_entries-Took a (s ∷ ss) e vs =
    let one = take_entry-Took a (read_entry s) e (read_entry-Fits s) vs in
    let rest = take_entries-Took a ss (take_entry (read_entry s) e) one.are_v4 in
    record {
      are_v4 = rest.are_v4;
      named = or_assoc_of (has a e.p4) _ (entry_has a (read_entry s)) _ _ one.named rest.named;
    }

All-Fits : (ps : List Prefix) → All IsV4 ps → All (Fits 32) ps
All-Fits [] h = tt
All-Fits (p ∷ ps) h = (h.0.short, All-Fits ps h.1)

-- The IPv4 part of what `classifyCIDRs` returns is a list of printed prefixes, of which no two share
-- an address and which have exactly the IPv4 addresses that an entry of the list names, whatever the
-- entries are: duplicates, networks inside others, unmasked ones, blanks and texts that are no network.
pub classify_cidrs-Partition :
    (ss : List (List ℕ))
    → (ps : List Prefix) × ((classify_cidrs ss).v4 ≡ map (print 32) ps)
      × Pairwise (Disjoint 32) ps
      × ((a : ℕ) → any (λ q. contains 32 q a) ps ≡ names a ss)
unfolding classify_cidrs
classify_cidrs-Partition ss =
    let e = take_entries ss no_entries in
    let valid = (take_entries-Took 0 ss no_entries tt).are_v4 in
    let (same_union, disjoint) = collapse_prefixes-Partition 32 e.p4 (All-Fits e.p4 valid) in
    (
      collapse_prefixes 32 e.p4,
      refl,
      disjoint,
      λ a. same_union a ∙ (take_entries-Took a ss no_entries tt).named,
    )
