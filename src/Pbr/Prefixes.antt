-- ===== src/Pbr/Prefixes.antt =====
-- internal/pbr/pbr.go: `collapsePrefixes`. A `netip.Prefix` of a family whose addresses have `w` bits is
-- the address as a number with the length of the prefix.
pub mod Collapse
use velinx.Base.{
  ℕ, ◌-◌, ◌*◌, ◌/◌, ◌^◌, Bool, true, false, List, [], ◌∷◌, ◌++◌, ◌&&◌, ◌||◌, not, ◌==◌, ltb, leb,
  if◌then◌else◌,
}
use velinx.Go.Sort.{sort, any}

pub record Prefix : Type 0 where
  pub addr : ℕ
  pub bits : ℕ

-- What the addresses of a prefix share: their first `bits` of `w` bits.
unfoldable pub net_of : ℕ → ℕ → ℕ → ℕ
net_of w bits a = a / 2 ^ (w - bits)

-- `q.Contains(a)`, of an address of the same family.
unfoldable pub contains : ℕ → Prefix → ℕ → Bool
unfolding net_of
contains w q a = net_of w q.bits a == net_of w q.bits q.addr

-- `p.Masked()`
unfoldable pub masked : ℕ → Prefix → Prefix
unfolding net_of
masked w p = record p { addr = net_of w p.bits p.addr * 2 ^ (w - p.bits) }

-- The two tests of `sort.Slice`.
unfoldable pub broader : Prefix → Prefix → Bool
broader p q = if not (p.bits == q.bits) then ltb p.bits q.bits else ltb p.addr q.addr

unfoldable pub before : Prefix → Prefix → Bool
before p q = if not (p.addr == q.addr) then ltb p.addr q.addr else ltb p.bits q.bits

unfoldable pub covers : ℕ → Prefix → Prefix → Bool
unfolding contains
covers w p q = leb q.bits p.bits && contains w q p.addr

-- The loop over the sorted prefixes, with `kept` so far.
unfoldable pub keep_uncovered : ℕ → List Prefix → List Prefix → List Prefix
unfolding covers any
keep_uncovered w kept [] = kept
keep_uncovered w kept (p ∷ ps) =
    let kept' = if any (covers w p) kept then kept else kept ++ (p ∷ []) in
    keep_uncovered w kept' ps

unfoldable pub collapse_prefixes : ℕ → List Prefix → List Prefix
unfolding sort broader before keep_uncovered
collapse_prefixes w ps = sort before (keep_uncovered w [] (sort broader ps))
