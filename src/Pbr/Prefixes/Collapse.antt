-- ===== src/Pbr/Prefixes/Collapse.antt =====
-- internal/pbr/pbr.go: what `collapsePrefixes` keeps.
use velinx.Base.{
  or_false, or_assoc, or_implied, ℕ, ◌+◌, ◌-◌, ◌*◌, ◌/◌, ◌^◌, ◌≤◌, ◌≡◌, refl, sym, ap, ◌∙◌, arith,
  Bool, true, false, List, [], ◌∷◌, ◌++◌, ◌||◌, All, All-snoc, Bool-cases, inl, inr, zero, suc,
}
use native.Mathlib.Nat.{div-div-eq-div-mul, pow-suc}
use velinx.Go.Sort.{
  sort, any, any-sort, Pairwise, Pairwise-snoc, All-sort, Pairwise-sort, Pairwise-sort_le,
}
use velinx.Pbr.Prefixes.{
  Prefix, net_of, contains, covers, broader, before, keep_uncovered, collapse_prefixes,
}

pow-add : (m n : ℕ) → 2 ^ (m + n) ≡ 2 ^ m * 2 ^ n
pow-add m zero = grind arith
pow-add m (suc n) =
    let e : m + suc n ≡ suc (m + n) = omega arith in
    rw (e, pow-suc 2 (m + n), pow-suc 2 n, pow-add m n) (grind arith)

-- A shorter prefix of an address is a prefix of its longer ones.
net_of-net_of : (w q p a : ℕ) → q ≤ p → p ≤ w → net_of w q a ≡ net_of w p a / 2 ^ (p - q)
unfolding net_of
net_of-net_of w q p a h k =
    let e : w - q ≡ (w - p) + (p - q) = omega arith in
    rw (e, pow-add (w - p) (p - q)) (sym (div-div-eq-div-mul a (2 ^ (w - p)) (2 ^ (p - q))))

-- An address of `p` is in a broader prefix exactly when the address of `p` is.
contains-contains :
    (w : ℕ) (q p : Prefix) (a : ℕ)
    → q.bits ≤ p.bits
    → p.bits ≤ w
    → contains w p a ≡ true
    → contains w q a ≡ contains w q p.addr
unfolding contains
contains-contains w q p a h k c =
    let e : net_of w p.bits a ≡ net_of w p.bits p.addr = ground arith in
    let x = net_of-net_of w q.bits p.bits a h k in
    let y = net_of-net_of w q.bits p.bits p.addr h k in
    let s : net_of w q.bits a ≡ net_of w q.bits p.addr =
      x ∙ ap (λ n. n / 2 ^ (p.bits - q.bits)) e ∙ sym y in
    rw s refl

module _ (w : ℕ) where
  abbrev pub Fits : Prefix → Type 0
  Fits p = p.bits ≤ w

  -- The two share no address.
  abbrev pub Disjoint : Prefix → Prefix → Type 0
  Disjoint q p = (a : ℕ) → contains w q a ≡ true → contains w p a ≡ false

  Disjoint-sym : (q p : Prefix) → Disjoint q p → Disjoint p q
  Disjoint-sym q p d a c = elim (Bool-cases (contains w q a)) [
    | inl e ↦ let f = d a e in absurd (cc)
    | inr e ↦ e
  ]

  any-append : (f : Prefix → Bool) (ps qs : List Prefix) → any f (ps ++ qs) ≡ (any f ps || any f qs)
  unfolding any
  any-append f [] qs = refl
  any-append f (p ∷ ps) qs = rw (any-append f ps qs) (ground arith)

  any-covers :
      (p : Prefix) (kept : List Prefix) (a : ℕ)
      → Fits p
      → any (covers w p) kept ≡ true
      → contains w p a ≡ true
      → any (λ q. contains w q a) kept ≡ true
  unfolding any covers
  any-covers p [] a k c h = absurd cc
  any-covers p (q ∷ qs) a k c h = elim (Bool-cases (covers w p q)) [
    | inl e ↦ let x = contains-contains w q p a (ground arith) k h in ground arith
    | inr e ↦ let x = any-covers p qs a k (ground arith) h in ground arith
  ]

  keep_uncovered-any :
      (a : ℕ) (kept ps : List Prefix)
      → All Fits ps
      → any (λ q. contains w q a) (keep_uncovered w kept ps)
        ≡ (any (λ q. contains w q a) kept || any (λ q. contains w q a) ps)
  unfolding keep_uncovered
  keep_uncovered-any a kept [] v = or_false (any (λ q. contains w q a) kept)
  keep_uncovered-any a kept (p ∷ ps) v = elim (Bool-cases (any (covers w p) kept)) [
    | inl e ↦
        rw (e, keep_uncovered-any a kept ps v.1)
          (or_implied (any (λ q. contains w q a) kept) (contains w p a) _
            (any-covers p kept a v.0 e))
    | inr e ↦
        rw
          (
            e,
            keep_uncovered-any a (kept ++ (p ∷ [])) ps v.1,
            any-append (λ q. contains w q a) kept (p ∷ []),
          )
          (or_assoc (any (λ q. contains w q a) kept) (contains w p a) _)
  ]

  not_covered : (q p : Prefix) → Fits p → q.bits ≤ p.bits → covers w p q ≡ false → Disjoint q p
  unfolding covers
  not_covered q p v h c a e = elim (Bool-cases (contains w p a)) [
    | inl f ↦ let x = contains-contains w q p a h v f in absurd (ground arith)
    | inr f ↦ f
  ]

  not_any :
      (p : Prefix) (kept : List Prefix)
      → Fits p
      → All (λ q. q.bits ≤ p.bits) kept
      → any (covers w p) kept ≡ false
      → All (λ q. Disjoint q p) kept
  unfolding any
  not_any p [] v h c = tt
  not_any p (q ∷ qs) v h c =
      (not_covered q p v h.0 (ground arith), not_any p qs v h.1 (ground arith))

  abbrev Narrower : Prefix → Prefix → Type 0
  Narrower q p = q.bits ≤ p.bits

  keep_uncovered-Pairwise :
      (kept ps : List Prefix)
      → All Fits ps
      → Pairwise Narrower ps
      → All (λ p. All (λ q. Narrower q p) kept) ps
      → Pairwise Disjoint kept
      → Pairwise Disjoint (keep_uncovered w kept ps)
  unfolding keep_uncovered
  keep_uncovered-Pairwise kept [] v n b d = d
  keep_uncovered-Pairwise kept (p ∷ ps) v n b d = elim (Bool-cases (any (covers w p) kept)) [
    | inl e ↦ rw e (keep_uncovered-Pairwise kept ps v.1 n.1 b.1 d)
    | inr e ↦ rw e (
        keep_uncovered-Pairwise (kept ++ (p ∷ [])) ps v.1 n.1 (behind kept p ps b.1 n.0)
          (Pairwise-snoc Disjoint kept p d (not_any p kept v.0 b.0 e)))
  ]
    where
      behind :
          (kept : List Prefix) (p : Prefix) (ps : List Prefix)
          → All (λ r. All (λ q. Narrower q r) kept) ps
          → All (Narrower p) ps
          → All (λ r. All (λ q. Narrower q r) (kept ++ (p ∷ []))) ps
      behind kept p [] b n = tt
      behind kept p (r ∷ ps) b n =
          (All-snoc (λ q. Narrower q r) kept p b.0 n.0, behind kept p ps b.1 n.1)

  nothing_kept : (ps : List Prefix) → All (λ p. All (λ q. Narrower q p) []) ps
  nothing_kept [] = tt
  nothing_kept (p ∷ ps) = (tt, nothing_kept ps)

  -- Collapsing prefixes changes no address that they match, and no two of those that are left share an
  -- address, whatever prefixes of at most `w` bits are given.
  pub collapse_prefixes-Partition :
      (ps : List Prefix)
      → All Fits ps
      → ((a : ℕ)
          → any (λ q. contains w q a) (collapse_prefixes w ps) ≡ any (λ q. contains w q a) ps)
        × Pairwise Disjoint (collapse_prefixes w ps)
  unfolding collapse_prefixes broader any
  collapse_prefixes-Partition ps v =
      let sorted = All-sort broader Fits ps v in
      let order =
        Pairwise-sort_le broader (λ p. p.bits) (λ x y e. ground arith) (λ x y e. ground arith) ps in
      (
        λ a.
            any-sort before (λ q. contains w q a) (keep_uncovered w [] (sort broader ps))
            ∙ keep_uncovered-any a [] (sort broader ps) sorted
            ∙ any-sort broader (λ q. contains w q a) ps,
        Pairwise-sort before Disjoint Disjoint-sym (keep_uncovered w [] (sort broader ps)) (
            keep_uncovered-Pairwise [] (sort broader ps) sorted order
              (nothing_kept (sort broader ps)) tt),
      )

  keep_uncovered-All {κ} :
      (P : Prefix → Type κ) (kept ps : List Prefix)
      → All P kept
      → All P ps
      → All P (keep_uncovered w kept ps)
  unfolding keep_uncovered
  keep_uncovered-All P kept [] k h = k
  keep_uncovered-All P kept (p ∷ ps) k h = elim (Bool-cases (any (covers w p) kept)) [
    | inl e ↦ rw e (keep_uncovered-All P kept ps k h.1)
    | inr e ↦ rw e (keep_uncovered-All P (kept ++ (p ∷ [])) ps (All-snoc P kept p k h.0) h.1)
  ]

  -- The prefixes that are left are some of those that were given.
  pub collapse_prefixes-All {κ} :
      (P : Prefix → Type κ) (ps : List Prefix) → All P ps → All P (collapse_prefixes w ps)
  unfolding collapse_prefixes
  collapse_prefixes-All P ps h =
      All-sort before P _ (keep_uncovered-All P [] _ tt (All-sort broader P ps h))
