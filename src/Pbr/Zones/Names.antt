-- ===== src/Pbr/Zones/Names.antt =====
-- internal/pbr/pbr.go: the names that `addZone` gives to zones.
use velinx.Base.{
  ℕ, zero, suc, ◌+◌, ◌≤◌, ◌<◌, ◌≡◌, refl, subst, arith, true, false, List, [], ◌∷◌, length,
  Bool-cases, ltb, inl, inr, ◌⊎◌,
}
use velinx.Go.Same.{
  has_text, without_text, length-without_text, has_text-without_text, append-cancel,
}
use velinx.Go.Numbers.{decimal-injective, decimal}
use velinx.Pbr.Zones.{suffixed, free_name, zone_name}

suffixed-injective : (base : List ℕ) (i j : ℕ) → suffixed base i ≡ suffixed base j → i ≡ j
unfolding suffixed
suffixed-injective base i j e =
    let f = append-cancel base (b'_' ∷ decimal i) (b'_' ∷ decimal j) e in decimal-injective i j cc

-- The first number from `i` on whose name is free.
pub record FirstFree (base : List ℕ) (used : List (List ℕ)) (i : ℕ) (name : List ℕ) : Type 0 where
  pub number : ℕ
  pub named : name ≡ suffixed base number
  pub from : i ≤ number
  pub free : has_text (suffixed base number) used ≡ false
  pub taken : (k : ℕ) → i ≤ k → k < number → has_text (suffixed base k) used ≡ true

le_cases : (i k : ℕ) → i ≤ k → (i ≡ k) ⊎ (i + 1 ≤ k)
le_cases i k h = elim (Bool-cases (ltb i k)) [
  | inl e ↦ inr (ground arith)
  | inr e ↦ inl (ground arith)
]

module _ (base : List ℕ) (used : List (List ℕ)) where
  abbrev Pool : ℕ → List (List ℕ) → Type 0
  Pool i pool =
      (j : ℕ)
      → i ≤ j
      → has_text (suffixed base j) used ≡ true
      → has_text (suffixed base j) pool ≡ true

  smaller-Pool :
      (i : ℕ) (pool : List (List ℕ))
      → Pool i pool
      → Pool (i + 1) (without_text (suffixed base i) pool)
  smaller-Pool i pool p j h u =
      has_text-without_text (suffixed base j) (suffixed base i) pool
        (λ e. let f = suffixed-injective base j i e in absurd (omega arith)) (p j (omega arith) u)

  nothing : (t : List ℕ) (pool : List (List ℕ)) → length pool ≤ 0 → ¬ (has_text t pool ≡ true)
  unfolding has_text
  nothing t [] h e = cc
  nothing t (u ∷ us) h e = omega arith

  first :
      (i k : ℕ) {n : ℕ}
      → has_text (suffixed base i) used ≡ true
      → (i + 1 ≤ k → k < n → has_text (suffixed base k) used ≡ true)
      → i ≤ k
      → k < n
      → has_text (suffixed base k) used ≡ true
  first i k e f a b = elim (le_cases i k a) [
    | inl q ↦ subst (λ x. has_text (suffixed base x) used ≡ true) q e
    | inr q ↦ f q b
  ]

  free_name_from :
      (fuel i : ℕ) (pool : List (List ℕ))
      → length pool ≤ fuel
      → Pool i pool
      → FirstFree base used i (free_name fuel i base used)
  unfolding free_name
  free_name_from zero i pool h p = record {
    number = i;
    named = refl;
    from = omega arith;
    free = elim (Bool-cases (has_text (suffixed base i) used)) [
      | inl e ↦ absurd (nothing (suffixed base i) pool h (p i (omega arith) e))
      | inr e ↦ e
    ];
    taken = λ k a b. absurd (omega arith);
  }
  free_name_from (suc fuel) i pool h p = elim (Bool-cases (has_text (suffixed base i) used)) [
    | inl e ↦
        let next =
          free_name_from fuel (i + 1) (without_text (suffixed base i) pool)
            (let less = length-without_text (suffixed base i) pool (p i (omega arith) e) in
              omega arith)
            (smaller-Pool i pool p) in
        rw e (record {
          number = next.number;
          named = next.named;
          free = next.free;
          from = let f = next.from in omega arith;
          taken = λ k a b. first i k e (next.taken k) a b;
        })
    | inr e ↦ rw e (record {
      number = i;
      named = refl;
      from = omega arith;
      free = e;
      taken = λ k a b. absurd (omega arith);
    })
  ]

-- The loop that renames a zone whose name is taken always ends, whatever names are used: the fuel of one
-- turn for each of them reaches the first number from 2 on whose name is free.
pub free_name-FirstFree :
    (base : List ℕ) (used : List (List ℕ))
    → FirstFree base used 2 (free_name (length used) 2 base used)
free_name-FirstFree base used =
    free_name_from base used (length used) 2 used (omega arith) (λ j h u. u)

pub zone_name-unused :
    (name : List ℕ) (used : List (List ℕ)) → has_text (zone_name name used) used ≡ false
unfolding zone_name
zone_name-unused name used = elim (Bool-cases (has_text name used)) [
  | inl e ↦ let f = free_name-FirstFree name used in rw (e, f.named) f.free
  | inr e ↦ rw e e
]
