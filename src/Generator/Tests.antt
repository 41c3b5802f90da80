-- ===== src/Generator/Tests.antt =====
-- internal/generator/native_only.go: what a chain of tests that passed tells of each.
use velinx.Base.{
  ◌≡◌, ◌⊎◌, inl, inr, refl, Bool, true, false, List, [], ◌∷◌, ◌&&◌, ◌||◌, not, All, arith,
}
use velinx.Go.Sort.{any}
use velinx.Generator.NativeOnly.{each}

pub both : (a b : Bool) → (a && b) ≡ true → (a ≡ true) × (b ≡ true)
both true b h = (refl, h)
both false b h = absurd cc

pub all_of {ℓ} :
    {A : Type ℓ} (test : A → Bool) (xs : List A) → each test xs ≡ true → All (λ x. test x ≡ true) xs
unfolding each
all_of test [] h = tt
all_of test (x ∷ xs) h = let (a, b) = both (test x) (each test xs) h in (a, all_of test xs b)

pub unnegated : (b : Bool) → not b ≡ true → b ≡ false
unnegated true h = absurd cc
unnegated false h = refl

pub or_cases : (a b : Bool) → (not a || b) ≡ true → (a ≡ false) ⊎ (b ≡ true)
or_cases true b h = inr h
or_cases false b h = inl refl

pub none_of {ℓ} :
    {A : Type ℓ} (test : A → Bool) (xs : List A)
    → any test xs ≡ false
    → All (λ x. test x ≡ false) xs
unfolding any
none_of test [] h = tt
none_of test (x ∷ xs) h = (ground arith, none_of test xs (ground arith))

pub and_cases : (a b : Bool) → (a && b) ≡ false → (a ≡ false) ⊎ (b ≡ false)
and_cases false b h = inl refl
and_cases true b h = inr h

pub neither : (a b : Bool) → (a || b) ≡ false → (a ≡ false) × (b ≡ false)
neither false b h = (refl, h)
neither true b h = absurd cc
