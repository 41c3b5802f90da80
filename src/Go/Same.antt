-- ===== src/Go/Same.antt =====
-- Texts that are the same, and sets of texts as lists.
use velinx.Base.{
  ℕ, ◌≤◌, ◌<◌, ◌≡◌, ◌≢◌, refl, sym, ◌∙◌, arith, Bool, true, false, List, [], ◌∷◌, ◌++◌, ◌||◌,
  if◌then◌else◌, length, Bool-cases, inl, inr,
}
use velinx.Go.Strings.{same}

pub same_refl : (s : List ℕ) → same s s ≡ true
unfolding same
same_refl [] = refl
same_refl (c ∷ s) = ground (arith, same_refl s)

pub eq_of_same : (s t : List ℕ) → same s t ≡ true → s ≡ t
unfolding same
eq_of_same [] [] h = refl
eq_of_same [] (d ∷ t) h = absurd cc
eq_of_same (c ∷ s) [] h = absurd cc
eq_of_same (c ∷ s) (d ∷ t) h =
    let e : c ≡ d = ground arith in let f = eq_of_same s t (ground arith) in cc

pub same-false : (s t : List ℕ) → s ≢ t → same s t ≡ false
same-false s t n = elim (Bool-cases (same s t)) [
  | inl e ↦ absurd (n (eq_of_same s t e))
  | inr e ↦ e
]

pub append-cancel : (xs ys zs : List ℕ) → xs ++ ys ≡ xs ++ zs → ys ≡ zs
append-cancel [] ys zs e = e
append-cancel (x ∷ xs) ys zs e = append-cancel xs ys zs cc

unfoldable pub has_text : List ℕ → List (List ℕ) → Bool
unfolding same
has_text s [] = false
has_text s (t ∷ ts) = same t s || has_text s ts

unfoldable pub without_text : List ℕ → List (List ℕ) → List (List ℕ)
unfolding same
without_text s [] = []
without_text s (t ∷ ts) = let rest = without_text s ts in if same t s then rest else t ∷ rest

length-without_text_le : (s : List ℕ) (ts : List (List ℕ)) → length (without_text s ts) ≤ length ts
unfolding without_text
length-without_text_le s [] = omega arith
length-without_text_le s (t ∷ ts) = ground (arith, length-without_text_le s ts)

pub length-without_text :
    (s : List ℕ) (ts : List (List ℕ))
    → has_text s ts ≡ true
    → length (without_text s ts) < length ts
unfolding without_text has_text
length-without_text s [] h = absurd cc
length-without_text s (t ∷ ts) h = elim (Bool-cases (same t s)) [
  | inl e ↦ let n = length-without_text_le s ts in ground arith
  | inr e ↦ let n = length-without_text s ts (ground arith) in ground arith
]

pub has_text-without_text :
    (s r : List ℕ) (ts : List (List ℕ))
    → s ≢ r
    → has_text s ts ≡ true
    → has_text s (without_text r ts) ≡ true
unfolding without_text has_text
has_text-without_text s r [] n h = h
has_text-without_text s r (t ∷ ts) n h = elim (Bool-cases (same t r)) [
  | inl e ↦
      let f : same t s ≡ false = same-false t s (λ q. n (sym q ∙ eq_of_same t r e)) in
      rw e (has_text-without_text s r ts n (ground arith))
  | inr e ↦ let m = has_text-without_text s r ts n in ground arith
]
