-- ===== src/Go/Sort.antt =====
-- `sort.Slice` and `sort.Strings`, as the insertion sort by the same test. The order of elements that
-- the test does not tell apart is Go's own choice; the models sort what differs by the test.
use velinx.Base.{
  ◌++◌, All-snoc, ℕ, ◌≤◌, ◌≡◌, refl, arith, Bool, true, false, List, [], ◌∷◌, ◌||◌, if◌then◌else◌,
  All, All-map, Bool-cases, inl, inr,
}

module _ {ℓ} {A : Type ℓ} where
  unfoldable pub insert : (A → A → Bool) → A → List A → List A
  insert lt x [] = x ∷ []
  insert lt x (y ∷ ys) = let rest = insert lt x ys in if lt y x then y ∷ rest else x ∷ y ∷ ys

  unfoldable pub sort : (A → A → Bool) → List A → List A
  unfolding insert
  sort lt [] = []
  sort lt (x ∷ xs) = insert lt x (sort lt xs)

  unfoldable pub any : (A → Bool) → List A → Bool
  any f [] = false
  any f (x ∷ xs) = f x || any f xs

  -- A relation that holds from every element to each one behind it.
  abbrev pub Pairwise {κ} : (A → A → Type κ) → List A → Type κ
  Pairwise R [] = Unit
  Pairwise R (x ∷ xs) = All (R x) xs × Pairwise R xs

  pub Pairwise-snoc {κ} :
      (R : A → A → Type κ) (xs : List A) (x : A)
      → Pairwise R xs
      → All (λ y. R y x) xs
      → Pairwise R (xs ++ (x ∷ []))
  Pairwise-snoc R [] x p h = (tt, tt)
  Pairwise-snoc R (y ∷ ys) x p h = (All-snoc (R y) ys x p.0 h.0, Pairwise-snoc R ys x p.1 h.1)

  module _ (lt : A → A → Bool) where
    any-insert : (f : A → Bool) (x : A) (xs : List A) → any f (insert lt x xs) ≡ (f x || any f xs)
    unfolding any insert
    any-insert f x [] = refl
    any-insert f x (y ∷ ys) = let rest = any-insert f x ys in ground arith

    pub any-sort : (f : A → Bool) (xs : List A) → any f (sort lt xs) ≡ any f xs
    unfolding any sort
    any-sort f [] = refl
    any-sort f (x ∷ xs) = rw (any-insert f x (sort lt xs), any-sort f xs) refl

    All-insert {κ} :
        (P : A → Type κ) (x : A) (xs : List A) → P x → All P xs → All P (insert lt x xs)
    unfolding insert
    All-insert P x [] p ps = (p, tt)
    All-insert P x (y ∷ ys) p ps = elim (Bool-cases (lt y x)) [
      | inl q ↦ rw q (ps.0, All-insert P x ys p ps.1)
      | inr q ↦ rw q (p, ps)
    ]

    pub All-sort {κ} : (P : A → Type κ) (xs : List A) → All P xs → All P (sort lt xs)
    unfolding sort
    All-sort P [] ps = tt
    All-sort P (x ∷ xs) ps = All-insert P x (sort lt xs) ps.0 (All-sort P xs ps.1)

    module _ {κ} (R : A → A → Type κ) (flip : (x y : A) → R x y → R y x) where
      Pairwise-insert :
          (x : A) (xs : List A) → All (R x) xs → Pairwise R xs → Pairwise R (insert lt x xs)
      unfolding insert
      Pairwise-insert x [] p ps = (tt, tt)
      Pairwise-insert x (y ∷ ys) p ps = elim (Bool-cases (lt y x)) [
        | inl q ↦ rw q (All-insert (R y) x ys (flip x y p.0) ps.0, Pairwise-insert x ys p.1 ps.1)
        | inr q ↦ rw q (p, ps)
      ]

      pub Pairwise-sort : (xs : List A) → Pairwise R xs → Pairwise R (sort lt xs)
      unfolding sort
      Pairwise-sort [] ps = tt
      Pairwise-sort (x ∷ xs) ps =
          Pairwise-insert x (sort lt xs) (All-sort (R x) xs ps.0) (Pairwise-sort xs ps.1)

    -- A test that compares by a number first puts the numbers in order.
    module _ (f : A → ℕ) (less : (x y : A) → lt x y ≡ true → f x ≤ f y)
        (more : (x y : A) → lt x y ≡ false → f y ≤ f x) where
      abbrev Above : A → A → Type 0
      Above x y = f x ≤ f y

      Pairwise-insert_le :
          (x : A) (xs : List A) → Pairwise Above xs → Pairwise Above (insert lt x xs)
      unfolding insert
      Pairwise-insert_le x [] ps = (tt, tt)
      Pairwise-insert_le x (y ∷ ys) ps = elim (Bool-cases (lt y x)) [
        | inl q ↦ rw q (All-insert (Above y) x ys (less y x q) ps.0, Pairwise-insert_le x ys ps.1)
        | inr q ↦
            let p : Above x y = more y x q in
            rw q ((p, All-map {P = Above y} {Q = Above x} ys (λ z r. omega arith) ps.0), ps)
      ]

      pub Pairwise-sort_le : (xs : List A) → Pairwise Above (sort lt xs)
      unfolding sort
      Pairwise-sort_le [] = tt
      Pairwise-sort_le (x ∷ xs) = Pairwise-insert_le x (sort lt xs) (Pairwise-sort_le xs)
