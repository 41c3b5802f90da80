-- ===== src/Model/Cycle/Fuel.antt =====
-- internal/model/validate.go: the fuel of the search.
use velinx.Base.{
  ℕ, zero, suc, ◌+◌, ◌≤◌, ◌<◌, ◌≡◌, ◌≢◌, refl, inl, inr, String, List, [], ◌∷◌, Option, none, some,
  arith, eq_iff, length,
}
use velinx.Model.Cycle.{
  Color, visiting, Colors, color_of, Search, no_fuel, visit, dfs, search_all, In,
}
use velinx.Model.Cycle.Finish.{
  Color-cases, Search-cases, Closed, Grows, IsSearch, nil-IsQuiet, dfs_finishes, opens-Closed,
}
use velinx.Model.Cycle.Steps.{
  visit_of_done, visit_of_open, visit_of_finished, visit_of_back_edge, search_of_known,
  search_of_finished, search_of_back_edge,
}

abbrev white : Option Color → ℕ
white none = 1
white (some _) = 0

-- How many of the nodes have no colour.
whites : List String → Colors → ℕ
whites [] c = 0
whites (k ∷ ks) c = white (color_of k c) + whites ks c

white-Grows :
    (c c' : Colors) (k : String) → Grows c c' → white (color_of k c') ≤ white (color_of k c)
white-Grows c c' k g = elim (Color-cases (color_of k c)) [
  | inl p ↦ ground arith
  | inr (inl p) ↦ rw (g.keeps_open k p) (omega arith)
  | inr (inr p) ↦ rw (g.keeps_done k p).0 (omega arith)
]

whites-Grows : (ks : List String) (c c' : Colors) → Grows c c' → whites ks c' ≤ whites ks c
unfolding whites
whites-Grows [] c c' g = omega arith
whites-Grows (k ∷ ks) c c' g = omega (arith, white-Grows c c' k g, whites-Grows ks c c' g)

whites-open_le :
    (ks : List String) (id : String) (c : Colors) → whites ks ((id, visiting) ∷ c) ≤ whites ks c
unfolding whites color_of
whites-open_le [] id c = omega arith
whites-open_le (k ∷ ks) id c = ground (arith, whites-open_le ks id c)

-- To open a node takes one off.
whites-open_lt :
    (ks : List String) (id : String) (c : Colors)
    → In id ks
    → color_of id c ≡ none
    → whites ks ((id, visiting) ∷ c) < whites ks c
unfolding whites color_of
whites-open_lt [] id c i p = absurd i
whites-open_lt (k ∷ ks) id c (inl q) p = ground (arith, eq_iff id k, whites-open_le ks id c)
whites-open_lt (k ∷ ks) id c (inr i) p = ground (arith, whites-open_lt ks id c i p)

module _ (adj : String → List String) (ks : List String)
    (within : (a b : String) → In b (adj a) → In b ks) where
  abbrev HasFuel : ℕ → (String → Colors → Search) → Type 0
  HasFuel n go =
      (m : String) (c : Colors)
      → In m ks
      → color_of m c ≡ none
      → Closed adj c
      → whites ks c ≤ n
      → go m c ≢ no_fuel

  visit-HasFuel :
      (n : ℕ) (go : String → Colors → Search) (id : String) (ms : List String) (c : Colors)
      → IsSearch adj go
      → HasFuel n go
      → Closed adj c
      → whites ks c ≤ n
      → ((m : String) → In m ms → In m ks)
      → visit go id ms c ≢ no_fuel
  unfolding visit
  visit-HasFuel n go id [] c gs fuel v h sub = λ e. cc
  visit-HasFuel n go id (m ∷ ms) c gs fuel v h sub = elim (Color-cases (color_of m c)) [
    | inl p ↦ elim (Search-cases (go m c)) [
      | inl (c1, q) ↦
          let f = gs m c c1 p v q in
          rw (visit_of_finished go id m ms c p q) (
            visit-HasFuel n go id ms c1 gs fuel f.closed
              (omega (arith, whites-Grows ks c c1 f.grows)) (λ k i. sub k (inr i)))
      | inr (inl (a, b, q)) ↦ rw (visit_of_back_edge go id m ms c p q) (λ e. cc)
      | inr (inr q) ↦ absurd (fuel m c (sub m (inl refl)) p v h q)
    ]
    | inr (inl p) ↦ rw (visit_of_open go id m ms c p) (λ e. cc)
    | inr (inr p) ↦
        rw (visit_of_done go id m ms c p)
          (visit-HasFuel n go id ms c gs fuel v h (λ k i. sub k (inr i)))
  ]

  dfs-HasFuel : (fuel : ℕ) → HasFuel fuel (dfs adj fuel)
  unfolding dfs
  dfs-HasFuel zero m c i p v h = absurd (omega (arith, whites-open_lt ks m c i p))
  dfs-HasFuel (suc fuel) m c i p v h =
      visit-HasFuel fuel (dfs adj fuel) m (adj m) ((m, visiting) ∷ c) (dfs_finishes adj fuel)
        (dfs-HasFuel fuel) (opens-Closed adj m c p v) (omega (arith, whites-open_lt ks m c i p))
        (within m)

  search_all_HasFuel :
      (fuel : ℕ) (todo : List String) (c : Colors)
      → Closed adj c
      → whites ks c ≤ fuel
      → ((k : String) → In k todo → In k ks)
      → search_all adj fuel todo c ≢ no_fuel
  unfolding search_all
  search_all_HasFuel fuel [] c v h sub = λ e. cc
  search_all_HasFuel fuel (k ∷ todo) c v h sub = elim (Color-cases (color_of k c)) [
    | inl p ↦ elim (Search-cases (dfs adj fuel k c)) [
      | inl (c1, q) ↦
          let f = dfs_finishes adj fuel k c c1 p v q in
          rw (search_of_finished adj fuel k todo c p q) (
            search_all_HasFuel fuel todo c1 f.closed (omega (arith, whites-Grows ks c c1 f.grows))
              (λ j i. sub j (inr i)))
      | inr (inl (a, b, q)) ↦ rw (search_of_back_edge adj fuel k todo c p q) (λ e. cc)
      | inr (inr q) ↦ absurd (dfs-HasFuel fuel k c (sub k (inl refl)) p v h q)
    ]
    | inr (inl p) ↦
        rw (search_of_known adj fuel k todo c p)
          (search_all_HasFuel fuel todo c v h (λ j i. sub j (inr i)))
    | inr (inr p) ↦
        rw (search_of_known adj fuel k todo c p)
          (search_all_HasFuel fuel todo c v h (λ j i. sub j (inr i)))
  ]

whites-nil : (ks : List String) → whites ks [] ≡ length ks
unfolding whites color_of
whites-nil [] = refl
whites-nil (k ∷ ks) = omega (arith, whites-nil ks)

-- From no colours, over nodes that hold all successors, as much fuel as nodes is enough.
pub search_all_fuel :
    (adj : String → List String) (ks : List String)
    → ((a b : String) → In b (adj a) → In b ks)
    → search_all adj (length ks) ks [] ≢ no_fuel
search_all_fuel adj ks within =
    search_all_HasFuel adj ks within (length ks) ks [] (nil-IsQuiet adj).closed
      (omega (arith, whites-nil ks)) (λ k i. i)
