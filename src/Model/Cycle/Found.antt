-- ===== src/Model/Cycle/Found.antt =====
-- internal/model/validate.go: the back edge that the search reports.
use velinx.Base.{
  ℕ, zero, suc, ◌≡◌, ◌≢◌, refl, sym, subst, ◌∙◌, ◌⊎◌, inl, inr, String, List, [], ◌∷◌, none, some,
  ◌=$◌, arith, eq_iff, Bool-cases,
}
use velinx.Model.Cycle.{
  visiting, Colors, color_of, Search, finished, back_edge, no_fuel, visit, dfs, search_all, In,
  Reaches, edge, further,
}
use velinx.Model.Cycle.Finish.{Color-cases, Search-cases}
use velinx.Model.Cycle.Steps.{
  visit_of_done, visit_of_open, visit_of_finished, visit_of_back_edge, visit_of_no_fuel,
  search_of_known, search_of_finished, search_of_back_edge, search_of_no_fuel,
}

module _ (adj : String → List String) where
  Reaches-trans : {a b c : String} → Reaches adj a b → Reaches adj b c → Reaches adj a c
  Reaches-trans (edge i) r = further i r
  Reaches-trans (further i q) r = further i (Reaches-trans q r)

  -- Every node under way is `id`, or leads to it.
  abbrev Leads : String → Colors → Type 0
  Leads id c = (k : String) → color_of k c ≡ some visiting → (k ≡ id) ⊎ Reaches adj k id

  abbrev LeadsTo : String → Colors → Type 0
  LeadsTo id c = (k : String) → color_of k c ≡ some visiting → Reaches adj k id

  -- What a search reports: a finish opens nothing, and a back edge has its node reach itself.
  abbrev Reports : Colors → Search → Type 0
  Reports c (finished c') =
      (k : String) → color_of k c' ≡ some visiting → color_of k c ≡ some visiting
  Reports c (back_edge a b) = In b (adj a) × Reaches adj b b
  Reports c no_fuel = Unit

  abbrev IsFinder : (String → Colors → Search) → Type 0
  IsFinder go = (m : String) (c : Colors) → color_of m c ≡ none → LeadsTo m c → Reports c (go m c)

  opens-Leads : (id : String) (c : Colors) → LeadsTo id c → Leads id ((id, visiting) ∷ c)
  unfolding color_of
  opens-Leads id c h k d = elim (Bool-cases (id =$ k)) [
    | inl p ↦ inl (sym ((eq_iff id k).0 p))
    | inr p ↦ inr (h k (ground arith))
  ]

  -- A member that is under way closes a cycle.
  member_loops :
      (id m : String) (c : Colors)
      → Leads id c
      → In m (adj id)
      → color_of m c ≡ some visiting
      → Reaches adj m m
  member_loops id m c h i d = elim (h m d) [
    | inl p ↦ edge (subst (λ x. In m (adj x)) (sym p) i)
    | inr r ↦ Reaches-trans r (edge i)
  ]

  member_LeadsTo : (id m : String) (c : Colors) → Leads id c → In m (adj id) → LeadsTo m c
  member_LeadsTo id m c h i k d = elim (h k d) [
    | inl p ↦ edge (subst (λ x. In m (adj x)) (sym p) i)
    | inr r ↦ Reaches-trans r (edge i)
  ]

  visit-Reports :
      (go : String → Colors → Search) (id : String) (ms : List String) (c0 c : Colors)
      → IsFinder go
      → color_of id c0 ≡ none
      → Leads id c
      → ((k : String)
          → color_of k c ≡ some visiting
          → color_of k ((id, visiting) ∷ c0) ≡ some visiting)
      → ((m : String) → In m ms → In m (adj id))
      → Reports c0 (visit go id ms c)
  unfolding visit color_of
  visit-Reports go id [] c0 c gs fresh h back sub = λ k d. ground (arith, eq_iff id k, back k)
  visit-Reports go id (m ∷ ms) c0 c gs fresh h back sub = elim (Color-cases (color_of m c)) [
    | inl p ↦
        let r = gs m c p (member_LeadsTo id m c h (sub m (inl refl))) in
        elim (Search-cases (go m c)) [
          | inl (c1, q) ↦
              let opens_none = rw q at r in
              rw (visit_of_finished go id m ms c p q) (
                visit-Reports go id ms c0 c1 gs fresh (λ k d. h k (opens_none k d))
                  (λ k d. back k (opens_none k d)) (λ k i. sub k (inr i)))
          | inr (inl (a, b, q)) ↦ rw (visit_of_back_edge go id m ms c p q) (rw q at r)
          | inr (inr q) ↦ rw (visit_of_no_fuel go id m ms c p q) tt
        ]
    | inr (inl p) ↦
        rw (visit_of_open go id m ms c p)
          (sub m (inl refl), member_loops id m c h (sub m (inl refl)) p)
    | inr (inr p) ↦
        rw (visit_of_done go id m ms c p)
          (visit-Reports go id ms c0 c gs fresh h back (λ k i. sub k (inr i)))
  ]

  dfs_reports : (fuel : ℕ) → IsFinder (dfs adj fuel)
  unfolding dfs
  dfs_reports zero m c fresh h = tt
  dfs_reports (suc fuel) m c fresh h =
      visit-Reports (dfs adj fuel) m (adj m) c ((m, visiting) ∷ c) (dfs_reports fuel) fresh
        (opens-Leads m c h) (λ k d. d) (λ k i. i)

  -- The search over all nodes: with nothing under way, a back edge lies on a cycle.
  pub search_all_reports :
      (fuel : ℕ) (ks : List String) (c : Colors)
      → ((k : String) → color_of k c ≢ some visiting)
      → {a b : String} → search_all adj fuel ks c ≡ back_edge a b
      → In b (adj a) × Reaches adj b b
  unfolding search_all
  search_all_reports fuel [] c quiet e = absurd (cc)
  search_all_reports fuel (k ∷ ks) c quiet {a} {b} e = elim (Color-cases (color_of k c)) [
    | inl p ↦
        let r = dfs_reports fuel k c p (λ j d. absurd (quiet j d)) in
        elim (Search-cases (dfs adj fuel k c)) [
          | inl (c1, q) ↦
              let opens_none = rw q at r in
              search_all_reports fuel ks c1 (λ j d. quiet j (opens_none j d))
                (sym (search_of_finished adj fuel k ks c p q) ∙ e)
          | inr (inl (x, y, q)) ↦
              let same : back_edge x y ≡ back_edge a b =
                sym (search_of_back_edge adj fuel k ks c p q) ∙ e in
              subst (Reports c) same (rw q at r)
          | inr (inr q) ↦ absurd (let f = sym (search_of_no_fuel adj fuel k ks c p q) ∙ e in cc f)
        ]
    | inr (inl p) ↦ absurd (quiet k p)
    | inr (inr p) ↦ search_all_reports fuel ks c quiet (sym (search_of_known adj fuel k ks c p) ∙ e)
  ]
