-- ===== src/Model/Cycle/Steps.antt =====
-- internal/model/validate.go: one turn of the loops of the search, by the colour of the next node and by
-- what its search returns.
use velinx.Base.{◌≡◌, String, List, ◌∷◌, ℕ, none, some}
use velinx.Model.Cycle.{
  Color, visiting, done, Colors, color_of, Search, finished, back_edge, no_fuel, visit, dfs,
  search_all,
}

module _ (go : String → Colors → Search) (id m : String) (ms : List String) (c : Colors) where
  pub visit_of_done : color_of m c ≡ some done → visit go id (m ∷ ms) c ≡ visit go id ms c
  unfolding visit
  visit_of_done p = rw (p, visit)

  pub visit_of_open : color_of m c ≡ some visiting → visit go id (m ∷ ms) c ≡ back_edge id m
  unfolding visit
  visit_of_open p = rw (p, visit)

  module _ (p : color_of m c ≡ none) where
    pub visit_of_finished :
        {c1 : Colors} → go m c ≡ finished c1 → visit go id (m ∷ ms) c ≡ visit go id ms c1
    unfolding visit
    visit_of_finished q = rw (p, q, visit)

    pub visit_of_back_edge :
        {a b : String} → go m c ≡ back_edge a b → visit go id (m ∷ ms) c ≡ back_edge a b
    unfolding visit
    visit_of_back_edge q = rw (p, q, visit)

    pub visit_of_no_fuel : go m c ≡ no_fuel → visit go id (m ∷ ms) c ≡ no_fuel
    unfolding visit
    visit_of_no_fuel q = rw (p, q, visit)

module _ (adj : String → List String) (fuel : ℕ) (k : String) (ks : List String) (c : Colors) where
  pub search_of_known :
      {v : Color}
      → color_of k c ≡ some v
      → search_all adj fuel (k ∷ ks) c ≡ search_all adj fuel ks c
  unfolding search_all
  search_of_known p = rw (p, search_all)

  module _ (p : color_of k c ≡ none) where
    pub search_of_finished :
        {c1 : Colors}
        → dfs adj fuel k c ≡ finished c1
        → search_all adj fuel (k ∷ ks) c ≡ search_all adj fuel ks c1
    unfolding search_all
    search_of_finished q = rw (p, q, search_all)

    pub search_of_back_edge :
        {a b : String}
        → dfs adj fuel k c ≡ back_edge a b
        → search_all adj fuel (k ∷ ks) c ≡ back_edge a b
    unfolding search_all
    search_of_back_edge q = rw (p, q, search_all)

    pub search_of_no_fuel : dfs adj fuel k c ≡ no_fuel → search_all adj fuel (k ∷ ks) c ≡ no_fuel
    unfolding search_all
    search_of_no_fuel q = rw (p, q, search_all)
