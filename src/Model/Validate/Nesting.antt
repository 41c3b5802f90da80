-- ===== src/Model/Validate/Nesting.antt =====
-- internal/model/validate.go: the nesting of groups, said of the profile alone, and the graph of the search.
use mathlib.Core.Path.{fun_ext}
use velinx.Base.{
  suc, ◌≡◌, ◌≢◌, refl, sym, subst, ◌∙◌, inl, inr, ap, String, true, List, [], ◌∷◌, ◌++◌, ◌=$◌,
  if◌then◌else◌, arith, eq_iff, Bool-cases, length,
}
use velinx.Model.{Group}
use velinx.Model.Names.{Kind, kind_of}
use velinx.Model.Cycle.{
  is_group, group_members, group_adj, group_ids, Colors, color_of, finished, back_edge, no_fuel,
  search_groups, search_all, In, In-append, Reaches, edge, further,
}
use velinx.Model.Cycle.Finish.{search_all_acyclic}
use velinx.Model.Cycle.Found.{search_all_reports}
use velinx.Model.Cycle.Fuel.{search_all_fuel}
use velinx.Model.Validate.Endpoints.{any_group}

-- The members of a list that are groups of the profile.
unfoldable pub nested_in : List Group → List String → List String
nested_in all [] = []
nested_in all (m ∷ ms) = let rest = nested_in all ms in if any_group m all then m ∷ rest else rest

-- The groups that stand directly in a group of id `k`.
unfoldable pub nested : List Group → List Group → String → List String
nested all [] k = []
nested all (g ∷ gs) k =
    let rest = nested all gs k in if g.id =$ k then nested_in all g.members ++ rest else rest

pub any_group-In : (k : String) (gs : List Group) → any_group k gs ≡ true → In k (group_ids gs)
unfolding any_group group_ids
any_group-In k [] h = absurd (cc)
any_group-In k (g ∷ gs) h = elim (Bool-cases (g.id =$ k)) [
  | inl p ↦ inl ((eq_iff g.id k).0 p)
  | inr p ↦ inr (any_group-In k gs (ground arith))
]

pub In-any_group : (k : String) (gs : List Group) → In k (group_ids gs) → any_group k gs ≡ true
unfolding any_group group_ids
In-any_group k [] i = absurd i
In-any_group k (g ∷ gs) (inl p) = ground (arith, eq_iff g.id k)
In-any_group k (g ∷ gs) (inr i) = ground (arith, In-any_group k gs i)

nested_in-In :
    (all : List Group) (ms : List String) (k : String)
    → In k (nested_in all ms)
    → In k (group_ids all)
unfolding nested_in
nested_in-In all [] k i = absurd i
nested_in-In all (m ∷ ms) k i = elim (Bool-cases (any_group m all)) [
  | inl p ↦ elim (let j : In k (m ∷ nested_in all ms) = rw p at i in j) [
    | inl q ↦ subst (λ x. In x (group_ids all)) q (any_group-In m all p)
    | inr j ↦ nested_in-In all ms k j
  ]
  | inr p ↦ nested_in-In all ms k (rw p at i)
]

pub nested-In : (all gs : List Group) (a b : String) → In b (nested all gs a) → In b (group_ids all)
unfolding nested
nested-In all [] a b i = absurd i
nested-In all (g ∷ gs) a b i = elim (Bool-cases (g.id =$ a)) [
  | inl p ↦ elim (In-append b (nested_in all g.members) (nested all gs a) (rw p at i)) [
    | inl j ↦ nested_in-In all g.members b j
    | inr j ↦ nested-In all gs a b j
  ]
  | inr p ↦ nested-In all gs a b (rw p at i)
]

-- A group that holds a group is one of the groups.
pub nested-source :
    (all gs : List Group) (a b : String) → In b (nested all gs a) → In a (group_ids gs)
unfolding nested group_ids
nested-source all [] a b i = absurd i
nested-source all (g ∷ gs) a b i = elim (Bool-cases (g.id =$ a)) [
  | inl p ↦ inl ((eq_iff g.id a).0 p)
  | inr p ↦ inr (nested-source all gs a b (rw p at i))
]

length-group_ids : (gs : List Group) → length (group_ids gs) ≡ length gs
unfolding group_ids
length-group_ids [] = refl
length-group_ids (g ∷ gs) = ap suc (length-group_ids gs)

module _ (ids : List (String × Kind)) (all : List Group)
    (same : (k : String) → is_group (kind_of k ids) ≡ any_group k all) where
  group_members-nested_in : (ms : List String) → group_members ids ms ≡ nested_in all ms
  unfolding group_members nested_in
  group_members-nested_in [] = refl
  group_members-nested_in (m ∷ ms) = rw (same m, group_members-nested_in ms)

  group_adj-nested : (gs : List Group) (k : String) → group_adj ids gs k ≡ nested all gs k
  unfolding group_adj nested
  group_adj-nested [] k = refl
  group_adj-nested (g ∷ gs) k = rw (group_members-nested_in g.members, group_adj-nested gs k)

  adj_same : group_adj ids all ≡ nested all all
  adj_same = fun_ext (group_adj-nested all)

  search_groups_same :
      search_groups ids all
      ≡ search_all (nested all all) (length (group_ids all)) (group_ids all) []
  unfolding search_groups
  search_groups_same = rw (adj_same, length-group_ids)

  -- A search that finishes means that no group holds itself, directly or through others.
  pub search_groups_acyclic :
      {c : Colors}
      → search_groups ids all ≡ finished c
      → (k : String) → ¬ Reaches (nested all all) k k
  search_groups_acyclic {c} e k r =
      search_all_acyclic (nested all all) (length (group_ids all)) (group_ids all) c
        (sym search_groups_same ∙ e) k (source_of r) r
    where
      source_of : {a b : String} → Reaches (nested all all) a b → In a (group_ids all)
      source_of {a} {b} (edge i) = nested-source all all a b i
      source_of {a} (further {b = b} i _) = nested-source all all a b i

  -- A back edge stands for a group that holds itself.
  pub search_groups_reports :
      {a b : String}
      → search_groups ids all ≡ back_edge a b
      → In b (nested all all a) × Reaches (nested all all) b b
  unfolding color_of
  search_groups_reports e =
      search_all_reports (nested all all) (length (group_ids all)) (group_ids all) [] (λ k h. cc)
        (sym search_groups_same ∙ e)

  pub search_groups_fuel : search_groups ids all ≢ no_fuel
  search_groups_fuel e =
      search_all_fuel (nested all all) (group_ids all) (nested-In all all)
        (sym search_groups_same ∙ e)
