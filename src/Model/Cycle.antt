-- ===== src/Model/Cycle.antt =====
-- internal/model/validate.go, `Validate`: the depth-first search for cycles among nested groups. `color`
-- is an association list, newest entry first, so a node's colour is its newest one. The recursion
-- of `dfs` is on fuel: each call colours a group that had no colour, so as many calls as there are
-- groups can be open at once.
pub mod Steps
pub mod Finish
pub mod Found
pub mod Fuel
use velinx.Base.{
  ℕ, zero, suc, ◌≡◌, ◌⊎◌, inl, inr, String, Bool, true, false, List, [], ◌∷◌, ◌++◌, Option, none,
  some, ◌=$◌, if◌then◌else◌, length,
}
use velinx.Model.{Group}
use velinx.Model.Names.{Kind, kind_of}

abbrev pub is_group : Option Kind → Bool
is_group (some Kind.group) = true
is_group _ = false

unfoldable pub group_members : List (String × Kind) → List String → List String
group_members ids [] = []
group_members ids (m ∷ ms) =
    let rest = group_members ids ms in if is_group (kind_of m ids) then m ∷ rest else rest

-- `groupAdj[k]`: the group-typed members of every group of that id.
unfoldable pub group_adj : List (String × Kind) → List Group → String → List String
unfolding group_members
group_adj ids [] k = []
group_adj ids (g ∷ gs) k =
    let rest = group_adj ids gs k in if g.id =$ k then group_members ids g.members ++ rest else rest

pub data Color : Type 0 where
  visiting done : Color

abbrev pub Colors : Type 0
Colors = List (String × Color)

unfoldable pub color_of : String → Colors → Option Color
color_of k [] = none
color_of k ((j, v) ∷ c) = let rest = color_of k c in if j =$ k then some v else rest

pub data Search : Type 0 where
  finished : Colors → Search
  back_edge : String → String → Search
  no_fuel : Search

-- The loop over the members of `id`, with `go` for the recursive call.
unfoldable pub visit : (String → Colors → Search) → String → List String → Colors → Search
visit go id [] c = finished ((id, done) ∷ c)
visit go id (m ∷ ms) c = elim (color_of m c) [
  | some Color.visiting ↦ back_edge id m
  | some Color.done ↦ visit go id ms c
  | none ↦ elim (go m c) [
    | finished c' ↦ visit go id ms c'
    | back_edge a b ↦ back_edge a b
    | no_fuel ↦ no_fuel
  ]
]

module _ (adj : String → List String) where
  unfoldable pub dfs : ℕ → String → Colors → Search
  dfs zero id c = no_fuel
  dfs (suc fuel) id c = visit (dfs fuel) id (adj id) ((id, visiting) ∷ c)

  -- The loop that starts a search at every group with no colour.
  unfoldable pub search_all : ℕ → List String → Colors → Search
  search_all fuel [] c = finished c
  search_all fuel (k ∷ ks) c = elim (color_of k c) [
    | some _ ↦ search_all fuel ks c
    | none ↦ elim (dfs fuel k c) [
      | finished c' ↦ search_all fuel ks c'
      | back_edge a b ↦ back_edge a b
      | no_fuel ↦ no_fuel
    ]
  ]

unfoldable pub group_ids : List Group → List String
group_ids [] = []
group_ids (g ∷ gs) = g.id ∷ group_ids gs

unfoldable pub search_groups : List (String × Kind) → List Group → Search
search_groups ids gs = search_all (group_adj ids gs) (length gs) (group_ids gs) []

-- Membership, by recursion.
abbrev pub In : String → List String → Type 0
In a [] = ⊥
In a (x ∷ xs) = (x ≡ a) ⊎ In a xs

-- A path of one edge or more.
pub data Reaches (adj : String → List String) : String → String → Type 0 where
  edge : {a b : String} → In b (adj a) → Reaches adj a b
  further : {a b c : String} → In b (adj a) → Reaches adj b c → Reaches adj a c

pub In-append : (k : String) (xs ys : List String) → In k (xs ++ ys) → In k xs ⊎ In k ys
In-append k [] ys i = inr i
In-append k (x ∷ xs) ys (inl p) = inl (inl p)
In-append k (x ∷ xs) ys (inr i) = elim (In-append k xs ys i) [ inl j ↦ inl (inr j) | inr j ↦ inr j ]
