-- ===== src/Model/Validate/Stage.antt =====
-- internal/model/validate.go: what one loop of `Validate` does to the table of ids.
use velinx.Base.{
  ◌≡◌, ◌≢◌, sym, subst, ◌∙◌, ◌⊎◌, inl, inr, String, List, [], ◌∷◌, none, some, ◌=$◌, arith, eq_iff,
  Bool-cases,
}
use velinx.Model.Names.{Kind, Names, kind_of}
use velinx.Model.Cycle.{In}

-- No element stands twice in the list.
abbrev pub Distinct : List String → Type 0
Distinct [] = Unit
Distinct (k ∷ ks) = (¬ In k ks) × Distinct ks

-- The ids `ks` were entered, all of one kind, and nothing else.
pub record Enters (kind : Kind) (ks : List String) (n m : Names) : Type 0 where
  pub nonempty : (k : String) → In k ks → k ≢ ""
  pub distinct : Distinct ks
  pub fresh : (k : String) → In k ks → kind_of k n.ids ≡ none
  pub added : (k : String) → In k ks → kind_of k m.ids ≡ some kind
  pub keeps : (k : String) (v : Kind) → kind_of k n.ids ≡ some v → kind_of k m.ids ≡ some v
  pub only :
      (k : String) (v : Kind)
      → kind_of k m.ids ≡ some v
      → (kind_of k n.ids ≡ some v) ⊎ (In k ks × (v ≡ kind))

pub Enters-nil : (kind : Kind) (n : Names) → Enters kind [] n n
Enters-nil kind n = record {
  nonempty = λ k i. absurd i;
  distinct = tt;
  fresh = λ k i. absurd i;
  added = λ k i. absurd i;
  keeps = λ k v h. h;
  only = λ k v h. inl h;
}

module _ (kind : Kind) (k : String) (n n1 : Names) (ids1 : n1.ids ≡ (k, kind) ∷ n.ids) where
  kind_of_self : kind_of k n1.ids ≡ some kind
  unfolding kind_of
  kind_of_self = rw ids1 (ground (arith, eq_iff k k))

  kind_of_other : (j : String) → j ≢ k → kind_of j n1.ids ≡ kind_of j n.ids
  unfolding kind_of
  kind_of_other j h = rw ids1 (ground (arith, eq_iff k j))

  pub Enters-cons :
      (ks : List String) (m : Names)
      → k ≢ ""
      → kind_of k n.ids ≡ none
      → Enters kind ks n1 m
      → Enters kind (k ∷ ks) n m
  Enters-cons ks m named fresh e = record {
    nonempty = nonempty;
    distinct = (λ i. absurd (let a = e.fresh k i in cc (kind_of_self)), e.distinct);
    fresh = is_fresh;
    added = is_added;
    keeps = keeps;
    only = only;
  }
    where
      nonempty : (j : String) → In j (k ∷ ks) → j ≢ ""
      nonempty j (inl p) = λ q. named (p ∙ q)
      nonempty j (inr i) = e.nonempty j i

      is_fresh : (j : String) → In j (k ∷ ks) → kind_of j n.ids ≡ none
      is_fresh j (inl p) = subst (λ x. kind_of x n.ids ≡ none) p fresh
      is_fresh j (inr i) = elim (Bool-cases (k =$ j)) [
        | inl p ↦ subst (λ x. kind_of x n.ids ≡ none) ((eq_iff k j).0 p) fresh
        | inr p ↦ sym (kind_of_other j (ground (arith, eq_iff k j))) ∙ e.fresh j i
      ]

      is_added : (j : String) → In j (k ∷ ks) → kind_of j m.ids ≡ some kind
      is_added j (inl p) = subst (λ x. kind_of x m.ids ≡ some kind) p (e.keeps k kind kind_of_self)
      is_added j (inr i) = e.added j i

      keeps : (j : String) (v : Kind) → kind_of j n.ids ≡ some v → kind_of j m.ids ≡ some v
      keeps j v h = elim (Bool-cases (k =$ j)) [
        | inl p ↦ absurd (let q = (eq_iff k j).0 p in cc)
        | inr p ↦ e.keeps j v (kind_of_other j (ground (arith, eq_iff k j)) ∙ h)
      ]

      only :
          (j : String) (v : Kind)
          → kind_of j m.ids ≡ some v
          → (kind_of j n.ids ≡ some v) ⊎ (In j (k ∷ ks) × (v ≡ kind))
      only j v h = elim (e.only j v h) [
        | inl q ↦ elim (Bool-cases (k =$ j)) [
          | inl p ↦
              let same = (eq_iff k j).0 p in
              let kinds : some v ≡ some kind =
                sym q ∙ subst (λ x. kind_of x n1.ids ≡ some kind) same kind_of_self in
              inr (inl same, ground arith)
          | inr p ↦ inl (sym (kind_of_other j (ground (arith, eq_iff k j))) ∙ q)
        ]
        | inr (i, q) ↦ inr (inr i, q)
      ]
