-- ===== src/Model/Validate/Unique.antt =====
-- internal/model/validate.go: the ids that the loops of `Validate` enter one after another.
use velinx.Base.{◌≡◌, ◌≢◌, refl, ◌⊎◌, inl, inr, String, List, [], ◌∷◌, ◌++◌, Option, none, some}
use velinx.Model.Names.{Kind, Names, kind_of}
use velinx.Model.Cycle.{In, In-append}
use velinx.Model.Validate.Stage.{Distinct, Enters}

Distinct-append :
    (xs ys : List String)
    → Distinct xs
    → Distinct ys
    → ((k : String) → In k xs → ¬ In k ys)
    → Distinct (xs ++ ys)
Distinct-append [] ys dx dy apart = dy
Distinct-append (x ∷ xs) ys dx dy apart = (
  λ i. elim (In-append x xs ys i) [ inl j ↦ dx.0 j | inr j ↦ apart x (inl refl) j ],
  Distinct-append xs ys dx.1 dy (λ k i. apart k (inr i)),
)

-- Ids that were entered, by whichever loop.
pub record Entered (ks : List String) (n m : Names) : Type 0 where
  pub named : (k : String) → In k ks → k ≢ ""
  pub distinct : Distinct ks
  pub fresh : (k : String) → In k ks → kind_of k n.ids ≡ none
  pub added : (k : String) → In k ks → kind_of k m.ids ≢ none
  pub keeps : (k : String) → kind_of k n.ids ≢ none → kind_of k m.ids ≢ none

some_kind : (o : Option Kind) → o ≢ none → (v : Kind) × (o ≡ some v)
some_kind none h = absurd (h refl)
some_kind (some v) h = (v, refl)

kind_cases : (o : Option Kind) → (o ≡ none) ⊎ (o ≢ none)
kind_cases none = inl refl
kind_cases (some v) = inr (λ e. cc)

pub of_Enters : (kind : Kind) (ks : List String) (n m : Names) → Enters kind ks n m → Entered ks n m
of_Enters kind ks n m e = record {
  named = e.nonempty;
  distinct = e.distinct;
  fresh = e.fresh;
  added = λ k i h. let a = e.added k i in cc;
  keeps = λ k h q. let (v, s) = some_kind (kind_of k n.ids) h in let a = e.keeps k v s in cc;
}

pub Entered-append :
    (ks ls : List String) (n m o : Names) → Entered ks n m → Entered ls m o → Entered (ks ++ ls) n o
Entered-append ks ls n m o e f = record {
  named = λ k i. elim (In-append k ks ls i) [ inl j ↦ e.named k j | inr j ↦ f.named k j ];
  distinct = Distinct-append ks ls e.distinct f.distinct (λ k i j. e.added k i (f.fresh k j));
  fresh = λ k i. elim (In-append k ks ls i) [ inl j ↦ e.fresh k j | inr j ↦ back k (f.fresh k j) ];
  added =
      λ k i. elim (In-append k ks ls i) [ inl j ↦ f.keeps k (e.added k j) | inr j ↦ f.added k j ];
  keeps = λ k h. f.keeps k (e.keeps k h);
}
  where
    back : (k : String) → kind_of k m.ids ≡ none → kind_of k n.ids ≡ none
    back k h = elim (kind_cases (kind_of k n.ids)) [ inl q ↦ q | inr q ↦ absurd (e.keeps k q h) ]
