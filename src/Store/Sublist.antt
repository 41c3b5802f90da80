-- ===== src/Store/Sublist.antt =====
-- internal/store/store.go: what a delete keeps of the ids and of the nesting of groups.
use velinx.Base.{
  ◌≡◌, ◌≢◌, refl, inl, inr, ◌↔◌, String, true, false, List, [], ◌∷◌, ◌++◌, ◌=$◌, arith, eq_iff,
  Bool-cases, subst,
}
use velinx.Model.{Endpoint, Group, Rule, RoutingList}
use velinx.Model.Cycle.{In, In-append, Reaches, edge, further, group_ids}
use velinx.Model.Validate.Stage.{Distinct}
use velinx.Model.Validate.Endpoints.{any_enabled, any_group, endpoint_ids}
use velinx.Model.Validate.Rules.{rule_ids, list_ids}
use velinx.Model.Validate.Nesting.{nested_in, nested}
use velinx.Store.{without, remove_string, prune}
use velinx.Store.Delete.{remove_string-In}

-- The elements of the first list stand in the second, in its order.
pub data Sub : List String → List String → Type 0 where
  nil : Sub [] []
  keep : {k : String} {xs ys : List String} → Sub xs ys → Sub (k ∷ xs) (k ∷ ys)
  skip : {k : String} {xs ys : List String} → Sub xs ys → Sub xs (k ∷ ys)

pub Sub-refl : (xs : List String) → Sub xs xs
Sub-refl [] = nil
Sub-refl (k ∷ xs) = keep (Sub-refl xs)

pub Sub-append : {a b c d : List String} → Sub a b → Sub c d → Sub (a ++ c) (b ++ d)
Sub-append nil t = t
Sub-append (keep s) t = keep (Sub-append s t)
Sub-append (skip s) t = skip (Sub-append s t)

pub Sub-In : {xs ys : List String} (j : String) → Sub xs ys → In j xs → In j ys
Sub-In j nil i = i
Sub-In j (keep s) (inl p) = inl p
Sub-In j (keep s) (inr i) = inr (Sub-In j s i)
Sub-In j (skip s) i = inr (Sub-In j s i)

pub Sub-Distinct : {xs ys : List String} → Sub xs ys → Distinct ys → Distinct xs
Sub-Distinct nil d = d
Sub-Distinct (keep {k} s) d = (λ i. d.0 (Sub-In k s i), Sub-Distinct s d.1)
Sub-Distinct (skip s) d = Sub-Distinct s d.1

pub endpoint_ids-without :
    (k : String) (es : List Endpoint)
    → Sub (endpoint_ids (without (λ x. x.id) k es)) (endpoint_ids es)
unfolding endpoint_ids without
endpoint_ids-without k [] = nil
endpoint_ids-without k (e ∷ es) = elim (Bool-cases (e.id =$ k)) [
  | inl q ↦ rw q (skip (endpoint_ids-without k es))
  | inr q ↦ rw q (keep (endpoint_ids-without k es))
]

pub group_ids-without :
    (k : String) (gs : List Group) → Sub (group_ids (without (λ x. x.id) k gs)) (group_ids gs)
unfolding group_ids without
group_ids-without k [] = nil
group_ids-without k (g ∷ gs) = elim (Bool-cases (g.id =$ k)) [
  | inl q ↦ rw q (skip (group_ids-without k gs))
  | inr q ↦ rw q (keep (group_ids-without k gs))
]

pub group_ids-prune : (k : String) (gs : List Group) → group_ids (prune k gs) ≡ group_ids gs
unfolding group_ids prune
group_ids-prune k [] = refl
group_ids-prune k (g ∷ gs) = rw (group_ids-prune k gs)

pub any_enabled-without :
    (k m : String) (es : List Endpoint)
    → m ≢ k
    → any_enabled m (without (λ x. x.id) k es) ≡ any_enabled m es
unfolding any_enabled without
any_enabled-without k m [] h = refl
any_enabled-without k m (e ∷ es) h = grind (arith, eq_iff, any_enabled-without k m es h)

pub any_group-without :
    (k m : String) (gs : List Group)
    → m ≢ k
    → any_group m (without (λ x. x.id) k gs) ≡ any_group m gs
unfolding any_group without
any_group-without k m [] h = refl
any_group-without k m (g ∷ gs) h = grind (arith, eq_iff, any_group-without k m gs h)

pub any_group-prune : (k m : String) (gs : List Group) → any_group m (prune k gs) ≡ any_group m gs
unfolding any_group prune
any_group-prune k m [] = refl
any_group-prune k m (g ∷ gs) = rw (any_group-prune k m gs)

pub rule_ids-without :
    (k : String) (rs : List Rule) → Sub (rule_ids (without (λ x. x.id) k rs)) (rule_ids rs)
unfolding rule_ids without
rule_ids-without k [] = nil
rule_ids-without k (r ∷ rs) = elim (Bool-cases (r.id =$ k)) [
  | inl q ↦ rw q (skip (rule_ids-without k rs))
  | inr q ↦ rw q (keep (rule_ids-without k rs))
]

pub list_ids-without :
    (k : String) (ls : List RoutingList) → Sub (list_ids (without (λ x. x.id) k ls)) (list_ids ls)
unfolding list_ids without
list_ids-without k [] = nil
list_ids-without k (l ∷ ls) = elim (Bool-cases (l.id =$ k)) [
  | inl q ↦ rw q (skip (list_ids-without k ls))
  | inr q ↦ rw q (keep (list_ids-without k ls))
]

nested_in_iff :
    (all : List Group) (ms : List String) (b : String)
    → In b (nested_in all ms) ↔ (In b ms × (any_group b all ≡ true))
unfolding nested_in
nested_in_iff all [] b = (λ i. absurd i, λ i. absurd i.0)
nested_in_iff all (m ∷ ms) b = elim (Bool-cases (any_group m all)) [
  | inl q ↦ rw q (
    λ i. elim i [
      | inl p ↦ (inl p, subst (λ x. any_group x all ≡ true) p q)
      | inr j ↦ let t = (nested_in_iff all ms b).0 j in (inr t.0, t.1)
    ],
    λ i. elim i.0 [ inl p ↦ inl p | inr j ↦ inr ((nested_in_iff all ms b).1 (j, i.1)) ],
  )
  | inr q ↦ rw q (
    λ i. let t = (nested_in_iff all ms b).0 i in (inr t.0, t.1),
    λ i. elim i.0 [
      | inl p ↦ absurd (let t = subst (λ x. any_group x all ≡ false) p q in cc)
      | inr j ↦ (nested_in_iff all ms b).1 (j, i.1)
    ],
  )
]

In-left : (k : String) (xs ys : List String) → In k xs → In k (xs ++ ys)
In-left k (x ∷ xs) ys (inl p) = inl p
In-left k (x ∷ xs) ys (inr i) = inr (In-left k xs ys i)
In-left k [] ys i = absurd i

In-right : (k : String) (xs ys : List String) → In k ys → In k (xs ++ ys)
In-right k [] ys i = i
In-right k (x ∷ xs) ys i = inr (In-right k xs ys i)

-- Groups of `olds` that lose members or are lost hold no more groups than before.
module _ (k : String) (news olds : List Group)
    (mono : (m : String) → any_group m news ≡ true → any_group m olds ≡ true) where
  pub nested-prune :
      (gs : List Group) (a b : String) → In b (nested news (prune k gs) a) → In b (nested olds gs a)
  unfolding nested prune
  nested-prune [] a b i = absurd i
  nested-prune (g ∷ gs) a b i = elim (Bool-cases (g.id =$ a)) [
    | inl q ↦
        rw q
          (elim (In-append b (nested_in news (remove_string k g.members))
            (nested news (prune k gs) a) (rw q at i)) [
              | inl j ↦
                  let (x, y) = (nested_in_iff news (remove_string k g.members) b).0 j in
                  In-left b _ _ (
                    (nested_in_iff olds g.members b).1
                      ((remove_string-In k g.members b x).0, mono b y))
              | inr j ↦ In-right b _ _ (nested-prune gs a b j)
            ])
    | inr q ↦ rw q (nested-prune gs a b (rw q at i))
  ]

pub nested-without :
    (k : String) (all gs : List Group) (a b : String)
    → In b (nested all (without (λ x. x.id) k gs) a)
    → In b (nested all gs a)
unfolding nested without
nested-without k all [] a b i = i
nested-without k all (g ∷ gs) a b i = elim (Bool-cases (g.id =$ k)) [
  | inl q ↦ elim (Bool-cases (g.id =$ a)) [
    | inl r ↦
        rw r (
          In-right b (nested_in all g.members) _
            (nested-without k all gs a b (rw (q, nested) at i)))
    | inr r ↦ rw r (nested-without k all gs a b (rw (q, nested) at i))
  ]
  | inr q ↦ elim (Bool-cases (g.id =$ a)) [
    | inl r ↦ rw r (elim (In-append b (nested_in all g.members) _ (rw (q, r, nested) at i)) [
      | inl j ↦ In-left b _ _ j
      | inr j ↦ In-right b _ _ (nested-without k all gs a b j)
    ])
    | inr r ↦ rw r (nested-without k all gs a b (rw (q, r, nested) at i))
  ]
]

pub Reaches-mono :
    (f g : String → List String)
    → ((a b : String) → In b (f a) → In b (g a))
    → {a b : String} → Reaches f a b
    → Reaches g a b
Reaches-mono f g h {a} {b} (edge i) = edge (h a b i)
Reaches-mono f g h {a} (further {b = m} i r) = further (h a m i) (Reaches-mono f g h r)
