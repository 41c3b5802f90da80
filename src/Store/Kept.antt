-- ===== src/Store/Kept.antt =====
-- internal/store/store.go: what `Validate` promised of rules, routing lists and members that a delete leaves.
use velinx.Base.{
  ◌≡◌, ◌≢◌, refl, inl, inr, String, false, List, [], ◌∷◌, ◌=$◌, arith, All, All-map, Bool-cases,
  subst, ◌∙◌,
}
use velinx.Go.Strings.{is_empty}
use velinx.Model.{Group, Rule, RoutingList, Profile}
use velinx.Model.Cycle.{In}
use velinx.Model.Validate.Stage.{Distinct}
use velinx.Model.Validate.Endpoints.{HasMembers, any_enabled, any_group}
use velinx.Model.Validate.Rules.{RuleSound, ListSound}
use velinx.Model.Validate.Accepted.{all_ids, Emitted, MemberAccepted}
use velinx.Store.{without, all_equal, only_member, remove_string, prune}
use velinx.Store.Delete.{remove_string-In}
use velinx.Store.Sublist.{Sub, Sub-In, Sub-Distinct}

pub All-zip {ℓ κ ι} :
    {A : Type ℓ} (P : A → Type κ) (Q : A → Type ι) (xs : List A)
    → All P xs
    → All Q xs
    → All (λ x. P x × Q x) xs
All-zip P Q [] p q = tt
All-zip P Q (x ∷ xs) p q = ((p.0, q.0), All-zip P Q xs p.1 q.1)

module _ {A : Type 0} (id_of : A → String) (P : A → Type 0) (k : String) where
  -- The elements that are left have another id.
  pub All-without :
      (xs : List A) → All P xs → All (λ x. P x × (id_of x =$ k ≡ false)) (without id_of k xs)
  unfolding without
  All-without [] h = tt
  All-without (x ∷ xs) h = elim (Bool-cases (id_of x =$ k)) [
    | inl q ↦ rw q (All-without xs h.1)
    | inr q ↦ rw q ((h.0, q), All-without xs h.1)
  ]

All-In {ℓ} : {P : String → Type ℓ} (ms : List String) → ((m : String) → In m ms → P m) → All P ms
All-In [] f = tt
All-In (m ∷ ms) f = (f m (inl refl), All-In ms (λ x i. f x (inr i)))

In-All {ℓ} : (P : String → Type ℓ) (ms : List String) → All P ms → (m : String) → In m ms → P m
In-All P [] h m i = absurd i
In-All P (x ∷ ms) h m (inl p) = subst P p h.0
In-All P (x ∷ ms) h m (inr i) = In-All P ms h.1 m i

-- A group that has another member than `k` keeps one.
remove_string-HasMembers :
    (k : String) (ms : List String) → ms ≢ [] → only_member ms k ≡ false → remove_string k ms ≢ []
unfolding only_member is_empty all_equal remove_string
remove_string-HasMembers k [] e h = e
remove_string-HasMembers k (x ∷ ms) e h = kept (x ∷ ms) (ground arith)
  where
    kept : (ys : List String) → all_equal k ys ≡ false → remove_string k ys ≢ []
    kept [] h = absurd (cc)
    kept (y ∷ ys) h = elim (Bool-cases (y =$ k)) [
      | inl q ↦ rw q (kept ys (ground arith))
      | inr q ↦ rw q (λ r. cc)
    ]

-- `q` is `p` without what has the id `k`, with the targets of other ids.
module _ (k : String) (p q : Profile)
    (keeps : (m : String) → m ≢ k → Emitted p m → Emitted q m) where
  pub rules_kept :
      (rs : List Rule)
      → All (λ r. r.outbound ≢ k) rs
      → All (RuleSound (Emitted p)) rs
      → All (RuleSound (Emitted q)) rs
  rules_kept rs u h = All-map rs (λ r t. step r t.0 t.1) (All-zip _ _ rs u h)
    where
      step : (r : Rule) → r.outbound ≢ k → RuleSound (Emitted p) r → RuleSound (Emitted q) r
      step r n (inl d) = inl d
      step r n (inr (t, m)) = inr (keeps r.outbound n t, m)

  pub lists_kept :
      (ls : List RoutingList)
      → All (λ l. (l.outbound ≢ k) × (l.download_via ≢ k)) ls
      → All (ListSound (Emitted p)) ls
      → All (ListSound (Emitted q)) ls
  lists_kept ls u h = All-map ls (λ l t. step l t.0 t.1) (All-zip _ _ ls u h)
    where
      step :
          (l : RoutingList)
          → (l.outbound ≢ k) × (l.download_via ≢ k)
          → ListSound (Emitted p) l
          → ListSound (Emitted q) l
      step l n (a, b, c, inl d) = (a, b, keeps l.outbound n.0 c, inl d)
      step l n (a, b, c, inr d) = (a, b, keeps l.outbound n.0 c, inr (keeps l.download_via n.1 d))

module _ (k : String) (p q : Profile)
    (enabled : (m : String) → m ≢ k → any_enabled m q.endpoints ≡ any_enabled m p.endpoints)
    (grouped : (m : String) → m ≢ k → any_group m q.groups ≡ any_group m p.groups) where
  pub Emitted-kept : (m : String) → m ≢ k → Emitted p m → Emitted q m
  Emitted-kept m n (inl b) = inl b
  Emitted-kept m n (inr (inl e)) = inr (inl (enabled m n ∙ e))
  Emitted-kept m n (inr (inr g)) = inr (inr (grouped m n ∙ g))

  members_kept :
      (g : Group)
      → All (MemberAccepted p g) g.members
      → All (MemberAccepted q g) (remove_string k g.members)
  members_kept g h =
      All-In (remove_string k g.members)
        (λ m i. let t = remove_string-In k g.members m i in step m t.1 (In-All _ g.members h m t.0))
    where
      step : (m : String) → m ≢ k → MemberAccepted p g m → MemberAccepted q g m
      step m n (inl d) = inl d
      step m n (inr (a, b, inl e)) = inr (a, b, inl (enabled m n ∙ e))
      step m n (inr (a, b, inr e)) = inr (a, b, inr (grouped m n ∙ e))

  pub pruned_members :
      (gs : List Group)
      → All (λ g. All (MemberAccepted p g) g.members) gs
      → All (λ g. All (MemberAccepted q g) g.members) (prune k gs)
  unfolding prune
  pruned_members [] h = tt
  pruned_members (g ∷ gs) h = (members_kept g h.0, pruned_members gs h.1)

pub pruned_peopled :
    (k : String) (gs : List Group)
    → All (λ g. HasMembers g × (only_member g.members k ≡ false)) gs
    → All HasMembers (prune k gs)
unfolding prune
pruned_peopled k [] h = tt
pruned_peopled k (g ∷ gs) h =
    (remove_string-HasMembers k g.members h.0.0 h.0.1, pruned_peopled k gs h.1)

-- The order of the ids, and the names that they are.
pub ids_kept :
    (p q : Profile)
    → Sub (all_ids q) (all_ids p)
    → ((k : String) → In k (all_ids p) → k ≢ "") × Distinct (all_ids p)
    → ((k : String) → In k (all_ids q) → k ≢ "") × Distinct (all_ids q)
ids_kept p q s (a, b) = (λ k i. a k (Sub-In k s i), Sub-Distinct s b)
