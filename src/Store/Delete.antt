-- ===== src/Store/Delete.antt =====
-- internal/store/store.go: what a delete leaves of the profile.
use velinx.Base.{
  ◌≡◌, ◌≢◌, refl, inl, inr, String, Bool, false, List, [], ◌∷◌, none, some, ◌=$◌, ◌&&◌, not,
  if◌then◌else◌, arith, eq_iff, All, All-map, Bool-cases, subst, sym,
}
use velinx.Model.{Group, Profile, first_by_id, endpoint_by_id, group_by_id}
use velinx.Model.Cycle.{In}
use velinx.Store.{
  Store, Save, commit, without, find, only_member, remove_string, prune, routes_via, in_use,
  delete_endpoint, delete_group,
}

-- No element passes a test whose `find` is none.
find-none {ℓ} :
    {A : Type ℓ} (test : A → Bool) (xs : List A)
    → find test xs ≡ none
    → All (λ x. test x ≡ false) xs
unfolding find
find-none test [] h = tt
find-none test (x ∷ xs) h = (ground arith, find-none test xs (ground arith))

pub remove_string-In :
    (k : String) (ms : List String) (m : String) → In m (remove_string k ms) → In m ms × (m ≢ k)
unfolding remove_string
remove_string-In k [] m i = absurd i
remove_string-In k (x ∷ ms) m i = elim (Bool-cases (x =$ k)) [
  | inl q ↦ let t = remove_string-In k ms m (rw q at i) in (inr t.0, t.1)
  | inr q ↦ elim (let j : In m (x ∷ remove_string k ms) = rw q at i in j) [
    | inl p ↦ (inl p, λ r. grind (arith, eq_iff))
    | inr j ↦ let t = remove_string-In k ms m j in (inr t.0, t.1)
  ]
]

-- Nothing in the profile refers to `k`.
pub record Unreferenced (k : String) (p : Profile) : Type 0 where
  pub rules : All (λ r. r.outbound ≢ k) p.rules
  pub members : All (λ g. ¬ In k g.members) p.groups
  pub lists : All (λ l. (l.outbound ≢ k) × (l.download_via ≢ k)) p.routing_lists

-- What the guards of a delete leave.
pub record Unused (lonely : Group → Bool) (k : String) (p : Profile) : Type 0 where
  pub rules : All (λ r. r.outbound ≢ k) p.rules
  pub peopled : All (λ g. lonely g ≡ false) p.groups
  pub lists : All (λ l. (l.outbound ≢ k) × (l.download_via ≢ k)) p.routing_lists

unused_finds :
    (lonely : Group → Bool) (k : String) (p : Profile)
    → in_use lonely k p ≡ none
    → (find (λ r. r.outbound =$ k) p.rules ≡ none)
      × (find lonely p.groups ≡ none)
      × (find (routes_via k) p.routing_lists ≡ none)
unfolding in_use
unused_finds lonely k p h = ground arith

pub in_use-Unused :
    (lonely : Group → Bool) (k : String) (p : Profile)
    → in_use lonely k p ≡ none
    → Unused lonely k p
in_use-Unused lonely k p h =
    let (a, b, c) = unused_finds lonely k p h in
    record {
      rules = All-map p.rules (λ r q. grind (arith, eq_iff)) (find-none _ p.rules a);
      peopled = find-none lonely p.groups b;
      lists =
          All-map p.routing_lists
            (λ l q. (ground (arith, eq_iff l.outbound k), ground (arith, eq_iff l.download_via k)))
            (find-none (routes_via k) p.routing_lists c);
    }

prune-absent : (k : String) (gs : List Group) → All (λ g. ¬ In k g.members) (prune k gs)
unfolding prune
prune-absent k [] = tt
prune-absent k (g ∷ gs) = (λ i. (remove_string-In k g.members k i).1 refl, prune-absent k gs)

module _ {A : Type 0} (id_of : A → String) where
  pub first_by_id-without :
      (k j : String) (xs : List A)
      → first_by_id id_of j (without id_of k xs) ≡ (if k =$ j then none else first_by_id id_of j xs)
  unfolding first_by_id without
  first_by_id-without k j [] = ground arith
  first_by_id-without k j (x ∷ xs) = grind (eq_iff, arith, first_by_id-without k j xs)

-- A group without the member `k`.
abbrev pub without_member : String → Group → Group
without_member k g = record g { members = remove_string k g.members }

first_by_id-prune :
    (k j : String) (gs : List Group)
    → first_by_id (λ g. g.id) j (prune k gs)
      ≡ elim (first_by_id (λ g. g.id) j gs) [ none ↦ none | some g ↦ some (without_member k g) ]
unfolding first_by_id prune
first_by_id-prune k j [] = ground arith
first_by_id-prune k j (g ∷ gs) = grind (arith, first_by_id-prune k j gs)

abbrev pub minus_endpoint : String → Profile → Profile
minus_endpoint k p = record p {
  endpoints = without (λ x. x.id) k p.endpoints;
  groups = prune k p.groups;
}

abbrev pub minus_group : String → Profile → Profile
minus_group k p = record p { groups = prune k (without (λ x. x.id) k p.groups) }

abbrev pub lonely : String → Group → Bool
lonely k g = only_member g.members k

abbrev pub other_lonely : String → Group → Bool
other_lonely k g = not (g.id =$ k) && only_member g.members k

pub endpoint_deleted :
    (k : String) (w : Save) (s t : Store)
    → delete_endpoint k w s ≡ (t, none)
    → (t.prof ≡ minus_endpoint k s.prof) × (in_use (lonely k) k s.prof ≡ none)
unfolding delete_endpoint commit
endpoint_deleted k w s t h = ground arith

pub group_deleted :
    (k : String) (w : Save) (s t : Store)
    → delete_group k w s ≡ (t, none)
    → (t.prof ≡ minus_group k s.prof) × (in_use (other_lonely k) k s.prof ≡ none)
unfolding delete_group commit
group_deleted k w s t h = ground arith

-- After an endpoint's delete that succeeds, nothing refers to its id: no rule's target, no group's
-- member, no routing list's target or download path.
pub delete_endpoint-Unreferenced :
    (k : String) (w : Save) (s t : Store)
    → delete_endpoint k w s ≡ (t, none)
    → Unreferenced k t.prof
delete_endpoint-Unreferenced k w s t h =
    let (q, u) = endpoint_deleted k w s t h in
    let free = in_use-Unused (lonely k) k s.prof u in
    subst (Unreferenced k) (sym q)
      (record { rules = free.rules; members = prune-absent k s.prof.groups; lists = free.lists })

-- After a group's delete that succeeds, nothing refers to its id: no rule's target, no other
-- group's member, no routing list's target or download path.
pub delete_group-Unreferenced :
    (k : String) (w : Save) (s t : Store) → delete_group k w s ≡ (t, none) → Unreferenced k t.prof
delete_group-Unreferenced k w s t h =
    let (q, u) = group_deleted k w s t h in
    let free = in_use-Unused (other_lonely k) k s.prof u in
    subst (Unreferenced k) (sym q)
      (record { rules = free.rules; members = prune-absent k _; lists = free.lists })

-- After an endpoint's delete that succeeds, its id finds no endpoint, any other id finds the
-- endpoint that it found before, and every id finds the group that it found before, without the
-- deleted member.
pub delete_endpoint_lookup :
    (k : String) (w : Save) (s t : Store) (j : String)
    → delete_endpoint k w s ≡ (t, none)
    → (endpoint_by_id t.prof j ≡ (if k =$ j then none else endpoint_by_id s.prof j))
      × (group_by_id t.prof j
          ≡ elim (group_by_id s.prof j) [ none ↦ none | some g ↦ some (without_member k g) ])
unfolding endpoint_by_id group_by_id
delete_endpoint_lookup k w s t j h =
    let q = (endpoint_deleted k w s t h).0 in
    (
      rw (q, first_by_id-without (λ x. x.id) k j s.prof.endpoints),
      rw (q, first_by_id-prune k j s.prof.groups),
    )
