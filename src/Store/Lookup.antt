-- ===== src/Store/Lookup.antt =====
-- internal/store/store.go and internal/model/model.go: what a lookup finds after an upsert.
use velinx.Base.{
  ◌≡◌, refl, String, List, [], ◌∷◌, Option, none, some, ◌=$◌, if◌then◌else◌, arith, eq_iff,
}
use velinx.Go.Strings.{is_empty}
use velinx.Model.{Endpoint, RoutingList, first_by_id, endpoint_by_id, routing_list_by_id}
use velinx.Store.{
  Store, commit, upsert, upsert_endpoint, keep_cache, upsert_list, upsert_routing_list, set_cache,
  set_routing_list_cache,
}

module _ {A : Type 0} (id_of : A → String) where
  -- An upsert changes what its own id finds, and nothing else.
  pub first_by_id-upsert :
      (x : A) (k : String) (ys : List A)
      → first_by_id id_of k (upsert id_of x ys)
        ≡ (if id_of x =$ k then some x else first_by_id id_of k ys)
  unfolding first_by_id upsert
  first_by_id-upsert x k [] = grind (eq_iff, arith)
  first_by_id-upsert x k (y ∷ ys) = grind (eq_iff, arith, first_by_id-upsert x k ys)

-- A routing list that replaces `old`, if there is one.
abbrev pub stored_list : RoutingList → Option RoutingList → RoutingList
stored_list l none = l
stored_list l (some old) = keep_cache l old

keep_cache-id : (l old : RoutingList) → (keep_cache l old).id ≡ l.id
unfolding keep_cache
keep_cache-id l old = ground arith

first_by_id-upsert_list :
    (l : RoutingList) (k : String) (ys : List RoutingList)
    → first_by_id (λ x. x.id) k (upsert_list l ys) ≡ (
        if l.id =$ k
        then some (stored_list l (first_by_id (λ x. x.id) l.id ys))
        else first_by_id (λ x. x.id) k ys)
unfolding first_by_id upsert_list
first_by_id-upsert_list l k [] = grind (eq_iff, arith)
first_by_id-upsert_list l k (y ∷ ys) =
    grind (eq_iff, arith, first_by_id-upsert_list l k ys, keep_cache-id l y)

first_by_id-set_cache :
    (c k : String) (cidrs : List String) (ys : List RoutingList)
    → first_by_id (λ x. x.id) k (set_cache c cidrs ys) ≡ elim (first_by_id (λ x. x.id) k ys) [
      | none ↦ none
      | some y ↦ some (if c =$ k then record y { cidr_cache = cidrs } else y)
    ]
unfolding first_by_id set_cache
first_by_id-set_cache c k cidrs [] = grind (eq_iff, arith)
first_by_id-set_cache c k cidrs (y ∷ ys) = grind (eq_iff, arith, first_by_id-set_cache c k cidrs ys)

endpoint_written :
    (e : Endpoint) (w : Option String) (s t : Store)
    → upsert_endpoint e w s ≡ (t, none)
    → t.prof ≡ record s.prof { endpoints = upsert (λ x. x.id) e s.prof.endpoints }
unfolding upsert_endpoint commit
endpoint_written e w s t h = ground arith

-- After an upsert of an endpoint that succeeds, its id finds it, and any other id finds what it
-- found before.
pub upsert_endpoint_lookup :
    (e : Endpoint) (w : Option String) (s t : Store) (k : String)
    → upsert_endpoint e w s ≡ (t, none)
    → endpoint_by_id t.prof k ≡ (if e.id =$ k then some e else endpoint_by_id s.prof k)
unfolding endpoint_by_id
upsert_endpoint_lookup e w s t k h =
    rw (endpoint_written e w s t h, first_by_id-upsert (λ x. x.id) e k s.prof.endpoints)

-- The cache of a stored list, by the list and what its id found before.
abbrev pub cache_after : RoutingList → Option RoutingList → List String
cache_after l none = l.cidr_cache
cache_after l (some old) =
    if l.cidr_source =$ old.cidr_source
    then (if is_empty l.cidr_cache then old.cidr_cache else l.cidr_cache)
    else []

stored_list_lem :
    (l : RoutingList) (o : Option RoutingList)
    → stored_list l o ≡ record l { cidr_cache = cache_after l o }
unfolding keep_cache
stored_list_lem l none = refl
stored_list_lem l (some old) = ground arith

list_written :
    (l : RoutingList) (w : Option String) (s t : Store)
    → upsert_routing_list l w s ≡ (t, none)
    → t.prof ≡ record s.prof { routing_lists = upsert_list l s.prof.routing_lists }
unfolding upsert_routing_list commit
list_written l w s t h = ground arith

-- After an upsert of a routing list that succeeds, its id finds the list, with its own cache when
-- the id is new, with an empty cache when the feed's address changed, and with the earlier cache
-- when the edit carries none; any other id finds what it found before.
pub upsert_routing_list_lookup :
    (l : RoutingList) (w : Option String) (s t : Store) (k : String)
    → upsert_routing_list l w s ≡ (t, none)
    → routing_list_by_id t.prof k ≡ (
        if l.id =$ k
        then some (record l { cidr_cache = cache_after l (routing_list_by_id s.prof l.id) })
        else routing_list_by_id s.prof k)
unfolding routing_list_by_id
upsert_routing_list_lookup l w s t k h = rw (
  list_written l w s t h,
  first_by_id-upsert_list l k s.prof.routing_lists,
  stored_list_lem l (first_by_id (λ x. x.id) l.id s.prof.routing_lists),
)

cache_written :
    (c : String) (cidrs : List String) (w : Option String) (s t : Store)
    → set_routing_list_cache c cidrs w s ≡ (t, none)
    → t.prof ≡ record s.prof { routing_lists = set_cache c cidrs s.prof.routing_lists }
unfolding set_routing_list_cache commit
cache_written c cidrs w s t h = ground arith

-- After the cache of a routing list was set, every id finds the list that it found before, the
-- named one with the new cache.
pub set_routing_list_cache_lookup :
    (c : String) (cidrs : List String) (w : Option String) (s t : Store) (k : String)
    → set_routing_list_cache c cidrs w s ≡ (t, none)
    → routing_list_by_id t.prof k ≡ elim (routing_list_by_id s.prof k) [
      | none ↦ none
      | some y ↦ some (if c =$ k then record y { cidr_cache = cidrs } else y)
    ]
unfolding routing_list_by_id
set_routing_list_cache_lookup c cidrs w s t k h =
    rw (cache_written c cidrs w s t h, first_by_id-set_cache c k cidrs s.prof.routing_lists)
