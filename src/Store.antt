-- ===== src/Store.antt =====
-- internal/store/store.go: the profile in memory and its file. `saveLocked` marshals the profile and writes it
-- atomically, so a save either leaves the file as it was, with an error, or replaces it; which of
-- the two is the environment's choice (`Save`). Slices are values: `cloneLocked` copies what the
-- mutators overwrite, so a snapshot is the profile before the change.
pub mod Atomic
pub mod Lookup
pub mod Delete
pub mod Sublist
pub mod Kept
pub mod Valid
mod Examples
use velinx.Base.{
  String, Bool, true, false, List, [], ◌∷◌, Option, none, some, ◌&&◌, ◌||◌, not, ◌=$◌,
  if◌then◌else◌,
}
use velinx.Go.Strings.{is_empty}
use velinx.Model.{Endpoint, Group, Rule, RoutingList, Profile, empty_profile}
use velinx.Model.Names.{Problem, Check, ok, err, Names}
use velinx.Model.Validate.{validate}

pub record Store : Type 0 where
  pub prof : Profile
  pub file : Option Profile

pub data Error : Type 0 where
  id_required : Error
  invalid : Problem → Error
  used_by_rule used_by_list only_member_of : String → String → Error
  not_found : String → Error
  write_failed : String → Error

-- What the write of the file does: none is success.
abbrev pub Save : Type 0
Save = Option String

-- `commitLocked`, after the profile `p` was put in place of `s.prof`.
unfoldable pub commit : Save → Profile → Store → Store × Option Error
commit none p s = (record { prof = p; file = some p }, none)
commit (some e) p s = (s, some (write_failed e))

-- What `os.ReadFile` and `json.Unmarshal` make of the file.
pub data Contents : Type 0 where
  missing blank : Contents
  unreadable corrupt : String → Contents
  holds : Profile → Contents

pub data Opened : Type 0 where
  opened : Store → Opened
  failed : String → Opened

-- A new file is written for a missing or blank one.
fresh : Save → Opened
fresh none = opened (record { prof = empty_profile; file = some empty_profile })
fresh (some e) = failed e

unfoldable pub open_store : Contents → Save → Opened
unfolding fresh
open_store missing w = fresh w
open_store blank w = fresh w
open_store (unreadable e) w = failed e
open_store (corrupt e) w = failed e
open_store (holds p) w = opened (record { prof = p; file = some p })

module _ {A : Type 0} (id_of : A → String) where
  -- Replace the first element of the same id, or append.
  unfoldable pub upsert : A → List A → List A
  upsert x [] = x ∷ []
  upsert x (y ∷ ys) = let rest = upsert x ys in if id_of y =$ id_of x then x ∷ ys else y ∷ rest

  unfoldable pub without : String → List A → List A
  without k [] = []
  without k (y ∷ ys) = let rest = without k ys in if id_of y =$ k then rest else y ∷ rest

  unfoldable pub has_id : String → List A → Bool
  has_id k [] = false
  has_id k (y ∷ ys) = id_of y =$ k || has_id k ys

-- The first element that passes a test.
unfoldable pub find {ℓ} : {A : Type ℓ} → (A → Bool) → List A → Option A
find test [] = none
find test (x ∷ xs) = let rest = find test xs in if test x then some x else rest

unfoldable pub replace : Profile → Save → Store → Store × Option Error
replace p w s = elim (validate p) [ err e ↦ (s, some (invalid e)) | ok n ↦ commit w p s ]

unfoldable pub upsert_endpoint : Endpoint → Save → Store → Store × Option Error
upsert_endpoint e w s =
    if e.id =$ ""
    then (s, some id_required)
    else commit w (record s.prof { endpoints = upsert (λ x. x.id) e s.prof.endpoints }) s

unfoldable pub upsert_group : Group → Save → Store → Store × Option Error
upsert_group g w s =
    if g.id =$ ""
    then (s, some id_required)
    else commit w (record s.prof { groups = upsert (λ x. x.id) g s.prof.groups }) s

unfoldable pub upsert_rule : Rule → Save → Store → Store × Option Error
upsert_rule r w s =
    if r.id =$ ""
    then (s, some id_required)
    else commit w (record s.prof { rules = upsert (λ x. x.id) r s.prof.rules }) s

-- The cache of a list that replaces `old`: dropped when the source changed, kept when the edit
-- leaves it out.
unfoldable pub keep_cache : RoutingList → RoutingList → RoutingList
unfolding is_empty
keep_cache l old =
    if not (l.cidr_source =$ old.cidr_source)
    then record l { cidr_cache = [] }
    else if is_empty l.cidr_cache
    then record l { cidr_cache = old.cidr_cache }
    else l

unfoldable pub upsert_list : RoutingList → List RoutingList → List RoutingList
upsert_list l [] = l ∷ []
upsert_list l (y ∷ ys) =
    let rest = upsert_list l ys in if y.id =$ l.id then keep_cache l y ∷ ys else y ∷ rest

unfoldable pub upsert_routing_list : RoutingList → Save → Store → Store × Option Error
upsert_routing_list l w s =
    if l.id =$ ""
    then (s, some id_required)
    else commit w (record s.prof { routing_lists = upsert_list l s.prof.routing_lists }) s

unfoldable pub set_cache : String → List String → List RoutingList → List RoutingList
set_cache k cidrs [] = []
set_cache k cidrs (y ∷ ys) =
    let rest = set_cache k cidrs ys in
    if y.id =$ k then record y { cidr_cache = cidrs } ∷ ys else y ∷ rest

unfoldable pub set_routing_list_cache : String → List String → Save → Store → Store × Option Error
set_routing_list_cache k cidrs w s =
    if has_id (λ x. x.id) k s.prof.routing_lists
    then commit w (record s.prof { routing_lists = set_cache k cidrs s.prof.routing_lists }) s
    else (s, some (not_found k))

unfoldable pub all_equal : String → List String → Bool
all_equal k [] = true
all_equal k (m ∷ ms) = m =$ k && all_equal k ms

unfoldable pub only_member : List String → String → Bool
unfolding all_equal is_empty
only_member members k = not (is_empty members) && all_equal k members

unfoldable pub remove_string : String → List String → List String
remove_string k [] = []
remove_string k (m ∷ ms) = let rest = remove_string k ms in if m =$ k then rest else m ∷ rest

unfoldable pub prune : String → List Group → List Group
unfolding remove_string
prune k [] = []
prune k (g ∷ gs) = record g { members = remove_string k g.members } ∷ prune k gs

abbrev pub routes_via : String → RoutingList → Bool
routes_via k l = l.outbound =$ k || l.download_via =$ k

-- The guards that `DeleteEndpoint` and `DeleteGroup` share, by the groups that `lonely` picks.
unfoldable pub in_use : (Group → Bool) → String → Profile → Option Error
unfolding find
in_use lonely k p = elim (find (λ r. r.outbound =$ k) p.rules) [
  | some r ↦ some (used_by_rule k r.id)
  | none ↦ elim (find lonely p.groups) [
    | some g ↦ some (only_member_of k g.id)
    | none ↦ elim (find (routes_via k) p.routing_lists) [
      | some l ↦ some (used_by_list k l.id)
      | none ↦ none
    ]
  ]
]

unfoldable pub delete_endpoint : String → Save → Store → Store × Option Error
delete_endpoint k w s = elim (in_use (λ g. only_member g.members k) k s.prof) [
  | some e ↦ (s, some e)
  | none ↦
      if has_id (λ x. x.id) k s.prof.endpoints
      then commit w
          (record s.prof {
            endpoints = without (λ x. x.id) k s.prof.endpoints;
            groups = prune k s.prof.groups;
          })
          s
      else (s, some (not_found k))
]

unfoldable pub delete_group : String → Save → Store → Store × Option Error
delete_group k w s = elim (in_use (λ g. not (g.id =$ k) && only_member g.members k) k s.prof) [
  | some e ↦ (s, some e)
  | none ↦
      if has_id (λ x. x.id) k s.prof.groups
      then commit w (record s.prof { groups = prune k (without (λ x. x.id) k s.prof.groups) }) s
      else (s, some (not_found k))
]

unfoldable pub delete_rule : String → Save → Store → Store × Option Error
delete_rule k w s =
    if has_id (λ x. x.id) k s.prof.rules
    then commit w (record s.prof { rules = without (λ x. x.id) k s.prof.rules }) s
    else (s, some (not_found k))

unfoldable pub delete_routing_list : String → Save → Store → Store × Option Error
delete_routing_list k w s =
    if has_id (λ x. x.id) k s.prof.routing_lists
    then commit w (record s.prof { routing_lists = without (λ x. x.id) k s.prof.routing_lists }) s
    else (s, some (not_found k))

-- A request to the store.
pub data Op : Type 0 where
  replaces : Profile → Op
  upserts_endpoint : Endpoint → Op
  upserts_group : Group → Op
  upserts_rule : Rule → Op
  upserts_list : RoutingList → Op
  sets_cache : String → List String → Op
  deletes_endpoint deletes_group deletes_rule deletes_list : String → Op

unfoldable pub apply : Op → Save → Store → Store × Option Error
apply (replaces p) = replace p
apply (upserts_endpoint e) = upsert_endpoint e
apply (upserts_group g) = upsert_group g
apply (upserts_rule r) = upsert_rule r
apply (upserts_list l) = upsert_routing_list l
apply (sets_cache k cidrs) = set_routing_list_cache k cidrs
apply (deletes_endpoint k) = delete_endpoint k
apply (deletes_group k) = delete_group k
apply (deletes_rule k) = delete_rule k
apply (deletes_list k) = delete_routing_list k
