-- ===== src/Store/Examples.antt =====
-- internal/store/store.go: requests on a small profile.
use velinx.Base.{◌≡◌, refl, false, List, [], ◌∷◌, none, some}
use velinx.Model.{Endpoint, RoutingList, Profile, routing_list_by_id}
use velinx.Model.Validate.Accepted.{Accepted}
use velinx.Model.Validate.Examples.{sample, tunnel, feed}
use velinx.Store.{
  Store, Error, Save, Contents, opened, open_store, commit, upsert_endpoint, upsert_routing_list,
  set_routing_list_cache, delete_endpoint, delete_group, in_use, only_member, has_id, Op, apply,
}
use velinx.Store.Atomic.{AllOrNothing, apply-AllOrNothing, serve, on_disk, restart_finds_memory}
use velinx.Store.Lookup.{cache_after, upsert_routing_list_lookup}
use velinx.Store.Delete.{Unreferenced, delete_endpoint-Unreferenced}

abbrev store : Store
store = record { prof = sample; file = some sample }

abbrev spare : Endpoint
spare = record tunnel { id = "e2"; name = "spare" }

-- The store with an endpoint that `g1` can fall back to.
abbrev fuller : Profile
fuller = record sample {
  groups =
      record {
        id = "g1";
        name = "g1";
        type = "urltest";
        members = "e1" ∷ "e2" ∷ [];
        test = none;
        kill_switch = false;
        interrupt_on_switch = false;
      }
      ∷ [];
  endpoints = tunnel ∷ spare ∷ [];
  rules = [];
}

abbrev full_store : Store
full_store = record { prof = fuller; file = some fuller }

-- `e1` is the only member of `g1` in `sample`.
refused_delete : (delete_endpoint "e1" none store).1 ≡ some (Error.only_member_of "e1" "g1")
unfolding delete_endpoint in_use only_member
refused_delete = refl

apply-AllOrNothing_example :
    AllOrNothing (some "disk full") store (apply (Op.deletes_rule "r1") (some "disk full") store)
apply-AllOrNothing_example = apply-AllOrNothing (Op.deletes_rule "r1") (some "disk full") store

abbrev requests : List (Op × Save)
requests =
    (Op.upserts_endpoint spare, none)
    ∷ (Op.deletes_rule "r1", some "disk full")
    ∷ (Op.deletes_rule "r1", none)
    ∷ []

sample-opened : open_store (Contents.holds sample) none ≡ opened store
unfolding open_store
sample-opened = refl

restart_finds_memory_example :
    open_store (on_disk (serve requests store).file) none ≡ opened (serve requests store)
restart_finds_memory_example =
    restart_finds_memory (Contents.holds sample) none none store requests sample-opened

abbrev with_spare : Store
with_spare = (apply (Op.upserts_endpoint spare) none store).0

spare_added : upsert_endpoint spare none store ≡ (with_spare, none)
unfolding apply upsert_endpoint commit
spare_added = refl

abbrev renamed : RoutingList
renamed = record feed { name = "renamed"; cidr_source = "asn:64512" }

abbrev with_renamed : Store
with_renamed = (apply (Op.upserts_list renamed) none store).0

list_renamed : upsert_routing_list renamed none store ≡ (with_renamed, none)
unfolding apply upsert_routing_list commit
list_renamed = refl

upsert_routing_list_lookup_example :
    routing_list_by_id with_renamed.prof "l1"
    ≡ some (record renamed { cidr_cache = cache_after renamed (routing_list_by_id sample "l1") })
upsert_routing_list_lookup_example =
    upsert_routing_list_lookup renamed none store with_renamed "l1" list_renamed

abbrev cached : Store
cached = (apply (Op.sets_cache "l1" ("10.0.0.0/8" ∷ [])) none store).0

cache_set : set_routing_list_cache "l1" ("10.0.0.0/8" ∷ []) none store ≡ (cached, none)
unfolding apply set_routing_list_cache commit has_id
cache_set = refl

abbrev without_e1 : Store
without_e1 = (apply (Op.deletes_endpoint "e1") none full_store).0

e1_deleted : delete_endpoint "e1" none full_store ≡ (without_e1, none)
unfolding apply delete_endpoint commit in_use only_member has_id
e1_deleted = refl

delete_endpoint-Unreferenced_example : Unreferenced "e1" without_e1.prof
delete_endpoint-Unreferenced_example =
    delete_endpoint-Unreferenced "e1" none full_store without_e1 e1_deleted

-- A profile in which nothing uses `g2`.
abbrev idle : Store
idle = record { prof = record sample { rules = [] }; file = none }

abbrev without_g2 : Store
without_g2 = (apply (Op.deletes_group "g2") none idle).0

g2_deleted : delete_group "g2" none idle ≡ (without_g2, none)
unfolding apply delete_group commit in_use only_member has_id
g2_deleted = refl
