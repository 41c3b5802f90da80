-- ===== src/Servers/Persist.antt =====
-- internal/serverstore/serverstore.go: the servers after a restart, and lookups after a request.
use velinx.Base.{
  ◌≡◌, refl, ◌∙◌, String, List, [], ◌∷◌, Option, none, some, ◌=$◌, if◌then◌else◌, arith, eq_iff, ap,
}
use velinx.Model.{first_by_id}
use velinx.Store.{upsert, without}
use velinx.Store.Lookup.{first_by_id-upsert}
use velinx.Store.Delete.{first_by_id-without}
use velinx.Servers.{
  Server, Store, Contents, Opened, opened, save_error, commit, open_store, get, upsert_server,
  patched, patch, delete, Op, apply, serve,
}

first_by_id-patched :
    (k j : String) (fn : Server → Server) (vs : List Server)
    → ((v : Server) → (fn v).id ≡ v.id)
    → first_by_id (λ v. v.id) j (patched k fn vs) ≡ elim (first_by_id (λ v. v.id) j vs) [
      | none ↦ none
      | some v ↦ some (if k =$ j then fn v else v)
    ]
unfolding first_by_id patched
first_by_id-patched k j fn [] same = refl
first_by_id-patched k j fn (v ∷ vs) same =
    grind (arith, eq_iff, same v, first_by_id-patched k j fn vs same)

-- The server that an id finds after a request that succeeded, by what it found before.
abbrev pub found_after : Op → String → Option Server → Option Server
found_after (Op.upserts v) j before = if v.id =$ j then some v else before
found_after (Op.patches k fn) j none = none
found_after (Op.patches k fn) j (some v) = some (if k =$ j then fn v else v)
found_after (Op.deletes k) j before = if k =$ j then none else before

-- A patch leaves the id.
abbrev pub KeepsId : Op → Type 0
KeepsId (Op.upserts v) = Unit
KeepsId (Op.patches k fn) = (v : Server) → (fn v).id ≡ v.id
KeepsId (Op.deletes k) = Unit

upserted :
    (v : Server) (w : Option String) (s t : Store)
    → upsert_server v w s ≡ (t, none)
    → t.srv ≡ upsert (λ x. x.id) v s.srv
unfolding upsert_server commit save_error
upserted v w s t h = ground arith

patched_list :
    (k : String) (fn : Server → Server) (w : Option String) (s t : Store)
    → patch k fn w s ≡ (t, none)
    → t.srv ≡ patched k fn s.srv
unfolding patch commit save_error
patched_list k fn w s t h = ground arith

deleted :
    (k : String) (w : Option String) (s t : Store)
    → delete k w s ≡ (t, none)
    → t.srv ≡ without (λ x. x.id) k s.srv
unfolding delete commit save_error
deleted k w s t h = ground arith

-- After a request that succeeds, an upserted server is found under its id, a patched one with the
-- patch, a deleted one not at all, and any other id finds what it found before; the patch keeps ids.
pub apply_lookup :
    (o : Op) (w : Option String) (s t : Store) (j : String)
    → KeepsId o
    → apply o w s ≡ (t, none)
    → get j t ≡ found_after o j (get j s)
unfolding apply get
apply_lookup (Op.upserts v) w s t j keeps h =
    rw (upserted v w s t h) (first_by_id-upsert (λ x. x.id) v j s.srv)
apply_lookup (Op.patches k fn) w s t j keeps h =
    rw (patched_list k fn w s t h)
      (first_by_id-patched k j fn s.srv keeps ∙ same_cases (first_by_id (λ x. x.id) j s.srv))
  where
    same_cases :
        (b : Option Server)
        → elim b [ none ↦ none | some v ↦ some (if k =$ j then fn v else v) ]
          ≡ found_after (Op.patches k fn) j b
    same_cases none = refl
    same_cases (some v) = refl
apply_lookup (Op.deletes k) w s t j keeps h =
    rw (deleted k w s t h) (first_by_id-without (λ x. x.id) k j s.srv)

-- The list that a file stands for: none when it was never written.
abbrev stored : Option (List Server) → List Server
stored none = []
stored (some l) = l

abbrev pub on_disk : Option (List Server) → Contents
on_disk none = Contents.missing
on_disk (some l) = Contents.holds l

commit_synced :
    (w : Option String) (cand : List Server) (s : Store)
    → stored s.file ≡ s.srv
    → stored (commit w cand s).0.file ≡ (commit w cand s).0.srv
unfolding commit save_error
commit_synced w cand s h = ground arith

apply_synced :
    (o : Op) (w : Option String) (s : Store)
    → stored s.file ≡ s.srv
    → stored (apply o w s).0.file ≡ (apply o w s).0.srv
unfolding apply upsert_server patch delete
apply_synced (Op.upserts v) w s h = ground (arith, commit_synced w (upsert (λ x. x.id) v s.srv) s h)
apply_synced (Op.patches k fn) w s h = ground (arith, commit_synced w (patched k fn s.srv) s h)
apply_synced (Op.deletes k) w s h =
    ground (arith, commit_synced w (without (λ x. x.id) k s.srv) s h)

serve_synced :
    (os : List (Op × Option String)) (s : Store)
    → stored s.file ≡ s.srv
    → stored (serve os s).file ≡ (serve os s).srv
unfolding serve
serve_synced [] s h = h
serve_synced ((o, w) ∷ os) s h = serve_synced os (apply o w s).0 (apply_synced o w s h)

opened_synced :
    (path : String) (c : Contents) (w : Option String) {s : Store}
    → open_store path c w ≡ opened s
    → stored s.file ≡ s.srv
unfolding open_store save_error
opened_synced path c w h = ground arith

abbrev pub list_of : Opened → Option (List Server)
list_of (opened s) = some s.srv
list_of (Opened.failed e) = none
list_of (Opened.unusable e) = none

reopens :
    (path : String) (f : Option (List Server)) (w : Option String)
    → list_of (open_store path (on_disk f) w) ≡ some (stored f)
unfolding open_store
reopens path none w = refl
reopens path (some l) w = refl

-- After any sequence of requests on an opened list, whichever of their writes failed, a process
-- that opens the file again finds the servers that the memory held.
pub restart_finds_servers :
    (path : String) (c : Contents) (w v : Option String) (s : Store)
    (os : List (Op × Option String))
    → open_store path c w ≡ opened s
    → list_of (open_store path (on_disk (serve os s).file) v) ≡ some (serve os s).srv
restart_finds_servers path c w v s os h =
    reopens path (serve os s).file v ∙ ap some (serve_synced os s (opened_synced path c w h))
