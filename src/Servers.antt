-- ===== src/Servers.antt =====
-- internal/serverstore/serverstore.go: the list of managed servers and its file. A request builds the new
-- list, writes it, and puts it in place only when the write succeeds. The loops that replace, append
-- and remove by id have the form of those of the profile store and are shared with it.
pub mod Persist
mod Examples
use velinx.Base.{
  String, Bool, true, false, List, [], ◌∷◌, Option, none, some, ℤ, ◌=$◌, if◌then◌else◌,
}
use velinx.Model.{first_by_id}
use velinx.Store.{upsert, without, has_id}

pub record Server : Type 0 where
  pub id : String
  pub name : String
  pub host : String
  pub port : ℤ
  pub user : String
  pub installed : List String
  pub hardened : Bool
  pub note : String
  pub created_at : String
  pub last_job : String

-- The file holds a list, or there is none.
pub record Store : Type 0 where
  pub path : String
  pub srv : List Server
  pub file : Option (List Server)

pub data Error : Type 0 where
  id_required no_path : Error
  not_found : String → Error
  write_failed : String → Error

pub data Contents : Type 0 where
  missing blank : Contents
  unreadable corrupt : String → Contents
  holds : List Server → Contents

pub data Opened : Type 0 where
  opened : Store → Opened
  failed : Error → Opened
  unusable : String → Opened

-- `saveLocked`: none is success. `w` is what the atomic write returns.
unfoldable pub save_error : Store → Option String → Option Error
save_error s w =
    if s.path =$ "" then some no_path else elim w [ none ↦ none | some e ↦ some (write_failed e) ]

commit_with : Option Error → List Server → Store → Store × Option Error
commit_with none cand s = (record s { srv = cand; file = some cand }, none)
commit_with (some e) cand s = (s, some e)

-- `if err := s.saveLocked(cand); err != nil { return err }; s.srv = cand`
unfoldable pub commit : Option String → List Server → Store → Store × Option Error
unfolding save_error commit_with
commit w cand s = commit_with (save_error s w) cand s

rewritten : Store → Option Error → Opened
rewritten s none = opened (record s { file = some [] })
rewritten s (some e) = failed e

-- A missing file is not written, a blank one is.
unfoldable pub open_store : String → Contents → Option String → Opened
unfolding save_error rewritten
open_store path missing w = opened (record { path = path; srv = []; file = none })
open_store path blank w =
    let s : Store = record { path = path; srv = []; file = none } in rewritten s (save_error s w)
open_store path (unreadable e) w = unusable e
open_store path (corrupt e) w = unusable e
open_store path (holds l) w = opened (record { path = path; srv = l; file = some l })

unfoldable pub get : String → Store → Option Server
unfolding first_by_id
get k s = first_by_id (λ v. v.id) k s.srv

unfoldable pub upsert_server : Server → Option String → Store → Store × Option Error
upsert_server v w s =
    if v.id =$ "" then (s, some id_required) else commit w (upsert (λ x. x.id) v s.srv) s

-- The first server of the id, changed by `fn`.
unfoldable pub patched : String → (Server → Server) → List Server → List Server
patched k fn [] = []
patched k fn (v ∷ vs) = let rest = patched k fn vs in if v.id =$ k then fn v ∷ vs else v ∷ rest

unfoldable pub patch : String → (Server → Server) → Option String → Store → Store × Option Error
patch k fn w s =
    if has_id (λ x. x.id) k s.srv then commit w (patched k fn s.srv) s else (s, some (not_found k))

unfoldable pub delete : String → Option String → Store → Store × Option Error
delete k w s =
    if has_id (λ x. x.id) k s.srv
    then commit w (without (λ x. x.id) k s.srv) s
    else (s, some (not_found k))

pub data Op : Type 0 where
  upserts : Server → Op
  patches : String → (Server → Server) → Op
  deletes : String → Op

unfoldable pub apply : Op → Option String → Store → Store × Option Error
unfolding upsert_server patch delete
apply (upserts v) = upsert_server v
apply (patches k fn) = patch k fn
apply (deletes k) = delete k

unfoldable pub serve : List (Op × Option String) → Store → Store
unfolding apply
serve [] s = s
serve ((o, w) ∷ os) s = serve os (apply o w s).0
