-- ===== src/Store/Atomic.antt =====
-- internal/store/store.go: failures of a request, and the store after a restart.
use velinx.Base.{
  ◌≡◌, refl, ◌⊎◌, inl, inr, Bool, true, false, List, [], ◌∷◌, Option, none, some, arith, ◌=$◌,
  if◌then◌else◌,
}
use velinx.Model.{Profile}
use velinx.Model.Names.{Check, Names, ok, err}
use velinx.Model.Validate.{validate}
use velinx.Store.{
  Store, Error, Save, commit, Contents, opened, open_store, replace, upsert_endpoint, upsert_group,
  upsert_rule, upsert_routing_list, set_routing_list_cache, delete_endpoint, delete_group,
  delete_rule, delete_routing_list, Op, apply,
}

abbrev pub Reply : Type 0
Reply = Store × Option Error

-- The reply of a request that refuses, or that writes some profile.
abbrev Guarded : Save → Store → Reply → Type 0
Guarded w s r = ((e : Error) × (r ≡ (s, some e))) ⊎ ((p : Profile) × (r ≡ commit w p s))

if-Guarded :
    (b : Bool) (w : Save) (s : Store) (x y : Reply)
    → Guarded w s x
    → Guarded w s y
    → Guarded w s (if b then x else y)
if-Guarded true w s x y h k = h
if-Guarded false w s x y h k = k

refused : (w : Save) (s : Store) (e : Error) → Guarded w s (s, some e)
refused w s e = inl (e, refl)

written : (w : Save) (s : Store) (p : Profile) → Guarded w s (commit w p s)
written w s p = inr (p, refl)

replace-Guarded : (p : Profile) (w : Save) (s : Store) → Guarded w s (replace p w s)
unfolding replace
replace-Guarded p w s = go (validate p)
  where
    go :
        (m : Check Names)
        → Guarded w s (elim m [ err e ↦ (s, some (Error.invalid e)) | ok n ↦ commit w p s ])
    go (err e) = refused w s (Error.invalid e)
    go (ok n) = written w s p

in_use-Guarded :
    (o : Option Error) (w : Save) (s : Store) (y : Reply)
    → Guarded w s y
    → Guarded w s (elim o [ some e ↦ (s, some e) | none ↦ y ])
in_use-Guarded (some e) w s y h = refused w s e
in_use-Guarded none w s y h = h

apply-Guarded : (o : Op) (w : Save) (s : Store) → Guarded w s (apply o w s)
unfolding apply upsert_endpoint upsert_group upsert_rule upsert_routing_list set_routing_list_cache
    delete_endpoint delete_group delete_rule delete_routing_list
apply-Guarded (Op.replaces p) w s = replace-Guarded p w s
apply-Guarded (Op.upserts_endpoint e) w s =
    if-Guarded (e.id =$ "") w s _ _ (refused w s _) (written w s _)
apply-Guarded (Op.upserts_group g) w s =
    if-Guarded (g.id =$ "") w s _ _ (refused w s _) (written w s _)
apply-Guarded (Op.upserts_rule r) w s =
    if-Guarded (r.id =$ "") w s _ _ (refused w s _) (written w s _)
apply-Guarded (Op.upserts_list l) w s =
    if-Guarded (l.id =$ "") w s _ _ (refused w s _) (written w s _)
apply-Guarded (Op.sets_cache k cidrs) w s = if-Guarded _ w s _ _ (written w s _) (refused w s _)
apply-Guarded (Op.deletes_endpoint k) w s =
    in_use-Guarded _ w s _ (if-Guarded _ w s _ _ (written w s _) (refused w s _))
apply-Guarded (Op.deletes_group k) w s =
    in_use-Guarded _ w s _ (if-Guarded _ w s _ _ (written w s _) (refused w s _))
apply-Guarded (Op.deletes_rule k) w s = if-Guarded _ w s _ _ (written w s _) (refused w s _)
apply-Guarded (Op.deletes_list k) w s = if-Guarded _ w s _ _ (written w s _) (refused w s _)

-- A reply that is all or nothing: an error with the store as it was, or no error, with the new
-- profile in memory and in the file.
abbrev pub AllOrNothing : Save → Store → Reply → Type 0
AllOrNothing w s r =
    ((e : Error) × (r ≡ (s, some e)))
    ⊎ ((w ≡ none) × (p : Profile) × (r ≡ (record { prof = p; file = some p }, none)))

-- Every request is all or nothing: it returns an error and leaves memory and file as they were, or
-- the write succeeded, it returns no error and the same profile is in memory and in the file.
pub apply-AllOrNothing : (o : Op) (w : Save) (s : Store) → AllOrNothing w s (apply o w s)
unfolding commit
apply-AllOrNothing o w s = elim (apply-Guarded o w s) [ inl h ↦ inl h | inr (p, h) ↦ settle w p h ]
  where
    settle : (w : Save) (p : Profile) → apply o w s ≡ commit w p s → AllOrNothing w s (apply o w s)
    settle none p h = inr (refl, p, h)
    settle (some e) p h = inl (Error.write_failed e, h)

-- A sequence of requests, each with what the file system does.
unfoldable pub serve : List (Op × Save) → Store → Store
serve [] s = s
serve ((o, w) ∷ os) s = serve os (apply o w s).0

abbrev pub on_disk : Option Profile → Contents
on_disk none = Contents.missing
on_disk (some p) = Contents.holds p

serve_synced :
    (os : List (Op × Save)) (s : Store)
    → s.file ≡ some s.prof
    → (serve os s).file ≡ some (serve os s).prof
unfolding serve
serve_synced [] s h = h
serve_synced ((o, w) ∷ os) s h = serve_synced os (apply o w s).0 (step (apply-AllOrNothing o w s))
  where
    step : AllOrNothing w s (apply o w s) → (apply o w s).0.file ≡ some (apply o w s).0.prof
    step a = elim a [ inl (e, q) ↦ rw (q, h) | inr (_, p, q) ↦ rw q ]

opened_synced :
    (c : Contents) (w : Save) {s : Store} → open_store c w ≡ opened s → s.file ≡ some s.prof
unfolding open_store
opened_synced c w h = ground arith

reopens : (s : Store) (w : Save) → s.file ≡ some s.prof → open_store (on_disk s.file) w ≡ opened s
unfolding open_store
reopens s w h = rw h

-- After any sequence of requests on an opened store, whichever of their writes failed, a process
-- that opens the file again finds the store that the memory held.
pub restart_finds_memory :
    (c : Contents) (w v : Save) (s : Store) (os : List (Op × Save))
    → open_store c w ≡ opened s
    → open_store (on_disk (serve os s).file) v ≡ opened (serve os s)
restart_finds_memory c w v s os h = reopens (serve os s) v (serve_synced os s (opened_synced c w h))
