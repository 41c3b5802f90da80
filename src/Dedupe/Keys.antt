-- ===== src/Dedupe/Keys.antt =====
-- internal/importer/dedupe.go: the keys that are known after an import, and a second run of the import.
use velinx.Base.{
  ℕ, ◌≡◌, refl, inl, inr, String, Bool, true, false, List, [], ◌∷◌, ◌++◌, ◌||◌, arith, All, All-map,
  Bool-cases, ◌∙◌, subst,
}
use velinx.Go.Strings.{same}
use velinx.Model.{Endpoint}
use velinx.Dedupe.{
  content_key, ids_of, keys_of, has_key, is_update, keep, drop_one, dedupe, dedupe_new,
}

same_refl : (s : List ℕ) → same s s ≡ true
unfolding same
same_refl [] = refl
same_refl (c ∷ s) = ground (arith, same_refl s)

-- The key of `e` is one of `keys` or of the endpoints `us`.
abbrev pub known : List (List ℕ) → List Endpoint → Endpoint → Bool
known keys us e = has_key (content_key e) keys || has_key (content_key e) (keys_of us)

-- One pass of the loop.
dedupe_of_update :
    (ids : List (String × List ℕ)) (keys : List (List ℕ)) (e : Endpoint) (es : List Endpoint)
    → is_update ids e ≡ true
    → keep e (dedupe ids keys es) ≡ dedupe ids keys (e ∷ es)
unfolding dedupe
dedupe_of_update ids keys e es u = rw (u, dedupe) refl

dedupe_of_duplicate :
    (ids : List (String × List ℕ)) (keys : List (List ℕ)) (e : Endpoint) (es : List Endpoint)
    → is_update ids e ≡ false
    → has_key (content_key e) keys ≡ true
    → drop_one (dedupe ids keys es) ≡ dedupe ids keys (e ∷ es)
unfolding dedupe
dedupe_of_duplicate ids keys e es u h = rw (u, h, dedupe) refl

dedupe_of_new :
    (ids : List (String × List ℕ)) (keys : List (List ℕ)) (e : Endpoint) (es : List Endpoint)
    → is_update ids e ≡ false
    → has_key (content_key e) keys ≡ false
    → keep e (dedupe ids (content_key e ∷ keys) es) ≡ dedupe ids keys (e ∷ es)
unfolding dedupe
dedupe_of_new ids keys e es u h = rw (u, h, dedupe) refl

dedupe-known :
    (ids : List (String × List ℕ)) (keys : List (List ℕ)) (es : List Endpoint)
    → All (λ e. known keys (dedupe ids keys es).0 e ≡ true) es
unfolding keep drop_one has_key keys_of
dedupe-known ids keys [] = tt
dedupe-known ids keys (e ∷ es) = elim (Bool-cases (is_update ids e)) [
  | inl u ↦ onward (dedupe_of_update ids keys e es u) (
    ground (arith, same_refl (content_key e)),
    All-map es (λ x h. ground arith) (dedupe-known ids keys es),
  )
  | inr u ↦ elim (Bool-cases (has_key (content_key e) keys)) [
    | inl h ↦
        onward (dedupe_of_duplicate ids keys e es u h) (ground arith, dedupe-known ids keys es)
    | inr h ↦ onward (dedupe_of_new ids keys e es u h) (
      ground (arith, same_refl (content_key e)),
      All-map es (λ x k. ground arith) (dedupe-known ids (content_key e ∷ keys) es),
    )
  ]
]
  where
    onward :
        {r : List Endpoint × ℕ}
        → r ≡ dedupe ids keys (e ∷ es)
        → All (λ x. known keys r.0 x ≡ true) (e ∷ es)
        → All (λ x. known keys (dedupe ids keys (e ∷ es)).0 x ≡ true) (e ∷ es)
    onward q a = subst (λ r. All (λ x. known keys r.0 x ≡ true) (e ∷ es)) q a

has_key-append :
    (k : List ℕ) (as_ bs : List Endpoint)
    → has_key k (keys_of (as_ ++ bs)) ≡ (has_key k (keys_of as_) || has_key k (keys_of bs))
unfolding has_key keys_of
has_key-append k [] bs = refl
has_key-append k (a ∷ as_) bs = ground (arith, has_key-append k as_ bs)

-- Only updates are kept of endpoints whose keys are known.
dedupe_updates :
    (ids : List (String × List ℕ)) (keys : List (List ℕ)) (es : List Endpoint)
    → All (λ e. has_key (content_key e) keys ≡ true) es
    → All (λ e. is_update ids e ≡ true) (dedupe ids keys es).0
unfolding dedupe keep drop_one
dedupe_updates ids keys [] h = tt
dedupe_updates ids keys (e ∷ es) h = elim (Bool-cases (is_update ids e)) [
  | inl u ↦ rw (u, dedupe) (u, dedupe_updates ids keys es h.1)
  | inr u ↦ rw (u, h.0, dedupe) (dedupe_updates ids keys es h.1)
]

-- Every incoming endpoint has the key of an existing endpoint or of one that is kept: what is
-- dropped is a duplicate.
pub dedupe_new-known :
    (existing incoming : List Endpoint)
    → All (λ e. known (keys_of existing) (dedupe_new existing incoming).0 e ≡ true) incoming
unfolding dedupe_new
dedupe_new-known existing incoming = dedupe-known (ids_of existing []) (keys_of existing) incoming

-- Once the kept endpoints were added, the same import keeps only endpoints that write over one of
-- the same id and the same content: it adds nothing.
pub reimport_updates :
    (existing incoming : List Endpoint)
    → All
        (λ e. is_update (ids_of (existing ++ (dedupe_new existing incoming).0) []) e ≡ true)
        (dedupe_new (existing ++ (dedupe_new existing incoming).0) incoming).0
unfolding dedupe_new
reimport_updates existing incoming =
    let kept = (dedupe (ids_of existing []) (keys_of existing) incoming).0 in
    dedupe_updates (ids_of (existing ++ kept) []) (keys_of (existing ++ kept)) incoming (
      All-map incoming (λ e h. has_key-append (content_key e) existing kept ∙ h)
        (dedupe-known (ids_of existing []) (keys_of existing) incoming))
