-- ===== src/Dedupe/Count.antt =====
-- internal/importer/dedupe.go: what a bulk import keeps, and how much it drops.
use velinx.Base.{
  ℕ, ◌+◌, ◌≡◌, refl, ◌⊎◌, inl, inr, String, true, false, List, [], ◌∷◌, arith, length, Bool-cases,
}
use velinx.Model.{Endpoint}
use velinx.Dedupe.{
  content_key, ids_of, keys_of, has_key, is_update, keep, drop_one, dedupe, dedupe_new,
}

dedupe_count :
    (ids : List (String × List ℕ)) (keys : List (List ℕ)) (es : List Endpoint)
    → length (dedupe ids keys es).0 + (dedupe ids keys es).1 ≡ length es
unfolding dedupe keep drop_one
dedupe_count ids keys [] = refl
dedupe_count ids keys (e ∷ es) =
    ground (arith, dedupe_count ids keys es, dedupe_count ids (content_key e ∷ keys) es)

-- The kept endpoints, each an update or of a key that neither `keys` nor an earlier kept one has.
abbrev pub Fresh : List (String × List ℕ) → List (List ℕ) → List Endpoint → Type 0
Fresh ids keys [] = Unit
Fresh ids keys (e ∷ es) =
    ((is_update ids e ≡ true) × Fresh ids keys es)
    ⊎ ((has_key (content_key e) keys ≡ false) × Fresh ids (content_key e ∷ keys) es)

dedupe-Fresh :
    (ids : List (String × List ℕ)) (keys : List (List ℕ)) (es : List Endpoint)
    → Fresh ids keys (dedupe ids keys es).0
unfolding dedupe keep drop_one
dedupe-Fresh ids keys [] = tt
dedupe-Fresh ids keys (e ∷ es) = elim (Bool-cases (is_update ids e)) [
  | inl u ↦ rw (u, dedupe) (inl (u, dedupe-Fresh ids keys es))
  | inr u ↦ elim (Bool-cases (has_key (content_key e) keys)) [
    | inl h ↦ rw (u, h, dedupe) (dedupe-Fresh ids keys es)
    | inr h ↦ rw (u, h, dedupe) (inr (h, dedupe-Fresh ids (content_key e ∷ keys) es))
  ]
]

-- The endpoints that an import keeps and the number of those that it drops add up to the incoming
-- ones, and each kept endpoint writes over an existing one of the same id and content, or has a
-- content key that no existing endpoint and no earlier new one has.
pub dedupe_new_kept :
    (existing incoming : List Endpoint)
    → (length (dedupe_new existing incoming).0 + (dedupe_new existing incoming).1 ≡ length incoming)
      × Fresh (ids_of existing []) (keys_of existing) (dedupe_new existing incoming).0
unfolding dedupe_new
dedupe_new_kept existing incoming = (
  dedupe_count (ids_of existing []) (keys_of existing) incoming,
  dedupe-Fresh (ids_of existing []) (keys_of existing) incoming,
)
