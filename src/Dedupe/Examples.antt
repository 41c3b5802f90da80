-- ===== src/Dedupe/Examples.antt =====
-- internal/importer/dedupe.go: an import over one endpoint.
use velinx.Base.{◌≡◌, refl, true, List, [], ◌∷◌, All}
use velinx.Model.{Endpoint}
use velinx.Model.Validate.Examples.{tunnel}
use velinx.Go.Strings.{to_lower, trim_space}
use velinx.Dedupe.{keys_of, dedupe_new}
use velinx.Dedupe.Keys.{known, dedupe_new-known}

-- The same connection under another id, and another connection.
abbrev again : Endpoint
again = record tunnel { id = "e7"; name = "again" }

abbrev elsewhere : Endpoint
elsewhere = record tunnel { id = "e8"; server = "other.example.org" }

abbrev old : List Endpoint
old = tunnel ∷ []

abbrev incoming : List Endpoint
incoming = tunnel ∷ again ∷ elsewhere ∷ elsewhere ∷ []

dedupe_incoming : dedupe_new old incoming ≡ (tunnel ∷ elsewhere ∷ [], 2)
unfolding dedupe_new to_lower trim_space
dedupe_incoming = refl

dedupe_new-known_example :
    All (λ e. known (keys_of old) (dedupe_new old incoming).0 e ≡ true) incoming
dedupe_new-known_example = dedupe_new-known old incoming
