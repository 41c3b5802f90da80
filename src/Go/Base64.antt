-- ===== src/Go/Base64.antt =====
-- `encoding/base64`: `DecodeString` of the four encodings, as the length of what it decodes; `none` is a
-- `CorruptInputError`. Line breaks are skipped; a padded encoding wants its last quantum complete.
use velinx.Base.{
  ℕ, ◌+◌, Bool, true, false, List, [], ◌∷◌, ◌&&◌, ◌||◌, not, ◌==◌, if◌then◌else◌, Option, none,
  some,
}
use velinx.Go.Strings.{between, is_empty}

pub record Encoding : Type 0 where
  pub url : Bool
  pub padded : Bool

in_alphabet : Encoding → ℕ → Bool
in_alphabet e c =
    between b'A' b'Z' c
    || between b'a' b'z' c
    || between b'0' b'9' c
    || (if e.url then c == b'-' || c == b'_' else c == b'+' || c == b'/')

without_breaks : List ℕ → List ℕ
without_breaks [] = []
without_breaks (c ∷ s) = let r = without_breaks s in if c == 10 || c == 13 then r else c ∷ r

more : ℕ → Option ℕ → Option ℕ
more n none = none
more n (some m) = some (n + m)

when : Bool → ℕ → Option ℕ
when true n = some n
when false n = none

-- Quantum after quantum of four characters.
quanta : Encoding → List ℕ → Option ℕ
unfolding in_alphabet more when is_empty
quanta e [] = some 0
quanta e (a ∷ []) = none
quanta e (a ∷ b ∷ []) = when (not e.padded && in_alphabet e a && in_alphabet e b) 1
quanta e (a ∷ b ∷ c ∷ []) =
    when (not e.padded && in_alphabet e a && in_alphabet e b && in_alphabet e c) 2
quanta e (a ∷ b ∷ c ∷ d ∷ s) =
    let rest = quanta e s in
    if not (in_alphabet e a && in_alphabet e b)
    then none
    else if e.padded && c == b'=' && d == b'='
    then when (is_empty s) 1
    else if not (in_alphabet e c)
    then none
    else if e.padded && d == b'='
    then when (is_empty s) 2
    else if in_alphabet e d
    then more 3 rest
    else none

unfoldable pub decoded_len : Encoding → List ℕ → Option ℕ
unfolding quanta without_breaks
decoded_len e s = quanta e (without_breaks s)
