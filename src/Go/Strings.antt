-- ===== src/Go/Strings.antt =====
-- Go's `strings` and `unicode` over the code points of a text. Case is mapped for ASCII, Latin-1, Greek
-- and Cyrillic, and for the two characters outside of them whose lower case is ASCII; `unicode` has
-- further scripts, which keep their case here.
use Prim.Native.Char.{code}
use velinx.Base.{
  ℕ, ◌+◌, ◌-◌, String, Bool, true, false, List, [], ◌∷◌, ◌&&◌, ◌||◌, not, map, leb, ltb, ◌==◌,
  if◌then◌else◌, Option, none, some,
}

-- The code points of a text. `String` has its own `[]` and `∷`.
abbrev pub codes : String → List ℕ
codes String.[] = []
codes (String.◌∷◌ c s) = code c ∷ codes s

abbrev pub between : ℕ → ℕ → ℕ → Bool
between lo hi c = leb lo c && leb c hi

-- `unicode.IsSpace`
unfoldable pub is_space : ℕ → Bool
is_space c =
    between 9 13 c
    || c == 32
    || c == 0x85
    || c == 0xa0
    || c == 0x1680
    || between 0x2000 0x200a c
    || c == 0x2028
    || c == 0x2029
    || c == 0x202f
    || c == 0x205f
    || c == 0x3000

unfoldable pub is_empty {ℓ} : {A : Type ℓ} → List A → Bool
is_empty [] = true
is_empty (_ ∷ _) = false

unfoldable pub trim_left : List ℕ → List ℕ
trim_left [] = []
trim_left (c ∷ s) = if is_space c then trim_left s else c ∷ s

unfoldable pub trim_right : List ℕ → List ℕ
trim_right [] = []
trim_right (c ∷ s) = let r = trim_right s in if is_space c && is_empty r then [] else c ∷ r

-- `strings.TrimSpace`
unfoldable pub trim_space : List ℕ → List ℕ
unfolding trim_left trim_right is_space is_empty
trim_space s = trim_right (trim_left s)

-- `unicode.ToLower` and `unicode.ToUpper`
unfoldable pub to_lower_code : ℕ → ℕ
to_lower_code c =
    if between 65 90 c
      || (between 0xc0 0xde c && not (c == 0xd7))
      || (between 0x391 0x3a9 c && not (c == 0x3a2))
      || between 0x410 0x42f c
    then c + 32
    else if between 0x400 0x40f c
    then c + 80
    else if c == 0x130
    then 105
    else if c == 0x212a
    then 107
    else c

unfoldable pub to_upper_code : ℕ → ℕ
to_upper_code c =
    if between 97 122 c
      || (between 0xe0 0xfe c && not (c == 0xf7))
      || (between 0x3b1 0x3c9 c && not (c == 0x3c2))
      || between 0x430 0x44f c
    then c - 32
    else if between 0x450 0x45f c
    then c - 80
    else if c == 0x131
    then 73
    else if c == 0x17f
    then 83
    else c

-- `strings.ToLower`, `strings.ToUpper`
unfoldable pub to_lower : List ℕ → List ℕ
unfolding to_lower_code
to_lower s = map to_lower_code s

unfoldable pub to_upper : List ℕ → List ℕ
unfolding to_upper_code
to_upper s = map to_upper_code s

unfoldable pub same : List ℕ → List ℕ → Bool
same [] [] = true
same [] (_ ∷ _) = false
same (_ ∷ _) [] = false
same (a ∷ s) (b ∷ t) = a == b && same s t

-- The rest of `s` after the prefix `p`, if it has it: `strings.HasPrefix` with `TrimPrefix`.
unfoldable pub after_prefix : List ℕ → List ℕ → Option (List ℕ)
after_prefix [] s = some s
after_prefix (p ∷ ps) [] = none
after_prefix (p ∷ ps) (c ∷ s) = let r = after_prefix ps s in if p == c then r else none

unfoldable pub trim_prefix : List ℕ → List ℕ → List ℕ
unfolding after_prefix
trim_prefix p s = elim (after_prefix p s) [ none ↦ s | some r ↦ r ]

abbrev is_some_text : Option (List ℕ) → Bool
is_some_text none = false
is_some_text (some _) = true

unfoldable pub has_prefix : List ℕ → List ℕ → Bool
unfolding after_prefix
has_prefix p s = is_some_text (after_prefix p s)

-- `strings.Contains`
unfoldable pub contains : List ℕ → List ℕ → Bool
unfolding has_prefix
contains p [] = has_prefix p []
contains p (c ∷ s) = has_prefix p (c ∷ s) || contains p s

unfoldable pub cons_head : ℕ → List (List ℕ) → List (List ℕ)
cons_head c [] = (c ∷ []) ∷ []
cons_head c (w ∷ ws) = (c ∷ w) ∷ ws

-- `strings.Split(s, sep)` for a separator of one character.
unfoldable pub split : ℕ → List ℕ → List (List ℕ)
unfolding cons_head
split sep [] = [] ∷ []
split sep (c ∷ s) = let r = split sep s in if c == sep then [] ∷ r else cons_head c r

-- `len(s)`: the bytes of the UTF-8 encoding.
unfoldable pub byte_len : List ℕ → ℕ
byte_len [] = 0
byte_len (c ∷ s) =
    (if ltb c 0x80 then 1 else if ltb c 0x800 then 2 else if ltb c 0x10000 then 3 else 4)
    + byte_len s

unfoldable pub all_codes : (ℕ → Bool) → List ℕ → Bool
all_codes p [] = true
all_codes p (c ∷ s) = p c && all_codes p s

abbrev pub is_digit : ℕ → Bool
is_digit c = between b'0' b'9' c

abbrev pub is_hex : ℕ → Bool
is_hex c = is_digit c || between b'a' b'f' c || between b'A' b'F' c
