-- ===== src/Go/Mac.antt =====
-- `net.ParseMAC`: whether a text is a hardware address of 6, 8 or 20 bytes, in pairs of hexadecimal
-- digits between colons or dashes, or in groups of four between dots.
use velinx.Base.{ℕ, Bool, false, List, [], ◌∷◌, ◌&&◌, ◌||◌, ◌==◌, if◌then◌else◌, length}
use velinx.Go.Strings.{is_hex}

-- Pairs between `sep`, to the end.
pairs : ℕ → List ℕ → Bool
pairs sep (a ∷ b ∷ []) = is_hex a && is_hex b
pairs sep (a ∷ b ∷ c ∷ s) = is_hex a && is_hex b && c == sep && pairs sep s
pairs sep _ = false

quads : ℕ → List ℕ → Bool
quads sep (a ∷ b ∷ c ∷ d ∷ []) = is_hex a && is_hex b && is_hex c && is_hex d
quads sep (a ∷ b ∷ c ∷ d ∷ e ∷ s) =
    is_hex a && is_hex b && is_hex c && is_hex d && e == sep && quads sep s
quads sep _ = false

by_separator : ℕ → ℕ → List ℕ → Bool
unfolding pairs quads
by_separator third fifth s =
    let n = length s in
    if third == b':' || third == b'-'
    then (n == 17 || n == 23 || n == 59) && pairs third s
    else if fifth == b'.'
    then (n == 14 || n == 19 || n == 49) && quads fifth s
    else false

unfoldable pub is_mac : List ℕ → Bool
unfolding by_separator
is_mac (a ∷ b ∷ c ∷ d ∷ e ∷ s) = by_separator c e (a ∷ b ∷ c ∷ d ∷ e ∷ s)
is_mac _ = false
