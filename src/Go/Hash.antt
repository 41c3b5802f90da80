-- ===== src/Go/Hash.antt =====
-- `hash/fnv` over the UTF-8 bytes of a text.
use Prim.Native.Nat.{bit_xor}
use velinx.Base.{ℕ, ◌+◌, ◌*◌, ◌/◌, ◌%◌, ◌^◌, List, [], ◌∷◌, ◌++◌, ltb, if◌then◌else◌}

-- A byte after the first of a character holds 6 bits of it.
tail_byte : ℕ → ℕ
tail_byte c = 0x80 + c % 64

utf8_of : ℕ → List ℕ
unfolding tail_byte
utf8_of c =
    if ltb c 0x80
    then c ∷ []
    else if ltb c 0x800
    then (0xc0 + c / 64) ∷ tail_byte c ∷ []
    else if ltb c 0x10000
    then (0xe0 + c / 4096) ∷ tail_byte (c / 64) ∷ tail_byte c ∷ []
    else (0xf0 + c / 262144) ∷ tail_byte (c / 4096) ∷ tail_byte (c / 64) ∷ tail_byte c ∷ []

unfoldable pub utf8 : List ℕ → List ℕ
unfolding utf8_of
utf8 [] = []
utf8 (c ∷ s) = utf8_of c ++ utf8 s

fnv_from : ℕ → List ℕ → ℕ
fnv_from h [] = h
fnv_from h (b ∷ bs) = fnv_from (bit_xor h b * 16777619 % 2 ^ 32) bs

-- `New32a`, `Write` and `Sum32`
unfoldable pub fnv32a : List ℕ → ℕ
unfolding fnv_from
fnv32a bs = fnv_from 2166136261 bs
