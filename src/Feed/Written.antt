-- ===== src/Feed/Written.antt =====
-- internal/cidrfeed/cidrfeed.go: what `ParseList` reads of a feed that was written line by line.
use velinx.Base.{
  ◌≡◌, ℕ, zero, suc, ◌<◌, ◌≤◌, ◌^◌, Bool, true, List, [], ◌∷◌, ◌++◌, not, ◌==◌, if◌then◌else◌,
}
use velinx.Go.Strings.{all_codes}
use velinx.Go.Same.{has_text}
use velinx.Pbr.Prefixes.{Prefix}
use velinx.Pbr.Classify.{print}
use velinx.Feed.{Feed}
use velinx.Feed.Words.{network_of}

-- What may follow a network on its line.
pub data Tail : Type 0 where
  ends : Tail
  comment : List ℕ → Tail
  label : List ℕ → Tail

-- A line: a network of IPv4 after some spaces, a comment after some spaces, or spaces alone.
pub data Line : Type 0 where
  network : ℕ → Prefix → Tail → Line
  remark : ℕ → List ℕ → Line
  blank : ℕ → Line

abbrev pub pad : ℕ → List ℕ → List ℕ
pad zero s = s
pad (suc n) s = b' ' ∷ pad n s

abbrev pub tail_text : Tail → List ℕ
tail_text ends = []
tail_text (comment s) = b'#' ∷ s
tail_text (label s) = b' ' ∷ s

unfoldable pub line_text : Line → List ℕ
line_text (network n p t) = pad n (print 32 p ++ tail_text t)
line_text (remark n s) = pad n (b'#' ∷ s)
line_text (blank n) = pad n []

unfoldable pub written : List Line → List ℕ
unfolding line_text
written [] = []
written (l ∷ ls) = line_text l ++ b'\n' ∷ written ls

abbrev pub is_in_line : ℕ → Bool
is_in_line c = not (c == b'\n')

abbrev pub IsInLine : List ℕ → Type 0
IsInLine s = all_codes is_in_line s ≡ true

abbrev pub TailFits : Tail → Type 0
TailFits ends = Unit
TailFits (comment s) = IsInLine s
TailFits (label s) = IsInLine s

-- The address and the length are those of IPv4, and a line is one line.
abbrev pub LineFits : Line → Type 0
LineFits (network n p t) = (p.addr < 2 ^ 32) × (p.bits ≤ 32) × TailFits t
LineFits (remark n s) = IsInLine s
LineFits (blank n) = Unit

-- The networks of the lines, each where it comes first, after those that were seen.
unfoldable pub first_seen : List Line → List (List ℕ) → List (List ℕ)
first_seen [] seen = seen
first_seen (network n p t ∷ ls) seen =
    let s = print 32 (network_of p) in
    let seen' = if has_text s seen then seen else seen ++ (s ∷ []) in first_seen ls seen'
first_seen (remark n s ∷ ls) seen = first_seen ls seen
first_seen (blank n ∷ ls) seen = first_seen ls seen
