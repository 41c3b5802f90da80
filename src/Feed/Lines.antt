-- ===== src/Feed/Lines.antt =====
-- internal/cidrfeed/cidrfeed.go: what `ParseList` keeps of the lines of a feed.
use velinx.Base.{
  ◌≡◌, refl, sym, inl, inr, ℕ, ◌+◌, arith, Bool, true, false, List, [], ◌∷◌, ◌++◌, ◌||◌,
  if◌then◌else◌, Option, none, some, All, or_false, or_absorb, Bool-cases,
}
use velinx.Go.Strings.{is_empty, split, same}
use velinx.Go.Same.{has_text, eq_of_same}
use velinx.Go.Sort.{Pairwise, Pairwise-snoc}
use velinx.Feed.{
  Feed, no_feed, normalize, first_field, text_of_line, add_new, take_norm, take_line, take_lines,
  parse_list,
}

-- What a line stands for: nothing, or the network that its first field names, if it names one.
unfoldable pub line_norm : List ℕ → Option (Option (List ℕ))
unfolding text_of_line first_field normalize is_empty
line_norm raw =
    let line = text_of_line raw in
    if is_empty line then none else some (normalize (first_field line))

abbrev pub is_network : List ℕ → Option (Option (List ℕ)) → Bool
is_network s none = false
is_network s (some none) = false
is_network s (some (some t)) = same t s

abbrev pub bad_lines : Option (Option (List ℕ)) → ℕ
bad_lines none = 0
bad_lines (some none) = 1
bad_lines (some (some t)) = 0

unfoldable pub has_network : List ℕ → List (List ℕ) → Bool
has_network s [] = false
has_network s (l ∷ ls) = is_network s (line_norm l) || has_network s ls

unfoldable pub bad_count : List (List ℕ) → ℕ
bad_count [] = 0
bad_count (l ∷ ls) = bad_lines (line_norm l) + bad_count ls

abbrev pub Apart : List ℕ → List ℕ → Type 0
Apart s t = same s t ≡ false

has_text-snoc :
    (s t : List ℕ) (seen : List (List ℕ))
    → has_text s (seen ++ (t ∷ [])) ≡ (has_text s seen || same t s)
unfolding has_text
has_text-snoc s t [] = sym (or_false (same t s))
has_text-snoc s t (u ∷ us) = rw (has_text-snoc s t us) (ground arith)

seen_too :
    (s t : List ℕ) (seen : List (List ℕ))
    → has_text t seen ≡ true
    → same t s ≡ true
    → has_text s seen ≡ true
seen_too s t seen h e = let q = eq_of_same t s e in rw (sym q) h

pub add_new-has :
    (s t : List ℕ) (seen : List (List ℕ))
    → has_text s (add_new t seen) ≡ (has_text s seen || same t s)
unfolding add_new
add_new-has s t seen = elim (Bool-cases (has_text t seen)) [
  | inl e ↦ rw e (or_absorb (has_text s seen) (same t s) (seen_too s t seen e))
  | inr e ↦ rw e (has_text-snoc s t seen)
]

unseen_differ :
    (t : List ℕ) (seen : List (List ℕ)) → has_text t seen ≡ false → All (λ u. Apart u t) seen
unfolding has_text
unseen_differ t [] h = tt
unseen_differ t (u ∷ us) h = (ground arith, unseen_differ t us (ground arith))

add_new-Apart :
    (t : List ℕ) (seen : List (List ℕ)) → Pairwise Apart seen → Pairwise Apart (add_new t seen)
unfolding add_new
add_new-Apart t seen p = elim (Bool-cases (has_text t seen)) [
  | inl e ↦ rw e p
  | inr e ↦ rw e (Pairwise-snoc Apart seen t p (unseen_differ t seen e))
]

-- What taking lines comes to: `new` tells which networks they name, `bad` how many name none.
pub record Taken (f : Feed) (new : List ℕ → Bool) (bad : ℕ) (g : Feed) : Type 0 where
  pub distinct : Pairwise Apart g.cidrs
  pub named : (s : List ℕ) → has_text s g.cidrs ≡ (has_text s f.cidrs || new s)
  pub counted : g.skipped ≡ f.skipped + bad

line_or_blank :
    (blank : Bool) (o : Option (List ℕ)) (f : Feed)
    → Pairwise Apart f.cidrs
    → let n = if blank then none else some o in
      Taken f (λ s. is_network s n) (bad_lines n) (if blank then f else take_norm o f)
unfolding take_norm
line_or_blank true o f p = record {
  distinct = p;
  named = λ s. or_false (has_text s f.cidrs);
  counted = omega arith;
}
line_or_blank false none f p = record {
  distinct = p;
  named = λ s. or_false (has_text s f.cidrs);
  counted = refl;
}
line_or_blank false (some t) f p = record {
  distinct = add_new-Apart t f.cidrs p;
  named = λ s. add_new-has s t f.cidrs;
  counted = omega arith;
}

take_line-Taken :
    (l : List ℕ) (f : Feed)
    → Pairwise Apart f.cidrs
    → Taken f (λ s. is_network s (line_norm l)) (bad_lines (line_norm l)) (take_line l f)
unfolding take_line line_norm
take_line-Taken l f p =
    line_or_blank (is_empty (text_of_line l)) (normalize (first_field (text_of_line l))) f p

or_chain : (k m n r s : Bool) → m ≡ (k || n) → s ≡ (m || r) → s ≡ (k || (n || r))
or_chain true m n r s p q = rw (q, p) refl
or_chain false m n r s p q = rw (q, p) refl

take_lines-Taken :
    (ls : List (List ℕ)) (f : Feed)
    → Pairwise Apart f.cidrs
    → Taken f (λ s. has_network s ls) (bad_count ls) (take_lines ls f)
unfolding take_lines has_network bad_count
take_lines-Taken [] f p = record {
  distinct = p;
  named = λ s. or_false (has_text s f.cidrs);
  counted = omega arith;
}
take_lines-Taken (l ∷ ls) f p =
    let one = take_line-Taken l f p in
    let rest = take_lines-Taken ls (take_line l f) one.distinct in
    record {
      distinct = rest.distinct;
      named = λ s.
          or_chain (has_text s f.cidrs) _ (is_network s (line_norm l)) _ _ (one.named s)
            (rest.named s);
      counted = let a = one.counted in let b = rest.counted in omega arith;
    }

-- What is read from a feed has no network twice, has exactly the networks that `normalize` makes of the
-- first fields of its lines, and counts exactly the lines with a first field of which it makes none.
pub parse_list-Lines :
    (text : List ℕ)
    → Pairwise Apart (parse_list text).cidrs
      × ((s : List ℕ) → has_text s (parse_list text).cidrs ≡ has_network s (split b'\n' text))
      × ((parse_list text).skipped ≡ bad_count (split b'\n' text))
unfolding parse_list has_text
parse_list-Lines text =
    let t = take_lines-Taken (split b'\n' text) no_feed tt in
    (t.distinct, t.named, let c = t.counted in omega arith)
