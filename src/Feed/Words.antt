-- ===== src/Feed/Words.antt =====
-- internal/cidrfeed/cidrfeed.go: what the steps of `ParseList` on one line do to a printed network.
use velinx.Base.{
  ◌≡◌, refl, ap, ◌∙◌, ℕ, ◌<◌, ◌≤◌, ◌^◌, ◌-◌, ◌*◌, ◌/◌, arith, Bool, true, false, List, [], ◌∷◌,
  ◌++◌, ◌||◌, ◌==◌, some, append_nil,
}
use velinx.Go.Strings.{
  codes, is_space, is_empty, trim_left, trim_right, trim_space, all_codes, is_digit,
  contains as contains_text, has_prefix, after_prefix,
}
use velinx.Go.Netip.{print_prefix, print_v4, parse_prefix}
use velinx.Go.Netip.RoundTrip.{
  v4_value, plain, plain-decimal, plain-print_v4, parse_prefix-print_prefix,
}
use velinx.Go.Numbers.{decimal}
use velinx.Pbr.Prefixes.{Prefix, masked, net_of}
use velinx.Pbr.Classify.{print}
use velinx.Feed.{before_comment, first_field, text_of_line, normalize, norm_prefix}

-- The characters of a printed network of IPv4.
unfoldable pub is_word : ℕ → Bool
is_word c = is_digit c || c == b'.' || c == b'/'

abbrev pub Word : List ℕ → Type 0
Word s = all_codes is_word s ≡ true

word-space : (c : ℕ) → is_word c ≡ true → is_space c ≡ false
unfolding is_word is_space
word-space c h = ground arith

word-comment : (c : ℕ) → is_word c ≡ true → (c == b'#' || c == b';') ≡ false
unfolding is_word
word-comment c h = ground arith

pub word-newline : (c : ℕ) → is_word c ≡ true → (c == b'\n') ≡ false
unfolding is_word
word-newline c h = ground arith

head_of : (c : ℕ) (s : List ℕ) → Word (c ∷ s) → is_word c ≡ true
unfolding all_codes
head_of c s h = ground arith

rest_of : (c : ℕ) (s : List ℕ) → Word (c ∷ s) → Word s
unfolding all_codes
rest_of c s h = ground arith

before_comment-Word : (s t : List ℕ) → Word s → before_comment (s ++ t) ≡ s ++ before_comment t
unfolding before_comment
before_comment-Word [] t h = refl
before_comment-Word (c ∷ s) t h =
    rw (word-comment c (head_of c s h), before_comment-Word s t (rest_of c s h)) refl

trim_right-Word : (s t : List ℕ) → Word s → trim_right (s ++ t) ≡ s ++ trim_right t
unfolding trim_right
trim_right-Word [] t h = refl
trim_right-Word (c ∷ s) t h =
    rw (word-space c (head_of c s h), trim_right-Word s t (rest_of c s h)) refl

first_field-Word : (s t : List ℕ) → Word s → first_field (s ++ t) ≡ s ++ first_field t
unfolding first_field
first_field-Word [] t h = refl
first_field-Word (c ∷ s) t h =
    rw (word-space c (head_of c s h), first_field-Word s t (rest_of c s h)) refl

trim_left-Word : (s t : List ℕ) → Word s → is_empty s ≡ false → trim_left (s ++ t) ≡ s ++ t
unfolding trim_left is_empty
trim_left-Word [] t h n = absurd cc
trim_left-Word (c ∷ s) t h n = rw (word-space c (head_of c s h)) refl

nonempty-append : (s t : List ℕ) → is_empty s ≡ false → is_empty (s ++ t) ≡ false
unfolding is_empty
nonempty-append [] t n = absurd cc
nonempty-append (c ∷ s) t n = refl

append-Word : (s t : List ℕ) → Word s → Word t → Word (s ++ t)
unfolding all_codes
append-Word [] t h k = k
append-Word (c ∷ s) t h k = let r = append-Word s t (ground arith) k in ground arith

plain-Word : (s : List ℕ) → plain s ≡ true → Word s
unfolding plain all_codes is_word
plain-Word [] h = refl
plain-Word (c ∷ s) h = let r = plain-Word s (ground arith) in ground arith

slash-nonempty : (s t : List ℕ) → is_empty (s ++ b'/' ∷ t) ≡ false
unfolding is_empty
slash-nonempty [] t = refl
slash-nonempty (c ∷ s) t = refl

contains-slash : (s t : List ℕ) → contains_text (codes "/") (s ++ b'/' ∷ t) ≡ true
unfolding contains_text has_prefix after_prefix
contains-slash [] t = refl
contains-slash (c ∷ s) t = let r = contains-slash s t in ground arith

pub print-Word : (p : Prefix) → p.addr < 2 ^ 32 → p.bits ≤ 32 → Word (print 32 p)
unfolding print print_prefix all_codes is_word
print-Word p a b =
    append-Word (print_v4 p.addr) (b'/' ∷ decimal p.bits) (plain-Word _ (plain-print_v4 p.addr a))
      (let r = plain-Word (decimal p.bits) (plain-decimal p.bits (omega arith)) in ground arith)

pub print-nonempty : (p : Prefix) → is_empty (print 32 p) ≡ false
unfolding print print_prefix
print-nonempty p = slash-nonempty (print_v4 p.addr) (decimal p.bits)

print-slash : (p : Prefix) → contains_text (codes "/") (print 32 p) ≡ true
unfolding print print_prefix
print-slash p = contains-slash (print_v4 p.addr) (decimal p.bits)

normalize-slash :
    (s : List ℕ) → contains_text (codes "/") s ≡ true → normalize s ≡ norm_prefix (parse_prefix s)
unfolding normalize
normalize-slash s h = rw h refl

parse-print :
    (p : Prefix)
    → p.addr < 2 ^ 32
    → p.bits ≤ 32
    → parse_prefix (print 32 p) ≡ some (v4_value p.addr, p.bits)
unfolding print
parse-print p a b = parse_prefix-print_prefix p.addr p.bits a b

-- The network of a prefix: its address without what follows the first `bits` bits.
abbrev pub network_of : Prefix → Prefix
network_of p = record p { addr = p.addr / 2 ^ (32 - p.bits) * 2 ^ (32 - p.bits) }

norm_prefix-value :
    (p : Prefix) → norm_prefix (some (v4_value p.addr, p.bits)) ≡ some (print 32 (network_of p))
unfolding norm_prefix masked net_of
norm_prefix-value p = refl

pub normalize-print :
    (p : Prefix)
    → p.addr < 2 ^ 32
    → p.bits ≤ 32
    → normalize (print 32 p) ≡ some (print 32 (network_of p))
normalize-print p a b =
    normalize-slash (print 32 p) (print-slash p)
    ∙ ap norm_prefix (parse-print p a b)
    ∙ norm_prefix-value p

-- What follows a network on its line is nothing, or something after a space, once the comment is off.
pub line-first_field :
    (s u : List ℕ)
    → Word s
    → is_empty s ≡ false
    → first_field (trim_right (before_comment u)) ≡ []
    → (is_empty (text_of_line (s ++ u)) ≡ false) × (first_field (text_of_line (s ++ u)) ≡ s)
unfolding text_of_line trim_space
line-first_field s u h n f =
    let e : text_of_line (s ++ u) ≡ s ++ trim_right (before_comment u) =
      ap trim_space (before_comment-Word s u h)
      ∙ ap trim_right (trim_left-Word s (before_comment u) h n)
      ∙ trim_right-Word s (before_comment u) h in
    (
      rw e (nonempty-append s _ n),
      rw e (first_field-Word s _ h ∙ ap (λ t. s ++ t) f ∙ append_nil s),
    )
