-- ===== src/Go/Netip/RoundTrip.antt =====
-- `netip`: an IPv4 prefix that is printed is read back.
use velinx.Base.{
  ℕ, ◌+◌, ◌*◌, ◌/◌, ◌%◌, ◌^◌, ◌≤◌, ◌<◌, ◌≡◌, refl, ap, ◌∙◌, arith, Bool, true, false, List, [], ◌∷◌,
  ◌++◌, ◌&&◌, ◌||◌, ◌==◌, some,
}
use velinx.Go.Strings.{is_digit, is_empty}
use velinx.Go.Numbers.{decimal, Short, one_digit, two_digits, three_digits, decimal-Short}
use velinx.Go.Netip.{print_v4, print_prefix, parse_prefix, parts, sized, prefix_bits}
use velinx.Go.Ip.{v4_from, parse_v4, cut, family, v4_addr, Addr, parse_addr, number}

-- A field that a dot follows, and the last one.
field_read :
    (field acc n : ℕ) (s ds : List ℕ)
    → n < 256
    → field < 3
    → is_empty s ≡ false
    → Short n ds
    → v4_from field acc 0 0 (ds ++ b'.' ∷ s) ≡ v4_from (field + 1) (acc * 256 + n) 0 0 s
unfolding v4_from
field_read field acc n s _ h f e (one_digit a) = ground arith
field_read field acc n s _ h f e (two_digits a b) = ground arith
field_read field acc n s _ h f e (three_digits a b) = ground arith

last_read :
    (acc n : ℕ) (ds : List ℕ) → n < 256 → Short n ds → v4_from 3 acc 0 0 ds ≡ some (acc * 256 + n)
unfolding v4_from
last_read acc n _ h (one_digit a) = ground arith
last_read acc n _ h (two_digits a b) = ground arith
last_read acc n _ h (three_digits a b) = ground arith

Short-nonempty : (n : ℕ) (s ds : List ℕ) → Short n ds → is_empty (ds ++ s) ≡ false
unfolding is_empty
Short-nonempty n s _ (one_digit a) = refl
Short-nonempty n s _ (two_digits a b) = refl
Short-nonempty n s _ (three_digits a b) = refl

Short-nonempty_alone : (n : ℕ) (ds : List ℕ) → Short n ds → is_empty ds ≡ false
unfolding is_empty
Short-nonempty_alone n _ (one_digit a) = refl
Short-nonempty_alone n _ (two_digits a b) = refl
Short-nonempty_alone n _ (three_digits a b) = refl

parse_v4-print_v4 : (a : ℕ) → a < 2 ^ 32 → parse_v4 (print_v4 a) ≡ some a
unfolding parse_v4 print_v4
parse_v4-print_v4 a h =
    let s0 = decimal-Short (a / 16777216) (omega arith) in
    let s1 = decimal-Short (a / 65536 % 256) (omega arith) in
    let s2 = decimal-Short (a / 256 % 256) (omega arith) in
    let s3 = decimal-Short (a % 256) (omega arith) in
    let t3 = decimal (a % 256) in
    let t2 = decimal (a / 256 % 256) ++ b'.' ∷ t3 in
    let t1 = decimal (a / 65536 % 256) ++ b'.' ∷ t2 in
    let a0 = 0 * 256 + a / 16777216 in
    let a1 = a0 * 256 + a / 65536 % 256 in
    let a2 = a1 * 256 + a / 256 % 256 in
    let e1 = Short-nonempty (a / 65536 % 256) (b'.' ∷ t2) (decimal (a / 65536 % 256)) s1 in
    let e2 = Short-nonempty (a / 256 % 256) (b'.' ∷ t3) (decimal (a / 256 % 256)) s2 in
    let e3 = Short-nonempty_alone (a % 256) t3 s3 in
    let r : v4_from 0 0 0 0 (decimal (a / 16777216) ++ b'.' ∷ t1) ≡ some a =
      field_read 0 0 (a / 16777216) t1 (decimal (a / 16777216)) (omega arith) (omega arith) e1 s0
      ∙ field_read 1 a0 (a / 65536 % 256) t2 (decimal (a / 65536 % 256)) (omega arith) (omega arith)
          e2 s1
      ∙ field_read 2 a1 (a / 256 % 256) t3 (decimal (a / 256 % 256)) (omega arith) (omega arith) e3
          s2
      ∙ last_read a2 (a % 256) t3 (omega arith) s3
      ∙ ap some (omega arith) in
    r

-- A text of digits and dots.
unfoldable pub plain : List ℕ → Bool
plain [] = true
plain (c ∷ s) = (is_digit c || c == b'.') && plain s

plain-append : (s t : List ℕ) → plain s ≡ true → plain t ≡ true → plain (s ++ t) ≡ true
unfolding plain
plain-append [] t h k = k
plain-append (c ∷ s) t h k = let r = plain-append s t (ground arith) k in ground arith

plain-Short : (n : ℕ) (ds : List ℕ) → Short n ds → n < 256 → plain ds ≡ true
unfolding plain
plain-Short n _ (one_digit a) h = ground arith
plain-Short n _ (two_digits a b) h = ground arith
plain-Short n _ (three_digits a b) h = ground arith

cut-plain : (s t : List ℕ) → plain s ≡ true → cut b'/' (s ++ b'/' ∷ t) ≡ some (s, t)
unfolding plain cut
cut-plain [] t h = refl
cut-plain (c ∷ s) t h =
    let e : (c == b'/') ≡ false = ground arith in
    let r = cut-plain s t (ground arith) in rw (e, r, cut) refl

pub plain-decimal : (n : ℕ) → n < 256 → plain (decimal n) ≡ true
plain-decimal n h = plain-Short n (decimal n) (decimal-Short n (omega arith)) h

plain-field : (n : ℕ) (s : List ℕ) → n < 256 → plain s ≡ true → plain (decimal n ++ b'.' ∷ s) ≡ true
unfolding plain
plain-field n s h k = plain-append (decimal n) (b'.' ∷ s) (plain-decimal n h) (ground arith)

pub plain-print_v4 : (a : ℕ) → a < 2 ^ 32 → plain (print_v4 a) ≡ true
unfolding print_v4
plain-print_v4 a h = plain-field (a / 16777216) _ (omega arith) (
    plain-field (a / 65536 % 256) _ (omega arith)
      (plain-field (a / 256 % 256) _ (omega arith) (plain-decimal (a % 256) (omega arith))))

family_digit : (whole s : List ℕ) (d : ℕ) → d < 10 → family whole ((b'0' + d) ∷ s) ≡ family whole s
unfolding family
family_digit whole s d h =
    let p : ((b'0' + d) == b'.') ≡ false = ground arith in
    let q : ((b'0' + d) == b':') ≡ false = ground arith in
    let r : ((b'0' + d) == b'%') ≡ false = ground arith in rw (p, q, r, family) refl

family-Short :
    (n : ℕ) (whole ds s : List ℕ)
    → Short n ds
    → n < 256
    → family whole (ds ++ b'.' ∷ s) ≡ v4_addr (parse_v4 whole)
unfolding family
family-Short n whole _ s (one_digit a) h = family_digit whole (b'.' ∷ s) n a
family-Short n whole _ s (two_digits a b) h =
    family_digit whole ((b'0' + n % 10) ∷ b'.' ∷ s) (n / 10) (omega arith)
    ∙ family_digit whole (b'.' ∷ s) (n % 10) (omega arith)
family-Short n whole _ s (three_digits a b) h =
    family_digit whole ((b'0' + n / 10 % 10) ∷ (b'0' + n % 10) ∷ b'.' ∷ s) (n / 10 / 10)
      (omega arith)
    ∙ family_digit whole ((b'0' + n % 10) ∷ b'.' ∷ s) (n / 10 % 10) (omega arith)
    ∙ family_digit whole (b'.' ∷ s) (n % 10) (omega arith)

abbrev pub v4_value : ℕ → Addr
v4_value a = record { width = 32; value = a; zoned = false }

parse_addr-print_v4 : (a : ℕ) → a < 2 ^ 32 → parse_addr (print_v4 a) ≡ some (v4_value a)
unfolding parse_addr print_v4 v4_addr
parse_addr-print_v4 a h =
    family-Short (a / 16777216) (print_v4 a) _ _ (decimal-Short (a / 16777216) (omega arith))
      (omega arith)
    ∙ ap v4_addr (parse_v4-print_v4 a h)

prefix_bits-Short : (n : ℕ) (ds : List ℕ) → Short n ds → n < 256 → prefix_bits ds ≡ some n
unfolding prefix_bits number
prefix_bits-Short n _ (one_digit a) h = ground arith
prefix_bits-Short n _ (two_digits a b) h = ground arith
prefix_bits-Short n _ (three_digits a b) h = ground arith

-- An IPv4 prefix that is printed is read back as it was: its address of 32 bits, without a zone, and its
-- length of at most 32.
pub parse_prefix-print_prefix :
    (a n : ℕ) → a < 2 ^ 32 → n ≤ 32 → parse_prefix (print_prefix 32 a n) ≡ some (v4_value a, n)
unfolding parse_prefix print_prefix parts sized
parse_prefix-print_prefix a n h k =
    rw
      (
        cut-plain (print_v4 a) (decimal n) (plain-print_v4 a h),
        parse_addr-print_v4 a h,
        prefix_bits-Short n (decimal n) (decimal-Short n (omega arith)) (omega arith),
      )
      (ground arith)
