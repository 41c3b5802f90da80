-- ===== src/Go/HostPort/Digits.antt =====
-- `strconv`: what `Itoa` prints is a port and is read by `Atoi`.
use velinx.Base.{
  ℕ, zero, suc, ◌+◌, ◌-◌, ◌*◌, ◌/◌, ◌%◌, ◌^◌, ◌<◌, ◌≡◌, refl, ap, ◌∙◌, arith, Bool, true, false,
  List, [], ◌∷◌, ◌++◌, ◌&&◌, ◌==◌, if◌then◌else◌, some, ltb, ℤ, pos, negsuc,
}
use velinx.Go.Strings.{is_digit, is_empty}
use velinx.Go.Numbers.{digits, decimal, itoa, value_from, value_from-digits}
use velinx.Go.HostPort.{has_code, digits_value, positive, some_digits, atoi}
use velinx.Go.HostPort.Joined.{IsPort}

all_digits : List ℕ → Bool
all_digits [] = true
all_digits (c ∷ s) = is_digit c && all_digits s

all_digits-snoc :
    (s : List ℕ) (c : ℕ)
    → all_digits s ≡ true
    → is_digit c ≡ true
    → all_digits (s ++ (c ∷ [])) ≡ true
unfolding all_digits
all_digits-snoc [] c h k = rw k refl
all_digits-snoc (d ∷ s) c h k = let r = all_digits-snoc s c (ground arith) k in ground arith

digits-all_digits : (fuel n : ℕ) → all_digits (digits fuel n) ≡ true
unfolding digits all_digits
digits-all_digits zero n = refl
digits-all_digits (suc fuel) n =
    all_digits-snoc (if ltb n 10 then [] else digits fuel (n / 10)) (b'0' + n % 10)
      (either (ltb n 10) (digits fuel (n / 10)) (digits-all_digits fuel (n / 10))) (ground arith)
  where
    either : (c : Bool) (s : List ℕ) → all_digits s ≡ true → all_digits (if c then [] else s) ≡ true
    either true s h = refl
    either false s h = h

has_code-all_digits :
    (k : ℕ) (s : List ℕ) → is_digit k ≡ false → all_digits s ≡ true → has_code k s ≡ false
unfolding all_digits has_code
has_code-all_digits k [] n h = refl
has_code-all_digits k (c ∷ s) n h = let r = has_code-all_digits k s n (ground arith) in ground arith

digits_value-all_digits :
    (acc : ℕ) (s : List ℕ) → all_digits s ≡ true → digits_value acc s ≡ some (value_from acc s)
unfolding all_digits digits_value value_from
digits_value-all_digits acc [] h = refl
digits_value-all_digits acc (c ∷ s) h =
    let e : is_digit c ≡ true = ground arith in
    let r = digits_value-all_digits (acc * 10 + (c - b'0')) s (ground arith) in
    rw (e, digits_value) r

pub decimal-IsPort : (n : ℕ) → IsPort (decimal n)
unfolding decimal
decimal-IsPort n = record {
  no_colon = has_code-all_digits b':' _ refl (digits-all_digits (n + 1) n);
  no_opening = has_code-all_digits b'[' _ refl (digits-all_digits (n + 1) n);
  no_closing = has_code-all_digits b']' _ refl (digits-all_digits (n + 1) n);
}

with_minus : (s : List ℕ) → IsPort s → IsPort (b'-' ∷ s)
unfolding has_code
with_minus s p = record {
  no_colon = p.no_colon;
  no_opening = p.no_opening;
  no_closing = p.no_closing;
}

pub itoa-IsPort : (i : ℤ) → IsPort (itoa i)
unfolding itoa
itoa-IsPort (pos n) = decimal-IsPort n
itoa-IsPort (negsuc n) = with_minus _ (decimal-IsPort (n + 1))

first_digit : (c : ℕ) (s : List ℕ) → all_digits (c ∷ s) ≡ true → is_digit c ≡ true
unfolding all_digits
first_digit c s h = ground arith

atoi-all_digits :
    (s : List ℕ)
    → is_empty s ≡ false
    → all_digits s ≡ true
    → atoi s ≡ positive (some (value_from 0 s))
unfolding atoi is_empty some_digits
atoi-all_digits [] n h = absurd cc
atoi-all_digits (c ∷ s) n h =
    let v = digits_value-all_digits 0 (c ∷ s) h in
    let d = first_digit c s h in
    let p : (c == b'+') ≡ false = ground arith in
    let m : (c == b'-') ≡ false = ground arith in rw (p, m, atoi) (ap positive v)

snoc-nonempty : (s : List ℕ) (c : ℕ) → is_empty (s ++ (c ∷ [])) ≡ false
unfolding is_empty
snoc-nonempty [] c = refl
snoc-nonempty (d ∷ s) c = refl

digits-nonempty : (fuel n : ℕ) → n < fuel → is_empty (digits fuel n) ≡ false
unfolding digits
digits-nonempty zero n h = absurd (omega arith)
digits-nonempty (suc fuel) n h = snoc-nonempty _ (b'0' + n % 10)

-- A number of 63 bits that is printed is read back.
pub atoi-decimal : (n : ℕ) → n < 2 ^ 63 → atoi (decimal n) ≡ some (pos n)
unfolding decimal positive
atoi-decimal n h =
    let e : ltb n (2 ^ 63) ≡ true = ground arith in
    atoi-all_digits (digits (n + 1) n) (digits-nonempty (n + 1) n (omega arith))
      (digits-all_digits (n + 1) n)
    ∙ ap (λ v. positive (some v)) (value_from-digits (n + 1) n (omega arith))
    ∙ rw e refl
