-- ===== src/Go/Numbers.antt =====
-- `strconv.Itoa` and the `%d`, `%x` and `%08x` of `fmt`.
use velinx.Base.{
  ◌≤◌, true, false, ℕ, zero, suc, ◌+◌, ◌-◌, ◌*◌, ◌/◌, ◌%◌, ◌<◌, ◌≡◌, refl, sym, ap, ◌∙◌, arith,
  List, [], ◌∷◌, ◌++◌, ℤ, pos, negsuc, ltb, if◌then◌else◌, Bool-cases, ◌==◌, inl, inr,
}

-- The decimal digits of `n`, of which there are at most `n + 1`.
unfoldable pub digits : ℕ → ℕ → List ℕ
digits zero n = []
digits (suc fuel) n =
    let rest = digits fuel (n / 10) in (if ltb n 10 then [] else rest) ++ ((b'0' + n % 10) ∷ [])

unfoldable pub decimal : ℕ → List ℕ
unfolding digits
decimal n = digits (n + 1) n

-- `strconv.Itoa`
unfoldable pub itoa : ℤ → List ℕ
unfolding decimal digits
itoa (pos n) = decimal n
itoa (negsuc n) = b'-' ∷ decimal (n + 1)

hex_digit : ℕ → ℕ
hex_digit d = if ltb d 10 then b'0' + d else b'a' + d - 10

-- `%0kx` of a number below 16 ^ k.
unfoldable pub padded_hex : ℕ → ℕ → List ℕ
unfolding hex_digit
padded_hex zero n = []
padded_hex (suc k) n = padded_hex k (n / 16) ++ (hex_digit (n % 16) ∷ [])

without_zeros : List ℕ → List ℕ
without_zeros [] = b'0' ∷ []
without_zeros (c ∷ s) = if c == b'0' then without_zeros s else c ∷ s

-- `%x` of a number below 65536.
unfoldable pub hex : ℕ → List ℕ
unfolding padded_hex without_zeros
hex n = if n == 0 then b'0' ∷ [] else without_zeros (padded_hex 4 n)

-- What `strconv.Atoi` reads in a text of digits.
unfoldable pub value_from : ℕ → List ℕ → ℕ
value_from acc [] = acc
value_from acc (c ∷ s) = value_from (acc * 10 + (c - b'0')) s

pub value_from-snoc :
    (acc : ℕ) (s : List ℕ) (c : ℕ)
    → value_from acc (s ++ (c ∷ [])) ≡ value_from acc s * 10 + (c - b'0')
unfolding value_from
value_from-snoc acc [] c = refl
value_from-snoc acc (d ∷ s) c = value_from-snoc (acc * 10 + (d - b'0')) s c

pub value_from-digits : (fuel n : ℕ) → n < fuel → value_from 0 (digits fuel n) ≡ n
unfolding digits value_from
value_from-digits zero n h = absurd (omega arith)
value_from-digits (suc fuel) n h = elim (Bool-cases (ltb n 10)) [
  | inl e ↦ rw e (ground arith)
  | inr e ↦
      let less : n / 10 < fuel = ground arith in
      rw
        (
          e,
          value_from-snoc 0 (digits fuel (n / 10)) (b'0' + n % 10),
          value_from-digits fuel (n / 10) less,
        )
        (omega arith)
]

-- Different numbers print differently.
pub decimal-injective : (m n : ℕ) → decimal m ≡ decimal n → m ≡ n
unfolding decimal
decimal-injective m n e =
    sym (value_from-digits (m + 1) m (omega arith))
    ∙ ap (value_from 0) e
    ∙ value_from-digits (n + 1) n (omega arith)

-- The digits of a number below 1000.
pub data Short (n : ℕ) : List ℕ → Type 0 where
  one_digit : n < 10 → Short n ((b'0' + n) ∷ [])
  two_digits : 10 ≤ n → n < 100 → Short n ((b'0' + n / 10) ∷ (b'0' + n % 10) ∷ [])
  three_digits :
      100 ≤ n
      → n < 1000
      → Short n ((b'0' + n / 10 / 10) ∷ (b'0' + n / 10 % 10) ∷ (b'0' + n % 10) ∷ [])

one_of : (fuel n : ℕ) → n < fuel → n < 10 → digits fuel n ≡ (b'0' + n) ∷ []
unfolding digits
one_of zero n f h = absurd (omega arith)
one_of (suc fuel) n f h =
    let e : ltb n 10 ≡ true = ground arith in let m : n % 10 ≡ n = omega arith in rw (e, m) refl

last_of :
    (fuel n : ℕ)
    → n < fuel
    → 10 ≤ n
    → digits fuel n ≡ digits (fuel - 1) (n / 10) ++ ((b'0' + n % 10) ∷ [])
unfolding digits
last_of zero n f h = absurd (omega arith)
last_of (suc fuel) n f h =
    let e : ltb n 10 ≡ false = ground arith in
    let m : suc fuel - 1 ≡ fuel = omega arith in rw (e, m) refl

pub decimal-Short : (n : ℕ) → n < 1000 → Short n (decimal n)
unfolding decimal
decimal-Short n h = elim (Bool-cases (ltb n 10)) [
  | inl e ↦ rw (one_of (n + 1) n (omega arith) (ground arith)) (one_digit (ground arith))
  | inr e ↦
      let big : 10 ≤ n = ground arith in
      rw (last_of (n + 1) n (omega arith) big) (elim (Bool-cases (ltb n 100)) [
        | inl q ↦
            rw (one_of (n + 1 - 1) (n / 10) (omega arith) (ground arith))
              (two_digits big (ground arith))
        | inr q ↦
            rw
              (
                last_of (n + 1 - 1) (n / 10) (omega arith) (ground arith),
                one_of (n + 1 - 1 - 1) (n / 10 / 10) (omega arith) (ground arith),
              )
              (three_digits (ground arith) h)
      ])
]
