-- ===== src/Base/Tests.antt =====
-- Boolean tests on native numbers and texts, and the conditional.
use Prim.Native.Nat.{ℕ, compare, Ordering}
use Prim.Native.String.{String}
use mathlib.Core.Path.{◌≡◌, refl}
use mathlib.Core.Logic.{◌⊎◌, inl, inr}
use mathlib.Core.Bool.{Bool, true, false, ◌||◌}
use mathlib.Core.Option.{Option, none, some}
use text.Mathlib.Text.{◌==◌ as text_eq}

abbrev pub ltb : ℕ → ℕ → Bool
ltb a b = elim (compare a b) [ Ordering.lt ↦ true | _ ↦ false ]

abbrev pub leb : ℕ → ℕ → Bool
leb a b = elim (compare a b) [ Ordering.gt ↦ false | _ ↦ true ]

infix 50 ◌==◌
abbrev pub ◌==◌ : ℕ → ℕ → Bool
a == b = elim (compare a b) [ Ordering.eq ↦ true | _ ↦ false ]

-- Equality of texts; `eq_iff` is its law.
infix 50 ◌=$◌
abbrev pub ◌=$◌ : String → String → Bool
s =$ t = text_eq s t

infix 1 if◌then◌else◌
abbrev pub if◌then◌else◌ {ℓ} : {A : Type ℓ} → Bool → A → A → A
if true then x else y = x
if false then x else y = y

abbrev pub is_some {ℓ} : {A : Type ℓ} → Option A → Bool
is_some none = false
is_some (some _) = true

-- To split on a computed value and keep the equation.
pub Bool-cases : (b : Bool) → (b ≡ true) ⊎ (b ≡ false)
Bool-cases true = inl refl
Bool-cases false = inr refl

pub Option-cases {ℓ} : {A : Type ℓ} (o : Option A) → (o ≡ none) ⊎ ((a : A) × (o ≡ some a))
Option-cases none = inl refl
Option-cases (some a) = inr (a, refl)

-- A chain of steps that may fail.
infixl 5 ◌>>=◌
abbrev pub ◌>>=◌ {ℓ κ} : {A : Type ℓ} {B : Type κ} → Option A → (A → Option B) → Option B
none >>= f = none
some a >>= f = f a

-- Disjunctions that a loop collects.
pub or_false : (k : Bool) → k ≡ (k || false)
or_false true = refl
or_false false = refl

pub or_assoc : (k c r : Bool) → ((k || (c || false)) || r) ≡ (k || (c || r))
or_assoc true c r = refl
or_assoc false true r = refl
or_assoc false false r = refl

-- What implies the first disjunct adds nothing.
pub or_implied : (k c r : Bool) → (c ≡ true → k ≡ true) → (k || r) ≡ (k || (c || r))
or_implied true c r h = refl
or_implied false true r h = absurd (let e = h refl in cc)
or_implied false false r h = refl

pub or_absorb : (k c : Bool) → (c ≡ true → k ≡ true) → k ≡ (k || c)
or_absorb true c h = refl
or_absorb false true h = h refl
or_absorb false false h = refl
