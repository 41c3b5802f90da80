-- ===== src/Model/Names.antt =====
-- internal/model/validate.go: the tables that `Validate` fills, and the problems that it reports.
use velinx.Base.{
  ℕ, arith, eq_iff, ◌≡◌, ◌≢◌, ◌⊎◌, inl, inr, refl, String, Bool, true, false, List, [], ◌∷◌, Option,
  none, some, ◌||◌, ◌=$◌, if◌then◌else◌, is_some, ℤ,
}
use velinx.Model.Params.{Invalid}
use velinx.Model.Matchers.{is_builtin}

-- What an id names.
pub data Kind : Type 0 where
  endpoint group rule routing_list : Kind

-- One constructor for each `fmt.Errorf`, with what it prints.
pub data Problem : Type 0 where
  empty_endpoint_id empty_group_id empty_list_id : String → Problem
  empty_rule_id : Problem
  duplicate_id : String → Kind → Problem
  mtu_range keepalive_range port_range : String → ℤ → Problem
  no_interface empty_server empty_protocol : String → Problem
  missing_param : String → String → String → Problem
  invalid_param : String → String → Invalid → Problem
  no_members : String → Problem
  member_is_action member_unresolved member_self member_disabled : String → String → Problem
  cycle : String → String → Problem
  out_of_fuel : Problem
  no_matcher : String → Problem
  bad_ip_cidr bad_source_ip_cidr bad_source_mac bad_source_iface : String → String → Problem
  bad_port bad_source_port : String → ℤ → Problem
  outbound_unresolved outbound_disabled : String → String → Problem
  many_defaults : ℕ → Problem
  no_content : String → Problem
  bad_cidr_source : String → String → Problem
  list_outbound_unresolved list_outbound_disabled : String → String → Problem
  via_unresolved via_disabled : String → String → Problem

pub data Check {ℓ} (A : Type ℓ) : Type ℓ where
  err : Problem → Check A
  ok : A → Check A

infixl 5 ◌>>=◌ ◌>>◌
abbrev pub ◌>>=◌ {κ ℓ} : {A : Type κ} {B : Type ℓ} → Check A → (A → Check B) → Check B
err problem >>= next = err problem
ok value >>= next = next value

abbrev pub ◌>>◌ {κ ℓ} : {A : Type κ} {B : Type ℓ} → Check A → Check B → Check B
first >> next = first >>= λ _. next

-- `if bad { return err }`
abbrev pub reject : Bool → Problem → Check (Unit {0})
reject true e = err e
reject false e = ok tt

abbrev pub reject_some {ℓ} : {A : Type ℓ} → Option A → (A → Problem) → Check (Unit {0})
reject_some none e = ok tt
reject_some (some a) e = err (e a)

-- `ids` and `enabled`, newest entry first. No key is entered twice before it is looked up.
pub record Names : Type 0 where
  pub ids : List (String × Kind)
  pub enabled : List (String × Bool)

unfoldable pub kind_of : String → List (String × Kind) → Option Kind
kind_of k [] = none
kind_of k ((j, v) ∷ m) = let rest = kind_of k m in if j =$ k then some v else rest

unfoldable pub enabled_in : String → List (String × Bool) → Bool
enabled_in k [] = false
enabled_in k ((j, v) ∷ m) = let rest = enabled_in k m in if j =$ k then v else rest

-- Enter an id that is empty or taken by nobody.
unfoldable pub enter : Problem → String → Kind → Names → Check Names
enter no_id k v n = do
  reject (k =$ "") no_id
  reject_some (kind_of k n.ids) (duplicate_id k)
  ok (record n { ids = (k, v) ∷ n.ids })

abbrev pub enable : String → Bool → Names → Names
enable k b n = record n { enabled = (k, b) ∷ n.enabled }

unfoldable pub is_resolvable : String → Names → Bool
is_resolvable k n = is_builtin k || is_some (kind_of k n.ids)

unfoldable pub is_usable : String → Names → Bool
is_usable k n = is_builtin k || enabled_in k n.enabled

pub >>=-eq-ok {ℓ κ} :
    {A : Type ℓ} {B : Type κ} (first : Check A) (next : A → Check B) {last : B}
    → (first >>= next) ≡ ok last
    → (x : A) × (first ≡ ok x) × (next x ≡ ok last)
>>=-eq-ok (err p) next q = cc
>>=-eq-ok (ok x) next q = (x, refl, q)

pub reject-eq-ok : (b : Bool) (e : Problem) {u : Unit {0}} → reject b e ≡ ok u → b ≡ false
reject-eq-ok true e h = cc
reject-eq-ok false e h = refl

pub reject_some-eq-ok {ℓ} :
    {A : Type ℓ} (o : Option A) (e : A → Problem) {u : Unit {0}} → reject_some o e ≡ ok u → o ≡ none
reject_some-eq-ok none e h = refl
reject_some-eq-ok (some a) e h = cc

-- An id that is entered is not empty and was not taken.
pub enter-eq-ok :
    (p : Problem) (k : String) (v : Kind) (n m : Names)
    → enter p k v n ≡ ok m
    → (k ≢ "") × (kind_of k n.ids ≡ none) × (m ≡ record n { ids = (k, v) ∷ n.ids })
unfolding enter
enter-eq-ok p k v n m h =
    let (_, a, h1) = >>=-eq-ok (reject (k =$ "") p) _ h in
    let (_, b, h2) = >>=-eq-ok (reject_some (kind_of k n.ids) (Problem.duplicate_id k)) _ h1 in
    (
      ground (arith, eq_iff k "", reject-eq-ok (k =$ "") p a),
      reject_some-eq-ok (kind_of k n.ids) (Problem.duplicate_id k) b,
      ground arith,
    )

-- A check that a flag skips.
pub skips_or :
    (b : Bool) (m : Check (Unit {0})) {u : Unit {0}}
    → (if b then ok tt else m) ≡ ok u
    → (b ≡ true) ⊎ (m ≡ ok u)
skips_or true m h = inl refl
skips_or false m h = inr h
