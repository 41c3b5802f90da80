-- ===== src/Go/HostPort/Joined.antt =====
-- `net`: a host and a port that are joined are split again.
use velinx.Base.{
  ℕ, ◌≡◌, refl, subst, ap, ◌∙◌, inl, inr, arith, Bool, true, false, List, [], ◌∷◌, ◌++◌, ◌&&◌, ◌||◌,
  ◌==◌, if◌then◌else◌, Option, none, some, Bool-cases,
}
use velinx.Go.Strings.{is_empty}
use velinx.Go.HostPort.{
  has_code, colon_step, closing_step, inside, at_last_colon, until_closing, bracketed, bare,
  host_and_port, split_host_port, join_host_port,
}

-- A text without square brackets.
pub record IsHost (s : List ℕ) : Type 0 where
  pub opens : has_code b'[' s ≡ false
  pub closes : has_code b']' s ≡ false

-- A text without colons and square brackets.
pub record IsPort (s : List ℕ) : Type 0 where
  pub no_colon : has_code b':' s ≡ false
  pub no_opening : has_code b'[' s ≡ false
  pub no_closing : has_code b']' s ≡ false

no_last_colon : (s : List ℕ) → has_code b':' s ≡ false → at_last_colon s ≡ none
unfolding has_code at_last_colon colon_step
no_last_colon [] h = refl
no_last_colon (c ∷ s) h =
    let e : (c == b':') ≡ false = ground arith in
    ap (colon_step c s) (no_last_colon s (ground arith)) ∙ rw e refl

at_last_colon-append :
    (s t : List ℕ) → has_code b':' t ≡ false → at_last_colon (s ++ b':' ∷ t) ≡ some (s, t)
unfolding at_last_colon colon_step
at_last_colon-append [] t h = ap (colon_step b':' t) (no_last_colon t h)
at_last_colon-append (c ∷ s) t h = ap (colon_step c (s ++ b':' ∷ t)) (at_last_colon-append s t h)

until_closing-append :
    (s : List ℕ) → has_code b']' s ≡ false → until_closing (s ++ (b']' ∷ [])) ≡ some s
unfolding until_closing has_code is_empty closing_step
until_closing-append [] h = refl
until_closing-append (c ∷ s) h =
    let e : (c == b']') ≡ false = ground arith in
    ap (closing_step c (s ++ (b']' ∷ []))) (until_closing-append s (ground arith)) ∙ rw e refl

-- What a bracket closes has none.
Closes : Option (List ℕ) → Type 0
Closes none = Unit
Closes (some h) = has_code b']' h ≡ false

cons_free :
    (k c : ℕ) (s : List ℕ) → (c == k) ≡ false → has_code k s ≡ false → has_code k (c ∷ s) ≡ false
unfolding has_code
cons_free k c s e h = ground arith

closing_step-Closes :
    (c : ℕ) (s : List ℕ) (o : Option (List ℕ)) → Closes o → Closes (closing_step c s o)
unfolding closing_step Closes has_code
closing_step-Closes c s (some h) k = elim (Bool-cases (c == b']')) [
  | inl e ↦ rw e tt
  | inr e ↦ rw e (cons_free b']' c h e k)
]
closing_step-Closes c s none k = elim (Bool-cases (c == b']' && is_empty s)) [
  | inl e ↦ rw e refl
  | inr e ↦ rw e tt
]

until_closing-Closes : (s : List ℕ) → Closes (until_closing s)
unfolding until_closing Closes
until_closing-Closes [] = tt
until_closing-Closes (c ∷ s) = closing_step-Closes c s (until_closing s) (until_closing-Closes s)

-- The parts that a text is split into.
Parts : Option (List ℕ × List ℕ) → Type 0
Parts none = Unit
Parts (some (host, port)) = IsHost host

inside-Parts : (o : Option (List ℕ)) (port : List ℕ) → Closes o → Parts (inside o port)
unfolding inside Parts Closes
inside-Parts none port k = tt
inside-Parts (some host) port k =
    elim (Bool-cases (has_code b'[' host || has_code b'[' port || has_code b']' port)) [
      | inl e ↦ rw e tt
      | inr e ↦ rw e (record { opens = ground arith; closes = k })
    ]

bare-Parts : (host port : List ℕ) → Parts (bare host port)
unfolding bare Parts
bare-Parts host port =
    elim (Bool-cases (
      has_code b':' host
      || has_code b'[' host
      || has_code b'[' port
      || has_code b']' host
      || has_code b']' port)) [
        | inl e ↦ rw e tt
        | inr e ↦ rw e (record { opens = ground arith; closes = ground arith })
      ]

either-Parts :
    (c : Bool) (x y : Option (List ℕ × List ℕ)) → Parts x → Parts y → Parts (if c then x else y)
either-Parts true x y p q = p
either-Parts false x y p q = q

host_and_port-Parts : (o : Option (List ℕ × List ℕ)) → Parts (host_and_port o)
unfolding host_and_port Parts bracketed
host_and_port-Parts none = tt
host_and_port-Parts (some ([], port)) = bare-Parts [] port
host_and_port-Parts (some (c ∷ a, port)) =
    either-Parts (c == b'[') _ _ (inside-Parts (until_closing a) port (until_closing-Closes a))
      (bare-Parts (c ∷ a) port)

-- A host that was split off has no brackets.
pub split-IsHost : (s host port : List ℕ) → split_host_port s ≡ some (host, port) → IsHost host
unfolding split_host_port Parts
split-IsHost s host port e = subst Parts e (host_and_port-Parts (at_last_colon s))

bracketed-join :
    (host port : List ℕ)
    → IsHost host
    → IsPort port
    → bracketed (host ++ (b']' ∷ [])) port ≡ some (host, port)
unfolding bracketed inside
bracketed-join host port h p =
    ap (λ o. inside o port) (until_closing-append host h.closes)
    ∙ rw (h.opens, p.no_opening, p.no_closing) refl

bare-join :
    (host port : List ℕ)
    → has_code b':' host ≡ false
    → IsHost host
    → IsPort port
    → bare host port ≡ some (host, port)
unfolding bare
bare-join host port c h p = rw (c, h.opens, p.no_opening, h.closes, p.no_closing) refl

unbracketed :
    (host port : List ℕ) → IsHost host → host_and_port (some (host, port)) ≡ bare host port
unfolding host_and_port has_code
unbracketed [] port h = refl
unbracketed (d ∷ s) port h =
    let o = h.opens in let e : (d == b'[') ≡ false = ground arith in rw e refl

-- A host and a port that are joined are split into the same two again.
pub split-join :
    (host port : List ℕ)
    → IsHost host
    → IsPort port
    → split_host_port (join_host_port host port) ≡ some (host, port)
unfolding split_host_port join_host_port host_and_port
split-join host port h p = elim (Bool-cases (has_code b':' host)) [
  | inl e ↦ rw e (
      ap host_and_port (at_last_colon-append (b'[' ∷ (host ++ (b']' ∷ []))) port p.no_colon)
      ∙ bracketed-join host port h p)
  | inr e ↦ rw e (
      ap host_and_port (at_last_colon-append host port p.no_colon)
      ∙ unbracketed host port h
      ∙ bare-join host port e h p)
]
