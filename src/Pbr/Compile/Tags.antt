-- ===== src/Pbr/Compile/Tags.antt =====
-- internal/pbr/pbr.go: the tags of the egresses of a plan.
use velinx.Base.{
  ◌≡◌, ◌≢◌, refl, sym, ◌∙◌, arith, eq_iff, String, Bool, List, [], ◌∷◌, ◌=$◌, All, Bool-cases, inl,
  inr,
}
use velinx.Go.Sort.{any, Pairwise, any-sort, All-sort, Pairwise-sort}
use velinx.Model.{outbound_direct}
use velinx.Pbr.Zones.{Build, has_tag}
use velinx.Pbr.Collect.Valid.{OtherTag}
use velinx.Pbr.Compile.{without_direct, other_tags, tag_before}

abbrev is_tag : String → String → Bool
is_tag t u = u =$ t

has_tag-any : (t : String) (ts : List String) → has_tag t ts ≡ any (is_tag t) ts
unfolding has_tag any
has_tag-any t [] = refl
has_tag-any t (u ∷ us) = rw (has_tag-any t us) refl

has_tag-without_direct :
    (t : String) (ts : List String)
    → t ≢ outbound_direct
    → has_tag t (without_direct ts) ≡ has_tag t ts
unfolding has_tag without_direct
has_tag-without_direct t [] n = refl
has_tag-without_direct t (u ∷ us) n =
    let h = has_tag-without_direct t us n in
    ground (arith, eq_iff u t, eq_iff u outbound_direct, eq_iff t outbound_direct)

All-without_direct {κ} :
    (P : String → Type κ) (ts : List String) → All P ts → All P (without_direct ts)
unfolding without_direct
All-without_direct P [] h = tt
All-without_direct P (t ∷ ts) h = elim (Bool-cases (t =$ outbound_direct)) [
  | inl e ↦ rw e (All-without_direct P ts h.1)
  | inr e ↦ rw e (h.0, All-without_direct P ts h.1)
]

without_direct-All : (ts : List String) → All (OtherTag outbound_direct) (without_direct ts)
unfolding without_direct
without_direct-All [] = tt
without_direct-All (t ∷ ts) = elim (Bool-cases (t =$ outbound_direct)) [
  | inl e ↦ rw e (without_direct-All ts)
  | inr e ↦ rw e (λ q. absurd (ground (arith, eq_iff t outbound_direct)), without_direct-All ts)
]

Pairwise-without_direct :
    (ts : List String) → Pairwise OtherTag ts → Pairwise OtherTag (without_direct ts)
unfolding without_direct
Pairwise-without_direct [] h = tt
Pairwise-without_direct (t ∷ ts) h = elim (Bool-cases (t =$ outbound_direct)) [
  | inl e ↦ rw e (Pairwise-without_direct ts h.1)
  | inr e ↦ rw e (All-without_direct (OtherTag t) ts h.0, Pairwise-without_direct ts h.1)
]

pub other_tags-OtherTag : (b : Build) → All (OtherTag outbound_direct) (other_tags b)
unfolding other_tags
other_tags-OtherTag b = All-sort tag_before _ _ (without_direct-All b.used_egress)

pub other_tags-Pairwise :
    (b : Build) → Pairwise OtherTag b.used_egress → Pairwise OtherTag (other_tags b)
unfolding other_tags
other_tags-Pairwise b h =
    Pairwise-sort tag_before OtherTag (λ s t n e. n (sym e)) _
      (Pairwise-without_direct b.used_egress h)

pub has_tag-other_tags :
    (t : String) (b : Build)
    → t ≢ outbound_direct
    → has_tag t (other_tags b) ≡ has_tag t b.used_egress
unfolding other_tags
has_tag-other_tags t b n =
    has_tag-any t (other_tags b)
    ∙ any-sort tag_before (is_tag t) (without_direct b.used_egress)
    ∙ sym (has_tag-any t (without_direct b.used_egress))
    ∙ has_tag-without_direct t b.used_egress n
