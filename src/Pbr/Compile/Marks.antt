-- ===== src/Pbr/Compile/Marks.antt =====
-- internal/pbr/pbr.go: the marks and the routing tables of the egresses of a plan.
use velinx.Base.{
  ◌≡◌, ◌≢◌, refl, sym, ap, ◌∙◌, subst, arith, eq_iff, String, true, false, List, [], ◌∷◌, ◌=$◌,
  if◌then◌else◌, ℕ, ◌+◌, All, Elem, Bool-cases, inl, inr,
}
use velinx.Go.Sort.{Pairwise}
use velinx.Model.{Profile, outbound_direct}
use velinx.Pbr.{Egress, Options}
use velinx.Pbr.Zones.{Build, has_tag}
use velinx.Pbr.Collect.Valid.{OtherTag}
use velinx.Pbr.Compile.{other_egress, other_egresses, other_tags, egresses_of, wan_egress, mark_in}
use velinx.Pbr.Compile.Tags.{other_tags-OtherTag, other_tags-Pairwise, has_tag-other_tags}

abbrev pub OtherEgress : Egress → Egress → Type 0
OtherEgress e f = e.tag ≢ f.tag

mark_in-kept :
    (last : ℕ) (es : List Egress) (t : String) → All (λ e. t ≢ e.tag) es → mark_in last es t ≡ last
unfolding mark_in
mark_in-kept last [] t h = refl
mark_in-kept last (e ∷ es) t h =
    let q : (e.tag =$ t) ≡ false = ground (arith, eq_iff e.tag t, h.0) in
    rw q (mark_in-kept last es t h.1)

mark_in-Elem :
    (last : ℕ) (es : List Egress) (e : Egress)
    → Elem e es
    → Pairwise OtherEgress es
    → mark_in last es e.tag ≡ e.mark
unfolding mark_in
mark_in-Elem last [] e i d = absurd i
mark_in-Elem last (f ∷ es) e (inl q) d =
    let s : (f.tag =$ e.tag) ≡ true = ground (arith, eq_iff f.tag e.tag, ap (λ x. x.tag) q) in
    let t : All (λ x. e.tag ≢ x.tag) es =
      subst (λ x. All (λ y. x ≢ y.tag) es) (ap (λ x. x.tag) (sym q)) d.0 in
    rw s (mark_in-kept f.mark es e.tag t ∙ ap (λ x. x.mark) (sym q))
mark_in-Elem last (f ∷ es) e (inr i) d =
    mark_in-Elem (if f.tag =$ e.tag then f.mark else last) es e i d.1

module _ (o : Options) (p : Profile) where
  other_egresses-All :
      (s : String) (i : ℕ) (ts : List String)
      → All (OtherTag s) ts
      → All (λ e. s ≢ e.tag) (other_egresses o p i ts)
  unfolding other_egresses other_egress
  other_egresses-All s i [] h = tt
  other_egresses-All s i (t ∷ ts) h = (h.0, other_egresses-All s (i + 1) ts h.1)

  other_egresses-Pairwise :
      (i : ℕ) (ts : List String)
      → Pairwise OtherTag ts
      → Pairwise OtherEgress (other_egresses o p i ts)
  unfolding other_egresses other_egress
  other_egresses-Pairwise i [] h = tt
  other_egresses-Pairwise i (t ∷ ts) h =
      (other_egresses-All t (i + 1) ts h.0, other_egresses-Pairwise (i + 1) ts h.1)

  other_egresses-Elem :
      (i : ℕ) (ts : List String) (t : String)
      → has_tag t ts ≡ true
      → (e : Egress) × Elem e (other_egresses o p i ts) × (e.tag ≡ t)
  unfolding other_egresses other_egress has_tag
  other_egresses-Elem i [] t h = absurd cc
  other_egresses-Elem i (u ∷ us) t h = elim (Bool-cases (u =$ t)) [
    | inl e ↦ (other_egress o p i u, inl refl, ground (arith, eq_iff u t))
    | inr e ↦ let (f, j, q) = other_egresses-Elem (i + 1) us t (ground arith) in (f, inr j, q)
  ]

  pub egresses_of-OtherEgress :
      (b : Build) → Pairwise OtherTag b.used_egress → Pairwise OtherEgress (egresses_of o p b)
  unfolding egresses_of
  egresses_of-OtherEgress b h = (
    other_egresses-All outbound_direct 0 (other_tags b) (other_tags-OtherTag b),
    other_egresses-Pairwise 0 (other_tags b) (other_tags-Pairwise b h),
  )

  -- The egress of a tag that a zone uses.
  pub egresses_of-Elem :
      (b : Build) (t : String)
      → has_tag t b.used_egress ≡ true
      → (e : Egress) × Elem e (egresses_of o p b) × (e.tag ≡ t)
  unfolding egresses_of
  egresses_of-Elem b t h = elim (Bool-cases (t =$ outbound_direct)) [
    | inl e ↦ (wan_egress o, inl refl, ground (arith, eq_iff t outbound_direct))
    | inr e ↦
        let n : t ≢ outbound_direct = λ q. absurd (ground (arith, eq_iff t outbound_direct)) in
        let (f, j, q) = other_egresses-Elem 0 (other_tags b) t (has_tag-other_tags t b n ∙ h) in
        (f, inr j, q)
  ]

  pub mark_of_egress :
      (b : Build) (e : Egress)
      → Pairwise OtherTag b.used_egress
      → Elem e (egresses_of o p b)
      → mark_in 0 (egresses_of o p b) e.tag ≡ e.mark
  mark_of_egress b e h i = mark_in-Elem 0 _ e i (egresses_of-OtherEgress b h)
