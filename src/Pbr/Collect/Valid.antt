-- ===== src/Pbr/Collect/Valid.antt =====
-- internal/pbr/pbr.go: the names and the tags of the zones that `Compile` collects.
use velinx.Base.{
  ◌≡◌, ◌≢◌, ap, arith, eq_iff, String, true, false, List, [], ◌∷◌, if◌then◌else◌, Option, ℕ, All,
  All-map, All-snoc, Bool-cases, inl, inr,
}
use velinx.Go.Same.{has_text, same_refl}
use velinx.Go.Sort.{Pairwise, Pairwise-snoc}
use velinx.Model.{Profile}
use velinx.Pbr.{Zone, Options, Message}
use velinx.Pbr.Zones.{Build, Matched, SrcSpec, warn, enter_zone, zone_name, zone_of, has_tag}
use velinx.Pbr.Zones.Names.{zone_name-unused}
use velinx.Pbr.Collect.{collect, no_build}
use velinx.Pbr.Collect.Kept.{add_rules-kept, add_lists-kept}

abbrev pub OtherName : Zone → Zone → Type 0
OtherName y z = y.name ≢ z.name

abbrev Named : List (List ℕ) → Zone → Type 0
Named used z = has_text z.name used ≡ true

abbrev pub Tagged : List String → Zone → Type 0
Tagged tags z = has_tag z.egress_tag tags ≡ true

abbrev pub OtherTag : String → String → Type 0
OtherTag s t = s ≢ t

pub record IsValid (b : Build) : Type 0 where
  pub distinct : Pairwise OtherName b.zones
  pub named : All (Named b.used_names) b.zones
  pub tagged : All (Tagged b.used_egress) b.zones
  pub tags : Pairwise OtherTag b.used_egress

warn-IsValid : (scope : String) (m : Message) (b : Build) → IsValid b → IsValid (warn scope m b)
unfolding warn
warn-IsValid scope m b v = record {
  distinct = v.distinct;
  named = v.named;
  tagged = v.tagged;
  tags = v.tags;
}

fresh_name :
    (used : List (List ℕ)) (y z : Zone)
    → has_text z.name used ≡ false
    → Named used y
    → OtherName y z
fresh_name used y z f n e =
    let g : has_text y.name used ≡ has_text z.name used = ap (λ s. has_text s used) e in cc

new_tag : (t : String) (tags : List String) → has_tag t tags ≡ false → All (OtherTag t) tags
unfolding has_tag
new_tag t [] h = tt
new_tag t (u ∷ us) h = (λ e. absurd (ground (arith, eq_iff u t)), new_tag t us (ground arith))

with_tag : String → List String → List String
unfolding has_tag
with_tag t tags = if has_tag t tags then tags else t ∷ tags

tag_added : (t : String) (tags : List String) → has_tag t (with_tag t tags) ≡ true
unfolding with_tag has_tag
tag_added t tags = ground (arith, eq_iff t t)

tag_kept :
    (s t : String) (tags : List String) → has_tag s tags ≡ true → has_tag s (with_tag t tags) ≡ true
unfolding with_tag has_tag
tag_kept s t tags h = ground arith

tags_distinct :
    (t : String) (tags : List String) → Pairwise OtherTag tags → Pairwise OtherTag (with_tag t tags)
unfolding with_tag
tags_distinct t tags p = elim (Bool-cases (has_tag t tags)) [
  | inl e ↦ rw e p
  | inr e ↦ rw e (new_tag t tags e, p)
]

name_kept :
    (s t : List ℕ) (used : List (List ℕ)) → has_text s used ≡ true → has_text s (t ∷ used) ≡ true
unfolding has_text
name_kept s t used h = ground arith

name_added : (s : List ℕ) (used : List (List ℕ)) → has_text s (s ∷ used) ≡ true
unfolding has_text
name_added s used = let e = same_refl s in ground arith

enter_zone-IsValid :
    (name : List ℕ) (tag scope : String) (m : Matched) (b : Build)
    → IsValid b
    → IsValid (enter_zone name tag m scope b)
unfolding enter_zone zone_of warn with_tag
enter_zone-IsValid name tag scope m b v =
    let free = zone_name name b.used_names in
    let fresh = zone_name-unused name b.used_names in
    let z = zone_of free tag m in
    record {
      distinct = Pairwise-snoc OtherName b.zones z v.distinct (
          All-map {P = Named b.used_names} {Q = λ y. OtherName y z} b.zones
            (λ y n. fresh_name b.used_names y z fresh n) v.named);
      named =
          All-snoc (Named (free ∷ b.used_names)) b.zones z
            (All-map {P = Named b.used_names} {Q = Named (free ∷ b.used_names)} b.zones
              (λ y n. name_kept y.name free b.used_names n) v.named)
            (name_added free b.used_names);
      tagged =
          All-snoc (Tagged (with_tag tag b.used_egress)) b.zones z
            (All-map {P = Tagged b.used_egress} {Q = Tagged (with_tag tag b.used_egress)} b.zones
              (λ y n. tag_kept y.egress_tag tag b.used_egress n) v.tagged)
            (tag_added tag b.used_egress);
      tags = tags_distinct tag b.used_egress v.tags;
    }

pub collect-IsValid : (o : Options) (p : Profile) → IsValid (collect o p)
unfolding collect
collect-IsValid o p =
    let enter =
      λ (name : List ℕ) (tag scope : String) (ss : List (List ℕ)) (src : Option SrcSpec) (b : Build)
          (v : IsValid b).
        enter_zone-IsValid name tag scope _ b v in
    add_lists-kept o p IsValid warn-IsValid enter p.routing_lists _ (
      add_rules-kept o p IsValid warn-IsValid enter p.rules no_build
        (record { distinct = tt; named = tt; tagged = tt; tags = tt }))
