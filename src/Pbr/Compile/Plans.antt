-- ===== src/Pbr/Compile/Plans.antt =====
-- internal/pbr/pbr.go: the plans of `Compile`.
use velinx.Base.{◌≡◌, sym, ap, ◌∙◌, List, [], ◌∷◌, All, All-map, Elem, Option, none, some, map}
use velinx.Go.Sort.{Pairwise, All-sort, Pairwise-sort}
use velinx.Model.{Profile}
use velinx.Pbr.{Egress, Zone, Plan, Options, Warning, with_defaults}
use velinx.Pbr.Zones.{Build}
use velinx.Pbr.Collect.{collect}
use velinx.Pbr.Collect.Valid.{OtherName, Tagged, IsValid, collect-IsValid}
use velinx.Pbr.Compile.{
  compile, compile_for, plan_of, marked, mark_zone, mark_in, zone_before, egresses_of,
}
use velinx.Pbr.Compile.Marks.{
  OtherEgress, egresses_of-OtherEgress, egresses_of-Elem, mark_of_egress,
}

-- The zone carries the mark of the egress with its tag.
abbrev pub Routed : List Egress → Zone → Type 0
Routed es z = (e : Egress) × Elem e es × (e.tag ≡ z.egress_tag) × (z.mark ≡ e.mark)

plan_or : Plan → Option (Plan × List Warning) → Plan
plan_or d none = d
plan_or d (some (q, ws)) = q

pub compile-eq :
    (p : Profile) (o : Options) (plan : Plan) (ws : List Warning)
    → compile (some p) o ≡ some (plan, ws)
    → plan ≡ plan_of (with_defaults o) p (collect (with_defaults o) p)
unfolding compile compile_for plan_or
compile-eq p o plan ws e = ap (plan_or plan) (sym e)

pub All-mark {κ} :
    (es : List Egress) (P : Zone → Type κ) (zs : List Zone)
    → All (λ z. P (mark_zone es z)) zs
    → All P (map (mark_zone es) zs)
All-mark es P [] h = tt
All-mark es P (z ∷ zs) h = (h.0, All-mark es P zs h.1)

All-OtherName :
    (es : List Egress) (y : Zone) (zs : List Zone)
    → All (OtherName y) zs
    → All (OtherName (mark_zone es y)) (map (mark_zone es) zs)
unfolding mark_zone
All-OtherName es y [] h = tt
All-OtherName es y (z ∷ zs) h = (h.0, All-OtherName es y zs h.1)

Pairwise-mark :
    (es : List Egress) (zs : List Zone)
    → Pairwise OtherName zs
    → Pairwise OtherName (map (mark_zone es) zs)
Pairwise-mark es [] h = tt
Pairwise-mark es (z ∷ zs) h = (All-OtherName es z zs h.0, Pairwise-mark es zs h.1)

routed :
    (o : Options) (p : Profile) (b : Build)
    → IsValid b
    → (z : Zone) → Tagged b.used_egress z
    → Routed (egresses_of o p b) (mark_zone (egresses_of o p b) z)
unfolding mark_zone
routed o p b v z t =
    let (e, i, q) = egresses_of-Elem o p b z.egress_tag t in
    (e, i, q, ap (λ s. mark_in 0 (egresses_of o p b) s) (sym q) ∙ mark_of_egress o p b e v.tags i)

-- In every plan that is compiled the zones have different names, the egresses have different tags, and
-- each zone carries the mark of an egress whose tag is the one that the zone routes to.
pub compile-Routed :
    (p : Profile) (o : Options) (plan : Plan) (ws : List Warning)
    → compile (some p) o ≡ some (plan, ws)
    → Pairwise OtherName plan.zones
      × Pairwise OtherEgress plan.egresses
      × All (Routed plan.egresses) plan.zones
unfolding plan_of marked
compile-Routed p o plan ws c =
    let d = with_defaults o in
    let b = collect d p in
    let v = collect-IsValid d p in
    let es = egresses_of d p b in
    rw (compile-eq p o plan ws c) (
      Pairwise-sort zone_before OtherName (λ y z n e. n (sym e)) _
          (Pairwise-mark es b.zones v.distinct),
      egresses_of-OtherEgress d p b v.tags,
      All-sort zone_before (Routed es) _ (
          All-mark es (Routed es) b.zones
            (All-map {P = Tagged b.used_egress} b.zones (routed d p b v) v.tagged)),
    )
