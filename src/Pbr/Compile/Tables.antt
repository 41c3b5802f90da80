-- ===== src/Pbr/Compile/Tables.antt =====
-- internal/pbr/pbr.go: how the marks and the routing tables of a plan tell its egresses apart.
use velinx.Base.{
  ◌≡◌, ◌≢◌, refl, sym, ap, subst, arith, String, List, [], ◌∷◌, ℕ, suc, ◌+◌, ◌*◌, ◌%◌, ◌^◌, ◌-◌,
  ◌<◌, ◌≤◌, ◌==◌, All, Elem, length, drop, some, inl, inr, Bool-cases,
}
use velinx.Go.Sort.{Pairwise}
use velinx.Model.{Profile}
use velinx.Pbr.{Egress, Plan, Options, Warning, with_defaults}
use velinx.Pbr.Zones.{Build}
use velinx.Pbr.Collect.{collect}
use velinx.Pbr.Compile.{
  compile, plan_of, egresses_of, other_egress, other_egresses, other_tags, wan_egress,
}
use velinx.Pbr.Compile.Plans.{compile-eq}

-- A smaller mark, and another table.
abbrev pub Apart : Egress → Egress → Type 0
Apart e f = (e.mark < f.mark) × (e.table ≢ f.table)

wrap_small : (n : ℕ) → n < 2 ^ 32 → n % 2 ^ 32 ≡ n
wrap_small n h = omega arith

module _ (o : Options) (p : Profile) (step : 0 < o.mark_step) where
  length-other_egresses : (i : ℕ) (ts : List String) → length (other_egresses o p i ts) ≡ length ts
  unfolding other_egresses
  length-other_egresses i [] = refl
  length-other_egresses i (t ∷ ts) = ap suc (length-other_egresses (i + 1) ts)

  -- Without wrapping, the mark of the `i`-th of the other egresses.
  mark_of_other :
      (i : ℕ) (t : String)
      → (i + 2) * o.mark_step < 2 ^ 32
      → (other_egress o p i t).mark ≡ (i + 2) * o.mark_step
  unfolding other_egress
  mark_of_other i t h =
      let small : i + 2 < 2 ^ 32 = grind arith in
      let e : (i + 2) % 2 ^ 32 ≡ i + 2 = omega arith in
      let f : (i + 2) * o.mark_step % 2 ^ 32 ≡ (i + 2) * o.mark_step = wrap_small _ h in
      rw (e, f) refl

  other_egresses-Above :
      (f : Egress) (i : ℕ) (ts : List String)
      → f.mark < (i + 2) * o.mark_step
      → ((n : ℕ) → i ≤ n → n < i + length ts → f.table ≢ o.table_base + n)
      → (i + length ts + 1) * o.mark_step < 2 ^ 32
      → All (Apart f) (other_egresses o p i ts)
  unfolding other_egresses other_egress
  other_egresses-Above f i [] m u k = tt
  other_egresses-Above f i (t ∷ ts) m u k =
      let own : (i + 2) * o.mark_step < 2 ^ 32 = grind arith in
      (
        (subst (λ n. f.mark < n) (sym (mark_of_other i t own)) m, u i (omega arith) (omega arith)),
        other_egresses-Above f (i + 1) ts (grind arith) (λ n a b. u n (omega arith) (omega arith))
            (let q : (i + 1) + length ts + 1 ≡ i + suc (length ts) + 1 = omega arith in rw q k),
      )

  other_egresses-Apart :
      (i : ℕ) (ts : List String)
      → (i + length ts + 1) * o.mark_step < 2 ^ 32
      → Pairwise Apart (other_egresses o p i ts)
  unfolding other_egresses other_egress
  other_egresses-Apart i [] k = tt
  other_egresses-Apart i (t ∷ ts) k =
      let own : (i + 2) * o.mark_step < 2 ^ 32 = grind arith in
      let q : (i + 1) + length ts + 1 ≡ i + suc (length ts) + 1 = omega arith in
      let k' : ((i + 1) + length ts + 1) * o.mark_step < 2 ^ 32 = rw q k in
      (
        other_egresses-Above (other_egress o p i t) (i + 1) ts
            (rw (mark_of_other i t own) (grind arith)) (λ n a b e. omega arith) k',
        other_egresses-Apart (i + 1) ts k',
      )

  -- One of the other egresses has the table of any number from the base on that there are tags for.
  other_egresses-table :
      (i n : ℕ) (ts : List String)
      → i ≤ n
      → n < i + length ts
      → (e : Egress) × Elem e (other_egresses o p i ts) × (e.table ≡ o.table_base + n)
  unfolding other_egresses other_egress
  other_egresses-table i n [] a b = absurd (omega arith)
  other_egresses-table i n (t ∷ ts) a b = elim (Bool-cases (i == n)) [
    | inl q ↦ (other_egress o p i t, inl refl, ground arith)
    | inr q ↦
        let (e, j, r) = other_egresses-table (i + 1) n ts (ground arith) (omega arith) in
        (e, inr j, r)
  ]

mark_step-positive : (o : Options) → 0 < (with_defaults o).mark_step
unfolding with_defaults
mark_step-positive o = ground arith

apart :
    (o : Options) (p : Profile) (b : Build)
    → 0 < o.mark_step
    → length (plan_of o p b).egresses * o.mark_step < 2 ^ 32
    → o.table_base + length (plan_of o p b).egresses ≤ o.wan_table + 1
    → Pairwise Apart (plan_of o p b).egresses
unfolding plan_of egresses_of
apart o p b s m t =
    let ts = other_tags b in
    let l = length-other_egresses o p s 0 ts in
    let k : (0 + length ts + 1) * o.mark_step < 2 ^ 32 =
      subst (λ n. n * o.mark_step < 2 ^ 32) (omega (arith, l)) m in
    (
      other_egresses-Above o p s (wan_egress o) 0 ts (grind arith) (λ n a c. omega (arith, l, t)) k,
      other_egresses-Apart o p s 0 ts k,
    )

taken :
    (o : Options) (p : Profile) (b : Build)
    → 0 < o.mark_step
    → o.table_base ≤ o.wan_table
    → o.wan_table + 1 < o.table_base + length (plan_of o p b).egresses
    → (e : Egress) × Elem e (drop 1 (plan_of o p b).egresses) × (e.table ≡ o.wan_table)
unfolding plan_of egresses_of
taken o p b s a c =
    let ts = other_tags b in
    let l = length-other_egresses o p s 0 ts in
    let (e, i, q) =
      other_egresses-table o p s 0 (o.wan_table - o.table_base) ts (omega arith)
        (omega (arith, l, c)) in
    (e, i, omega (arith, q))

-- While the marks fit into 32 bits and the tables end before that of the WAN, the marks of a plan
-- strictly increase and no two egresses have the same routing table.
pub compile-Apart :
    (p : Profile) (o : Options) (plan : Plan) (ws : List Warning)
    → compile (some p) o ≡ some (plan, ws)
    → length plan.egresses * (with_defaults o).mark_step < 2 ^ 32
    → (with_defaults o).table_base + length plan.egresses ≤ (with_defaults o).wan_table + 1
    → Pairwise Apart plan.egresses
compile-Apart p o plan ws c m t =
    let e = compile-eq p o plan ws c in
    rw e (
      apart (with_defaults o) p (collect (with_defaults o) p) (mark_step-positive o)
        (subst (λ q. length q.egresses * (with_defaults o).mark_step < 2 ^ 32) e m)
        (subst
          (λ q. (with_defaults o).table_base + length q.egresses ≤ (with_defaults o).wan_table + 1)
          e t))

-- The numbers of routing tables have no bound: when there are enough other egresses that the numbers reach
-- the table of the WAN, one of them has this table as its own.
pub compile-takes_wan_table :
    (p : Profile) (o : Options) (plan : Plan) (ws : List Warning)
    → compile (some p) o ≡ some (plan, ws)
    → (with_defaults o).table_base ≤ (with_defaults o).wan_table
    → (with_defaults o).wan_table + 1 < (with_defaults o).table_base + length plan.egresses
    → (e : Egress) × Elem e (drop 1 plan.egresses) × (e.table ≡ (with_defaults o).wan_table)
compile-takes_wan_table p o plan ws c a b =
    let e = compile-eq p o plan ws c in
    rw e (
      taken (with_defaults o) p (collect (with_defaults o) p) (mark_step-positive o) a (
        subst
          (λ q. (with_defaults o).wan_table + 1 < (with_defaults o).table_base + length q.egresses)
          e b))
