-- ===== src/Model/Validate/Problems.antt =====
-- internal/model/validate.go: the problems that the search for cycles reports.
use velinx.Base.{
  ℕ, ◌+◌, ◌≡◌, refl, ◌⊎◌, inl, inr, String, Bool, true, false, List, [], ◌∷◌, not, ◌&&◌,
  if◌then◌else◌, ltb, arith,
}
use velinx.Go.Strings.{is_empty}
use velinx.Model.{Endpoint, Group, Rule, RoutingList, Profile}
use velinx.Model.Names.{
  Kind, Problem, Check, ok, err, ◌>>=◌, ◌>>◌, reject, Names, kind_of, enter, enable,
}
use velinx.Model.Cycle.{is_group, search_groups, In, Reaches}
use velinx.Model.Cycle.Finish.{Search-cases}
use velinx.Model.Validate.{
  check_endpoint, check_endpoints, check_groups, check_member, check_members, check_all_members,
  check_cycles, check_matchers, check_rule, check_rules, check_list, check_lists, of_search,
  validate,
}
use velinx.Model.Validate.Endpoints.{
  any_group, check_endpoints-EndpointStage, check_groups-GroupStage,
}
use velinx.Model.Validate.Nesting.{nested, search_groups_reports, search_groups_fuel}
use velinx.Model.Validate.Accepted.{no_names, groups_agree}

-- The two problems that only the search can report.
abbrev pub from_search : Problem → Bool
from_search (Problem.cycle a b) = true
from_search Problem.out_of_fuel = true
from_search _ = false

>>=-eq-err {ℓ κ} :
    {A : Type ℓ} {B : Type κ} (m : Check A) (f : A → Check B) {e : Problem}
    → (m >>= f) ≡ err e
    → (m ≡ err e) ⊎ ((a : A) × (m ≡ ok a) × (f a ≡ err e))
>>=-eq-err (ok a) f h = inr (a, refl, h)
>>=-eq-err (err x) f h = inl (ground arith)

-- A check that reports no problem of the search.
abbrev Local {ℓ} : {A : Type ℓ} → Check A → Type ℓ
Local m = (e : Problem) → m ≡ err e → from_search e ≡ false

Local-bind {ℓ κ} :
    {A : Type ℓ} {B : Type κ} (m : Check A) (f : A → Check B)
    → Local m
    → ((a : A) → Local (f a))
    → Local (m >>= f)
Local-bind m f h k e q = elim (>>=-eq-err m f q) [ inl p ↦ h e p | inr (a, _, p) ↦ k a e p ]

enter-Local :
    (p : Problem) (k : String) (v : Kind) (n : Names)
    → from_search p ≡ false
    → Local (enter p k v n)
unfolding enter
enter-Local p k v n h e q = ground arith

check_endpoint-Local : (x : Endpoint) → Local (check_endpoint x)
unfolding check_endpoint
check_endpoint-Local x e q = ground arith

check_endpoints-Local : (es : List Endpoint) (n : Names) → Local (check_endpoints es n)
unfolding check_endpoints
check_endpoints-Local [] n = λ e q. cc
check_endpoints-Local (x ∷ es) n =
    Local-bind (enter (Problem.empty_endpoint_id x.name) x.id Kind.endpoint n) _
      (enter-Local _ x.id Kind.endpoint n refl)
      (λ m.
        Local-bind (check_endpoint x) _ (check_endpoint-Local x)
          (λ u. check_endpoints-Local es (enable x.id x.enabled m)))

check_groups-Local : (gs : List Group) (n : Names) → Local (check_groups gs n)
unfolding check_groups
check_groups-Local [] n = λ e q. cc
check_groups-Local (g ∷ gs) n =
    Local-bind (enter (Problem.empty_group_id g.name) g.id Kind.group n) _
      (enter-Local _ g.id Kind.group n refl)
      (λ m.
        Local-bind (reject (is_empty g.members) (Problem.no_members g.id)) _ (λ e q. ground arith)
          (λ u. check_groups-Local gs (enable g.id true m)))

check_member-Local : (n : Names) (g : Group) (m : String) → Local (check_member n g m)
unfolding check_member
check_member-Local n g m e q = ground arith

check_members-Local : (n : Names) (g : Group) (ms : List String) → Local (check_members n g ms)
unfolding check_members
check_members-Local n g [] = λ e q. cc
check_members-Local n g (m ∷ ms) =
    Local-bind (check_member n g m) _ (check_member-Local n g m) (λ u. check_members-Local n g ms)

check_all_members-Local : (n : Names) (gs : List Group) → Local (check_all_members n gs)
unfolding check_all_members
check_all_members-Local n [] = λ e q. cc
check_all_members-Local n (g ∷ gs) =
    Local-bind (check_members n g g.members) _ (check_members-Local n g g.members)
      (λ u. check_all_members-Local n gs)

check_matchers-Local : (r : Rule) → Local (check_matchers r)
unfolding check_matchers
check_matchers-Local r e q = ground arith

check_rule-Local : (n : Names) (r : Rule) → Local (if r.disabled then ok tt else check_rule n r)
unfolding check_rule
check_rule-Local n r e q = ground (arith, check_matchers-Local r e)

check_rules-Local : (rs : List Rule) (d : ℕ) (n : Names) → Local (check_rules rs d n)
unfolding check_rules
check_rules-Local [] d n = λ e q. cc
check_rules-Local (r ∷ rs) d n =
    Local-bind (enter Problem.empty_rule_id r.id Kind.rule n) _
      (enter-Local _ r.id Kind.rule n refl)
      (λ m.
        Local-bind (if r.disabled then ok tt else check_rule m r) _ (check_rule-Local m r)
          (λ u. check_rules-Local rs (if not r.disabled && r.default then d + 1 else d) m))

check_list-Local : (n : Names) (l : RoutingList) → Local (check_list n l)
unfolding check_list
check_list-Local n l e q = ground arith

check_lists-Local : (ls : List RoutingList) (n : Names) → Local (check_lists ls n)
unfolding check_lists
check_lists-Local [] n = λ e q. cc
check_lists-Local (l ∷ ls) n =
    Local-bind (enter (Problem.empty_list_id l.name) l.id Kind.routing_list n) _
      (enter-Local _ l.id Kind.routing_list n refl)
      (λ m. Local-bind (check_list m l) _ (check_list-Local m l) (λ u. check_lists-Local ls m))

abbrev pub RealCycle : Profile → Problem → Type 0
RealCycle p e =
    (a b : String) × (e ≡ Problem.cycle a b)
    × In b (nested p.groups p.groups a)
    × Reaches (nested p.groups p.groups) b b

-- The stages after the search.
rest-Local :
    (p : Profile) (gs : Names)
    → Local (
        check_rules p.rules 0 gs >>= λ t.
        reject (ltb 1 t.1) (Problem.many_defaults t.1) >> check_lists p.routing_lists t.0)
rest-Local p gs = Local-bind (check_rules p.rules 0 gs) _ (check_rules-Local p.rules 0 gs) (λ t.
    Local-bind (reject (ltb 1 t.1) (Problem.many_defaults t.1)) _ (λ e q. ground arith)
      (λ u. check_lists-Local p.routing_lists t.0))

-- The problem of the search stage is a cycle of the profile.
cycles-RealCycle :
    (p : Profile) (gs : Names) (e : Problem)
    → ((k : String) → is_group (kind_of k gs.ids) ≡ any_group k p.groups)
    → check_cycles gs p.groups ≡ err e
    → RealCycle p e
unfolding check_cycles
cycles-RealCycle p gs e same h = elim (Search-cases (search_groups gs.ids p.groups)) [
  | inl (c, q) ↦ absurd (let t = rw (q, of_search) at h in cc)
  | inr (inl (a, b, q)) ↦
      let t : err (Problem.cycle a b) ≡ err e = rw (q, of_search) at h in
      let (edge, loop) = search_groups_reports gs.ids p.groups same q in
      (a, b, ground arith, edge, loop)
  | inr (inr q) ↦ absurd (search_groups_fuel gs.ids p.groups same q)
]

-- A problem of the search for cycles that `Validate` reports is never the end of its fuel: it is a
-- cycle problem whose second group stands directly in the first and holds itself, directly or
-- through others.
pub validate-RealCycle :
    (p : Profile) (e : Problem) → validate p ≡ err e → from_search e ≡ true → RealCycle p e
unfolding validate
validate-RealCycle p e h s = elim (>>=-eq-err (check_endpoints p.endpoints no_names) _ h) [
  | inl q ↦ absurd (let t = check_endpoints-Local p.endpoints no_names e q in cc)
  | inr (es, a, h1) ↦ elim (>>=-eq-err (check_groups p.groups es) _ h1) [
    | inl q ↦ absurd (let t = check_groups-Local p.groups es e q in cc)
    | inr (gs, b, h2) ↦ elim (>>=-eq-err (check_all_members gs p.groups) _ h2) [
      | inl q ↦ absurd (let t = check_all_members-Local gs p.groups e q in cc)
      | inr (_, c, h3) ↦ elim (>>=-eq-err (check_cycles gs p.groups) _ h3) [
        | inl q ↦
            cycles-RealCycle p gs e
              (groups_agree p es gs (check_endpoints-EndpointStage p.endpoints no_names es a)
                (check_groups-GroupStage p.groups es gs b))
              q
        | inr (_, d, h4) ↦ absurd (let t = rest-Local p gs e h4 in cc)
      ]
    ]
  ]
]
