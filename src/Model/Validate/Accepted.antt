-- ===== src/Model/Validate/Accepted.antt =====
-- internal/model/validate.go: what a profile that `Validate` accepts is like, said of the profile alone,
-- and what the cycle problem means.
use velinx.Base.{
  ◌≤◌, ◌≡◌, ◌≢◌, ◌⊎◌, inl, inr, String, true, List, [], ◌++◌, Option, some, arith, Bool-cases, All,
}
use velinx.Model.{Group, Profile, outbound_direct, outbound_block}
use velinx.Model.Matchers.{is_builtin}
use velinx.Model.Names.{Kind, Names, kind_of}
use velinx.Model.Cycle.{is_group, group_ids, In, Reaches}
use velinx.Model.Validate.Stage.{Distinct}
use velinx.Model.Validate.Endpoints.{
  endpoint_ids, IsSound, any_enabled, any_group, HasMembers, EndpointStage, GroupStage,
}
use velinx.Model.Validate.Rules.{RuleSound, ListSound, default_count, rule_ids, list_ids}
use velinx.Model.Validate.Nesting.{nested, any_group-In, In-any_group}

unfoldable pub all_ids : Profile → List String
all_ids p =
    endpoint_ids p.endpoints
    ++ (group_ids p.groups ++ (rule_ids p.rules ++ list_ids p.routing_lists))

-- A target that the generator can emit: a builtin, an enabled endpoint or a group.
abbrev pub Emitted : Profile → String → Type 0
Emitted p k =
    (is_builtin k ≡ true) ⊎ ((any_enabled k p.endpoints ≡ true) ⊎ (any_group k p.groups ≡ true))

abbrev pub MemberAccepted : Profile → Group → String → Type 0
MemberAccepted p g m =
    (m ≡ outbound_direct)
    ⊎ ((m ≢ outbound_block)
        × (m ≢ g.id)
        × ((any_enabled m p.endpoints ≡ true) ⊎ (any_group m p.groups ≡ true)))

-- What `Validate` promises of a profile.
pub record Accepted (p : Profile) : Type 0 where
  pub ids_named : (k : String) → In k (all_ids p) → k ≢ ""
  pub ids_distinct : Distinct (all_ids p)
  pub endpoints : All IsSound p.endpoints
  pub groups : All HasMembers p.groups
  pub members : All (λ g. All (MemberAccepted p g) g.members) p.groups
  pub acyclic : (k : String) → ¬ Reaches (nested p.groups p.groups) k k
  pub rules : All (RuleSound (Emitted p)) p.rules
  pub one_default : default_count p.rules ≤ 1
  pub lists : All (ListSound (Emitted p)) p.routing_lists

abbrev pub no_names : Names
no_names = record { ids = []; enabled = [] }

-- What the loops over endpoints and groups say of the tables that they leave.
module _ (p : Profile) (es gs : Names) (s1 : EndpointStage p.endpoints no_names es)
    (s2 : GroupStage p.groups es gs) where
  group_named : (k : String) → kind_of k gs.ids ≡ some Kind.group → any_group k p.groups ≡ true
  unfolding kind_of
  group_named k h = elim (s2.entered.only k Kind.group h) [
    | inl q ↦ elim (s1.entered.only k Kind.group q) [
      | inl r ↦ absurd (cc)
      | inr (_, r) ↦ absurd (cc)
    ]
    | inr (i, _) ↦ In-any_group k p.groups i
  ]

  pub groups_agree : (k : String) → is_group (kind_of k gs.ids) ≡ any_group k p.groups
  groups_agree k = elim (Bool-cases (any_group k p.groups)) [
    | inl q ↦ rw (s2.entered.added k (any_group-In k p.groups q), q)
    | inr q ↦ elim (Bool-cases (is_group (kind_of k gs.ids))) [
      | inl r ↦ absurd (let t = group_named k (group_kind (kind_of k gs.ids) r) in cc)
      | inr r ↦ rw (q, r)
    ]
  ]
    where
      group_kind : (o : Option Kind) → is_group o ≡ true → o ≡ some Kind.group
      group_kind o h = ground arith
