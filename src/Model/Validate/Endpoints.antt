-- ===== src/Model/Validate/Endpoints.antt =====
-- internal/model/validate.go: what the loops over endpoints and over groups establish.
use velinx.Base.{
  ◌≡◌, ◌≢◌, subst, ◌⊎◌, inl, inr, ap, String, Bool, true, false, List, [], ◌∷◌, none, ◌=$◌, ◌&&◌,
  ◌||◌, arith, eq_iff, Bool-cases, All, in_range,
}
use velinx.Go.Strings.{is_empty}
use velinx.Model.{Endpoint, Group, engine_external}
use velinx.Model.Params.{param, missing_proto_param, invalid_proto_param}
use velinx.Model.Names.{
  Kind, Problem, ok, Names, enabled_in, enter, enable, >>=-eq-ok, reject, enter-eq-ok, reject-eq-ok,
}
use velinx.Model.Cycle.{group_ids}
use velinx.Model.Validate.{unset_or_in, check_endpoint, check_endpoints, check_groups}
use velinx.Model.Validate.Stage.{Enters, Enters-nil, Enters-cons}

unfoldable pub endpoint_ids : List Endpoint → List String
endpoint_ids [] = []
endpoint_ids (e ∷ es) = e.id ∷ endpoint_ids es

-- An endpoint that may be generated: its tunables are unset or in range; an external one names its
-- interface, and any other has a server, a port, a protocol and, if it is enabled, the fields that
-- its protocol needs, with values that sing-box accepts.
abbrev pub IsSound : Endpoint → Type 0
IsSound e =
    (unset_or_in 576 9200 e.mtu ≡ true)
    × (unset_or_in 1 65535 e.persistent_keepalive ≡ true)
    × (((e.engine ≡ engine_external) × (is_empty (param e "interface") ≡ false))
        ⊎ ((e.server ≢ "")
            × (in_range 1 65535 e.port ≡ true)
            × (e.protocol ≢ "")
            × ((e.enabled ≡ false)
                ⊎ ((missing_proto_param e ≡ none) × (invalid_proto_param e ≡ none)))))

check_endpoint-IsSound : (e : Endpoint) {u : Unit {0}} → check_endpoint e ≡ ok u → IsSound e
unfolding check_endpoint
check_endpoint-IsSound e h =
    ground (arith, eq_iff e.engine engine_external, eq_iff e.server "", eq_iff e.protocol "")

-- Whether an enabled endpoint has the id.
unfoldable pub any_enabled : String → List Endpoint → Bool
any_enabled k [] = false
any_enabled k (e ∷ es) = (e.id =$ k && e.enabled) || any_enabled k es

pub record EndpointStage (es : List Endpoint) (n m : Names) : Type 0 where
  pub entered : Enters Kind.endpoint (endpoint_ids es) n m
  pub sound : All IsSound es
  pub usable :
      (k : String)
      → enabled_in k m.enabled ≡ true
      → (enabled_in k n.enabled ≡ true) ⊎ (any_enabled k es ≡ true)

pub check_endpoints-EndpointStage :
    (es : List Endpoint) (n m : Names) → check_endpoints es n ≡ ok m → EndpointStage es n m
unfolding check_endpoints endpoint_ids any_enabled enabled_in
check_endpoints-EndpointStage [] n m h =
    let same : n ≡ m = ground arith in
    subst (EndpointStage [] n) same
      (record { entered = Enters-nil Kind.endpoint n; sound = tt; usable = λ k h. inl h })
check_endpoints-EndpointStage (e ∷ es) n m h =
    let (n1, a, h1) =
      >>=-eq-ok (enter (Problem.empty_endpoint_id e.name) e.id Kind.endpoint n) _ h in
    let (u, b, h2) = >>=-eq-ok (check_endpoint e) _ h1 in
    let (named, fresh, is) =
      enter-eq-ok (Problem.empty_endpoint_id e.name) e.id Kind.endpoint n n1 a in
    let s = check_endpoints-EndpointStage es (enable e.id e.enabled n1) m h2 in
    record {
      entered =
          Enters-cons Kind.endpoint e.id n (enable e.id e.enabled n1) (ap (λ x. x.ids) is)
            (endpoint_ids es) m named fresh s.entered;
      sound = (check_endpoint-IsSound e b, s.sound);
      usable = λ k p. usable_from n1 k (ap (λ x. x.enabled) is) (s.usable k p);
    }
  where
    usable_from :
        (n2 : Names) (k : String)
        → n2.enabled ≡ n.enabled
        → (enabled_in k (enable e.id e.enabled n2).enabled ≡ true) ⊎ (any_enabled k es ≡ true)
        → (enabled_in k n.enabled ≡ true) ⊎ (any_enabled k (e ∷ es) ≡ true)
    usable_from n2 k q (inr p) = inr (ground arith)
    usable_from n2 k q (inl p) = elim (Bool-cases (e.id =$ k)) [
      | inl same ↦ inr (ground arith)
      | inr other ↦ inl (ground arith)
    ]

unfoldable pub any_group : String → List Group → Bool
any_group k [] = false
any_group k (g ∷ gs) = g.id =$ k || any_group k gs

abbrev pub HasMembers : Group → Type 0
HasMembers g = g.members ≢ []

pub record GroupStage (gs : List Group) (n m : Names) : Type 0 where
  pub entered : Enters Kind.group (group_ids gs) n m
  pub peopled : All HasMembers gs
  pub usable :
      (k : String)
      → enabled_in k m.enabled ≡ true
      → (enabled_in k n.enabled ≡ true) ⊎ (any_group k gs ≡ true)

not_empty {ℓ} : {A : Type ℓ} (l : List A) → is_empty l ≡ false → l ≢ []
unfolding is_empty
not_empty [] h = cc
not_empty (x ∷ l) h = λ e. cc

pub check_groups-GroupStage :
    (gs : List Group) (n m : Names) → check_groups gs n ≡ ok m → GroupStage gs n m
unfolding check_groups group_ids any_group enabled_in
check_groups-GroupStage [] n m h =
    let same : n ≡ m = ground arith in
    subst (GroupStage [] n) same
      (record { entered = Enters-nil Kind.group n; peopled = tt; usable = λ k h. inl h })
check_groups-GroupStage (g ∷ gs) n m h =
    let (n1, a, h1) = >>=-eq-ok (enter (Problem.empty_group_id g.name) g.id Kind.group n) _ h in
    let (u, b, h2) = >>=-eq-ok (reject (is_empty g.members) (Problem.no_members g.id)) _ h1 in
    let (named, fresh, is) = enter-eq-ok (Problem.empty_group_id g.name) g.id Kind.group n n1 a in
    let s = check_groups-GroupStage gs (enable g.id true n1) m h2 in
    record {
      entered =
          Enters-cons Kind.group g.id n (enable g.id true n1) (ap (λ x. x.ids) is) (group_ids gs) m
            named fresh s.entered;
      peopled = (
        not_empty g.members (reject-eq-ok (is_empty g.members) (Problem.no_members g.id) b),
        s.peopled,
      );
      usable = λ k p. usable_from n1 k (ap (λ x. x.enabled) is) (s.usable k p);
    }
  where
    usable_from :
        (n2 : Names) (k : String)
        → n2.enabled ≡ n.enabled
        → (enabled_in k (enable g.id true n2).enabled ≡ true) ⊎ (any_group k gs ≡ true)
        → (enabled_in k n.enabled ≡ true) ⊎ (any_group k (g ∷ gs) ≡ true)
    usable_from n2 k q (inr p) = inr (ground arith)
    usable_from n2 k q (inl p) = elim (Bool-cases (g.id =$ k)) [
      | inl same ↦ inr (ground arith)
      | inr other ↦ inl (ground arith)
    ]
