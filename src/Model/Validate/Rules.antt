-- ===== src/Model/Validate/Rules.antt =====
-- internal/model/validate.go: what the loops over members, rules and routing lists establish.
use velinx.Base.{
  ℕ, ◌+◌, ◌≡◌, ◌≢◌, refl, subst, ◌∙◌, ◌⊎◌, inl, inr, ap, String, Bool, true, false, List, [], ◌∷◌,
  none, ◌=$◌, ◌&&◌, not, if◌then◌else◌, arith, eq_iff, All, in_range, is_some, ℤ,
}
use velinx.Go.Strings.{is_empty, codes}
use velinx.Model.{Group, Rule, RoutingList, outbound_direct, outbound_block}
use velinx.Model.Matchers.{
  rule_has_no_matcher, first_invalid_cidr, first_rejected, mac_accepted, iface_accepted,
  cidr_accepted, first_bad_port, valid_cidr_source, is_builtin,
}
use velinx.Model.Names.{
  Kind, Problem, ok, Names, kind_of, enabled_in, enter, >>=-eq-ok, reject, reject_some, enter-eq-ok,
  reject-eq-ok, reject_some-eq-ok, skips_or, is_resolvable, is_usable,
}
use velinx.Model.Validate.{
  check_member, check_members, check_all_members, check_matchers, check_rule, check_rules,
  check_via, check_list, check_lists,
}
use velinx.Model.Validate.Stage.{Enters, Enters-nil, Enters-cons}

-- A target of a rule or a list: a builtin, or an id that the table of enabled ids holds.
abbrev pub Usable : List (String × Bool) → String → Type 0
Usable en k = (is_builtin k ≡ true) ⊎ (enabled_in k en ≡ true)

abbrev pub MemberSound : Names → Group → String → Type 0
MemberSound n g m =
    (m ≡ outbound_direct)
    ⊎ ((m ≢ outbound_block)
        × (is_some (kind_of m n.ids) ≡ true)
        × (m ≢ g.id)
        × (enabled_in m n.enabled ≡ true))

check_member-Sound :
    (n : Names) (g : Group) (m : String) {u : Unit {0}}
    → check_member n g m ≡ ok u
    → MemberSound n g m
unfolding check_member
check_member-Sound n g m h =
    ground (arith, eq_iff m outbound_direct, eq_iff m outbound_block, eq_iff m g.id)

check_members-All :
    (n : Names) (g : Group) (ms : List String) {u : Unit {0}}
    → check_members n g ms ≡ ok u
    → All (MemberSound n g) ms
unfolding check_members
check_members-All n g [] h = tt
check_members-All n g (m ∷ ms) h =
    let (_, a, b) = >>=-eq-ok (check_member n g m) _ h in
    (check_member-Sound n g m a, check_members-All n g ms b)

pub check_all_members-All :
    (n : Names) (gs : List Group) {u : Unit {0}}
    → check_all_members n gs ≡ ok u
    → All (λ g. All (MemberSound n g) g.members) gs
unfolding check_all_members
check_all_members-All n [] h = tt
check_all_members-All n (g ∷ gs) h =
    let (_, a, b) = >>=-eq-ok (check_members n g g.members) _ h in
    (check_members-All n g g.members a, check_all_members-All n gs b)

first_rejected-none :
    (f : String → Bool) (l : List String) → first_rejected f l ≡ none → All (λ c. f c ≡ true) l
unfolding first_rejected
first_rejected-none f [] h = tt
first_rejected-none f (c ∷ l) h = (ground arith, first_rejected-none f l (ground arith))

first_bad_port-none :
    (l : List ℤ) → first_bad_port l ≡ none → All (λ p. in_range 0 65535 p ≡ true) l
unfolding first_bad_port
first_bad_port-none [] h = tt
first_bad_port-none (p ∷ l) h = (ground arith, first_bad_port-none l (ground arith))

-- The matchers of a rule: there is one, and every entry has the form that sing-box accepts.
pub record MatchersSound (r : Rule) : Type 0 where
  pub some_matcher : rule_has_no_matcher r ≡ false
  pub ip_cidr : All (λ c. cidr_accepted c ≡ true) r.ip_cidr
  pub port : All (λ p. in_range 0 65535 p ≡ true) r.port
  pub source_ip_cidr : All (λ c. cidr_accepted c ≡ true) r.source_ip_cidr
  pub source_port : All (λ p. in_range 0 65535 p ≡ true) r.source_port
  pub source_mac : All (λ c. mac_accepted c ≡ true) r.source_mac
  pub source_iface : All (λ c. iface_accepted c ≡ true) r.source_iface

check_matchers-Sound : (r : Rule) {u : Unit {0}} → check_matchers r ≡ ok u → MatchersSound r
unfolding check_matchers first_invalid_cidr
check_matchers-Sound r h =
    let (_, a, h1) = >>=-eq-ok (reject (rule_has_no_matcher r) (Problem.no_matcher r.id)) _ h in
    let (_, b, h2) =
      >>=-eq-ok (reject_some (first_invalid_cidr r.ip_cidr) (Problem.bad_ip_cidr r.id)) _ h1 in
    let (_, c, h3) = >>=-eq-ok (reject_some (first_bad_port r.port) (Problem.bad_port r.id)) _ h2 in
    let (_, d, h4) =
      >>=-eq-ok
        (reject_some (first_invalid_cidr r.source_ip_cidr) (Problem.bad_source_ip_cidr r.id)) _
        h3 in
    let (_, e, h5) =
      >>=-eq-ok (reject_some (first_bad_port r.source_port) (Problem.bad_source_port r.id)) _ h4 in
    let (_, f, g) =
      >>=-eq-ok
        (reject_some (first_rejected mac_accepted r.source_mac) (Problem.bad_source_mac r.id)) _
        h5 in
    record {
      some_matcher = reject-eq-ok _ _ a;
      ip_cidr = first_rejected-none cidr_accepted r.ip_cidr (reject_some-eq-ok _ _ b);
      port = first_bad_port-none r.port (reject_some-eq-ok _ _ c);
      source_ip_cidr = first_rejected-none cidr_accepted r.source_ip_cidr (reject_some-eq-ok _ _ d);
      source_port = first_bad_port-none r.source_port (reject_some-eq-ok _ _ e);
      source_mac = first_rejected-none mac_accepted r.source_mac (reject_some-eq-ok _ _ f);
      source_iface = first_rejected-none iface_accepted r.source_iface (reject_some-eq-ok _ _ g);
    }

-- A rule that may be generated: it is disabled, or its target is usable and it is the default or
-- has sound matchers.
abbrev pub RuleSound : (String → Type 0) → Rule → Type 0
RuleSound Target r =
    (r.disabled ≡ true) ⊎ (Target r.outbound × ((r.default ≡ true) ⊎ MatchersSound r))

check_rule-Sound :
    (n : Names) (r : Rule) {u : Unit {0}}
    → check_rule n r ≡ ok u
    → Usable n.enabled r.outbound × ((r.default ≡ true) ⊎ MatchersSound r)
unfolding check_rule is_usable
check_rule-Sound n r h =
    let (u, a, h1) = >>=-eq-ok (if r.default then ok tt else check_matchers r) _ h in
    let (_, b, c) =
      >>=-eq-ok
        (reject (not (is_resolvable r.outbound n)) (Problem.outbound_unresolved r.id r.outbound)) _
        h1 in
    (
      ground (arith, reject-eq-ok _ _ c),
      elim (skips_or r.default (check_matchers r) a) [
        | inl p ↦ inl p
        | inr p ↦ inr (check_matchers-Sound r p)
      ],
    )

-- How many rules are the default, of those that are not disabled.
unfoldable pub default_count : List Rule → ℕ
default_count [] = 0
default_count (r ∷ rs) = (if not r.disabled && r.default then 1 else 0) + default_count rs

unfoldable pub rule_ids : List Rule → List String
rule_ids [] = []
rule_ids (r ∷ rs) = r.id ∷ rule_ids rs

pub record RuleStage (rs : List Rule) (d d' : ℕ) (n m : Names) : Type 0 where
  pub entered : Enters Kind.rule (rule_ids rs) n m
  pub same_enabled : m.enabled ≡ n.enabled
  pub sound : All (RuleSound (Usable n.enabled)) rs
  pub counted : d' ≡ d + default_count rs

pub check_rules-RuleStage :
    (rs : List Rule) (d d' : ℕ) (n m : Names)
    → check_rules rs d n ≡ ok (m, d')
    → RuleStage rs d d' n m
unfolding check_rules rule_ids default_count
check_rules-RuleStage [] d d' n m h =
    let same : n ≡ m = ground arith in
    subst (RuleStage [] d d' n) same (record {
      entered = Enters-nil Kind.rule n;
      same_enabled = refl;
      sound = tt;
      counted = ground arith;
    })
check_rules-RuleStage (r ∷ rs) d d' n m h =
    let (n1, a, h1) = >>=-eq-ok (enter Problem.empty_rule_id r.id Kind.rule n) _ h in
    let (u, b, h2) = >>=-eq-ok (if r.disabled then ok tt else check_rule n1 r) _ h1 in
    let (named, fresh, is) = enter-eq-ok Problem.empty_rule_id r.id Kind.rule n n1 a in
    let d1 : ℕ = if not r.disabled && r.default then d + 1 else d in
    let s = check_rules-RuleStage rs d1 d' n1 m h2 in
    let same : n1.enabled ≡ n.enabled = ap (λ x. x.enabled) is in
    record {
      entered =
          Enters-cons Kind.rule r.id n n1 (ap (λ x. x.ids) is) (rule_ids rs) m named fresh
            s.entered;
      same_enabled = s.same_enabled ∙ same;
      sound = (
        elim (skips_or r.disabled (check_rule n1 r) b) [
          | inl p ↦ inl p
          | inr p ↦ inr (
              subst (λ en. Usable en r.outbound × ((r.default ≡ true) ⊎ MatchersSound r)) same
                (check_rule-Sound n1 r p))
        ],
        subst (λ en. All (RuleSound (Usable en)) rs) same s.sound,
      );
      counted = ground (arith, s.counted);
    }

-- A routing list that may be generated: it has content, its CIDR source has a known form, and its
-- targets are usable.
abbrev pub ListSound : (String → Type 0) → RoutingList → Type 0
ListSound Target l =
    ((l.source ≢ "") ⊎ ((l.manual ≢ []) ⊎ ((l.cidr_source ≢ "") ⊎ (l.cidr_cache ≢ []))))
    × ((l.cidr_source ≡ "") ⊎ (valid_cidr_source (codes l.cidr_source) ≡ true))
    × Target l.outbound
    × ((l.download_via ≡ "") ⊎ Target l.download_via)

unfoldable pub list_ids : List RoutingList → List String
list_ids [] = []
list_ids (l ∷ ls) = l.id ∷ list_ids ls

abbrev no_content : RoutingList → Bool
no_content l = l.source =$ "" && is_empty l.manual && l.cidr_source =$ "" && is_empty l.cidr_cache

abbrev bad_source : RoutingList → Bool
bad_source l = not (l.cidr_source =$ "") && not (valid_cidr_source (codes l.cidr_source))

content_cases :
    (l : RoutingList)
    → no_content l ≡ false
    → (l.source ≢ "") ⊎ ((l.manual ≢ []) ⊎ ((l.cidr_source ≢ "") ⊎ (l.cidr_cache ≢ [])))
unfolding is_empty
content_cases l h = ground (arith, eq_iff l.source "", eq_iff l.cidr_source "")

check_via-Usable :
    (n : Names) (l : RoutingList) {u : Unit {0}}
    → check_via n l ≡ ok u
    → (l.download_via ≡ "") ⊎ Usable n.enabled l.download_via
unfolding check_via is_usable
check_via-Usable n l h = ground (arith, eq_iff l.download_via "")

check_list-Sound :
    (n : Names) (l : RoutingList) {u : Unit {0}}
    → check_list n l ≡ ok u
    → ListSound (Usable n.enabled) l
unfolding check_list is_usable
check_list-Sound n l h =
    let (_, a, h1) = >>=-eq-ok (reject (no_content l) (Problem.no_content l.id)) _ h in
    let (_, b, h2) =
      >>=-eq-ok (reject (bad_source l) (Problem.bad_cidr_source l.id l.cidr_source)) _ h1 in
    let (_, c, h3) =
      >>=-eq-ok
        (reject (not (is_resolvable l.outbound n))
          (Problem.list_outbound_unresolved l.id l.outbound))
        _ h2 in
    let (_, d, e) =
      >>=-eq-ok
        (reject (not (is_usable l.outbound n)) (Problem.list_outbound_disabled l.id l.outbound)) _
        h3 in
    (
      content_cases l (reject-eq-ok (no_content l) (Problem.no_content l.id) a),
      ground (
        arith,
        reject-eq-ok (bad_source l) (Problem.bad_cidr_source l.id l.cidr_source) b,
        eq_iff l.cidr_source "",
      ),
      ground (
        arith,
        reject-eq-ok (not (is_usable l.outbound n)) (Problem.list_outbound_disabled l.id l.outbound)
            d,
      ),
      check_via-Usable n l e,
    )

pub record ListStage (ls : List RoutingList) (n m : Names) : Type 0 where
  pub entered : Enters Kind.routing_list (list_ids ls) n m
  pub sound : All (ListSound (Usable n.enabled)) ls

pub check_lists-ListStage :
    (ls : List RoutingList) (n m : Names) → check_lists ls n ≡ ok m → ListStage ls n m
unfolding check_lists list_ids
check_lists-ListStage [] n m h =
    let same : n ≡ m = ground arith in
    subst (ListStage [] n) same (record { entered = Enters-nil Kind.routing_list n; sound = tt })
check_lists-ListStage (l ∷ ls) n m h =
    let (n1, a, h1) =
      >>=-eq-ok (enter (Problem.empty_list_id l.name) l.id Kind.routing_list n) _ h in
    let (u, b, h2) = >>=-eq-ok (check_list n1 l) _ h1 in
    let (named, fresh, is) =
      enter-eq-ok (Problem.empty_list_id l.name) l.id Kind.routing_list n n1 a in
    let s = check_lists-ListStage ls n1 m h2 in
    let same : n1.enabled ≡ n.enabled = ap (λ x. x.enabled) is in
    record {
      entered =
          Enters-cons Kind.routing_list l.id n n1 (ap (λ x. x.ids) is) (list_ids ls) m named fresh
            s.entered;
      sound = (
        subst (λ en. ListSound (Usable en) l) same (check_list-Sound n1 l b),
        subst (λ en. All (ListSound (Usable en)) ls) same s.sound,
      );
    }
