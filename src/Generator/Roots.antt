-- ===== src/Generator/Roots.antt =====
-- internal/generator/singbox.go: when nothing is reached, nothing refers to an outbound of sing-box.
use velinx.Base.{
  ◌≡◌, ◌≢◌, refl, sym, ◌∙◌, ℕ, zero, suc, String, Bool, true, false, List, [], ◌∷◌, ◌||◌, not,
  if◌then◌else◌, length, All, or_false,
}
use velinx.Go.Strings.{is_empty}
use velinx.Model.{Rule, RoutingList, Profile, group_by_id}
use velinx.Pbr.Zones.{has_tag}
use velinx.Generator.{
  canonical_outbound, is_action, add_root, is_dropped_rule, rule_roots, is_dropped_list, list_roots,
  members_of, visit_all, visit_tag,
}

-- A set that tags are added to does not become empty.
Filled : List String → Type 0
Filled ts = is_empty ts ≡ false

visit_all-Filled :
    (go : String → List String → List String)
    → ((t : String) (reach : List String) → Filled reach → Filled (go t reach))
    → (ts reach : List String) → Filled reach
    → Filled (visit_all go ts reach)
unfolding visit_all
visit_all-Filled go h [] reach f = f
visit_all-Filled go h (t ∷ ts) reach f = visit_all-Filled go h ts _ (h t reach f)

either {ℓ} :
    (Q : List String → Type ℓ) (c : Bool) {x y : List String} → Q x → Q y → Q (if c then x else y)
either Q true p q = p
either Q false p q = q

visit_tag-Filled :
    (p : Profile) (n : ℕ) (t : String) (reach : List String)
    → Filled reach
    → Filled (visit_tag p n t reach)
unfolding visit_tag is_empty Filled
visit_tag-Filled p zero t reach f = f
visit_tag-Filled p (suc n) t reach f = either Filled (has_tag t reach) f (
    visit_all-Filled (visit_tag p n) (visit_tag-Filled p n) (members_of (group_by_id p t))
      (t ∷ reach) refl)

pub no_roots :
    (p : Profile) (ts : List String)
    → is_empty (visit_all (visit_tag p (suc (length p.groups))) ts []) ≡ true
    → ts ≡ []
unfolding visit_all visit_tag has_tag is_empty Filled
no_roots p [] h = refl
no_roots p (t ∷ ts) h =
    let n = length p.groups in
    let f = visit_all-Filled (visit_tag p (suc n)) (visit_tag-Filled p (suc n)) ts _ (
      visit_all-Filled (visit_tag p n) (visit_tag-Filled p n) (members_of (group_by_id p t))
        (t ∷ []) refl) in
    absurd (let e = sym h ∙ f in cc)

none_or :
    (c : Bool) {x y : List String} → y ≢ [] → (if c then x else y) ≡ [] → (x ≡ []) × (c ≡ true)
none_or true n h = (h, refl)
none_or false n h = absurd (n h)

root_none :
    (tag : String) (roots : List String)
    → add_root tag roots ≡ []
    → (roots ≡ []) × (is_action (canonical_outbound tag) ≡ true)
unfolding add_root has_tag
root_none tag [] h =
    let (e, k) = none_or (is_action (canonical_outbound tag) || false) (λ q. cc) h in
    (e, or_false (is_action (canonical_outbound tag)) ∙ k)
root_none tag (t ∷ ts) h =
    let (e, k) = none_or (is_action (canonical_outbound tag) || has_tag tag (t ∷ ts)) (λ q. cc) h in
    absurd cc

root_skipped :
    (skip : Bool) (tag : String) (roots : List String)
    → (if skip then roots else add_root tag roots) ≡ []
    → (roots ≡ []) × ((skip || is_action (canonical_outbound tag)) ≡ true)
root_skipped true tag roots h = (h, refl)
root_skipped false tag roots h = root_none tag roots h

pub no_rule_roots :
    (p : Profile) (rs : List Rule) (roots : List String)
    → rule_roots p rs roots ≡ []
    → (roots ≡ [])
      × All
          (λ r.
            ((r.disabled || is_dropped_rule p r) || is_action (canonical_outbound r.outbound))
            ≡ true)
          rs
unfolding rule_roots
no_rule_roots p [] roots h = (h, tt)
no_rule_roots p (r ∷ rs) roots h =
    let (e, hs) = no_rule_roots p rs _ h in
    let (q, k) = root_skipped (r.disabled || is_dropped_rule p r) r.outbound roots e in (q, (k, hs))

pub no_list_roots :
    (p : Profile) (ls : List RoutingList) (roots : List String)
    → list_roots p ls roots ≡ []
    → (roots ≡ [])
      × All
          (λ l.
            ((not l.enabled || is_dropped_list p l) || is_action (canonical_outbound l.outbound))
            ≡ true)
          ls
unfolding list_roots
no_list_roots p [] roots h = (h, tt)
no_list_roots p (l ∷ ls) roots h =
    let (e, hs) = no_list_roots p ls _ h in
    let (q, k) = root_skipped (not l.enabled || is_dropped_list p l) l.outbound roots e in
    (q, (k, hs))
