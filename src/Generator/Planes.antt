-- ===== src/Generator/Planes.antt =====
-- internal/generator/singbox.go and internal/pbr/pbr.go: both planes agree on what the kernel carries.
use velinx.Base.{
  ◌≡◌, refl, ap, sym, ◌∙◌, String, Bool, true, false, List, [], ◌∷◌, ◌||◌, not, ◌=$◌, if◌then◌else◌,
  Option, none, some, ℕ,
}
use velinx.Go.Strings.{is_empty}
use velinx.Model.{
  Endpoint, Group, Profile, endpoint_by_id, group_by_id, outbound_direct, outbound_block,
}
use velinx.Pbr.{EgressKind, wan, interface, blackhole, unset}
use velinx.Pbr.Resolve.{
  Resolved, kernel_iface, endpoint_iface, first_iface, resolve_endpoint, resolve_group,
  resolve_egress,
}
use velinx.Generator.{is_action, is_kernel, any_kernel, kernel_group, kernel_target, kernel_egress}

abbrev pub is_interface : EgressKind → Bool
is_interface interface = true
is_interface wan = false
is_interface blackhole = false
is_interface unset = false

endpoint_iface-is_kernel : (e : Option Endpoint) → is_kernel e ≡ not (is_empty (endpoint_iface e))
unfolding is_kernel endpoint_iface is_empty
endpoint_iface-is_kernel none = refl
endpoint_iface-is_kernel (some e) = refl

first_of :
    (i rest : List ℕ)
    → (not (is_empty i) || not (is_empty rest)) ≡ not (is_empty (if is_empty i then rest else i))
unfolding is_empty
first_of [] rest = refl
first_of (c ∷ i) rest = refl

first_iface-any_kernel :
    (p : Profile) (ms : List String) → any_kernel p ms ≡ not (is_empty (first_iface p ms))
unfolding any_kernel first_iface is_empty
first_iface-any_kernel p [] = refl
first_iface-any_kernel p (m ∷ ms) =
    let i = endpoint_iface (endpoint_by_id p m) in
    ap (λ k. k || any_kernel p ms) (endpoint_iface-is_kernel (endpoint_by_id p m))
    ∙ ap (λ k. not (is_empty i) || k) (first_iface-any_kernel p ms)
    ∙ first_of i (first_iface p ms)

either_kind :
    (i : List ℕ) (a b : Resolved)
    → is_interface a.kind ≡ false
    → is_interface b.kind ≡ true
    → not (is_empty i) ≡ is_interface (if is_empty i then a else b).kind
unfolding is_empty
either_kind [] a b e f = sym e
either_kind (c ∷ i) a b e f = sym f

resolve_group-kernel :
    (p : Profile) (tag : String) (g : Option Group)
    → kernel_group p g ≡ is_interface (resolve_group p tag g).kind
unfolding kernel_group resolve_group
resolve_group-kernel p tag none = refl
resolve_group-kernel p tag (some g) =
    first_iface-any_kernel p g.members ∙ either_kind (first_iface p g.members) _ _ refl refl

resolve_endpoint-kernel :
    (tag : String) (e : Endpoint)
    → not (is_empty (kernel_iface e)) ≡ is_interface (resolve_endpoint tag e).kind
unfolding resolve_endpoint
resolve_endpoint-kernel tag e = either_kind (kernel_iface e) _ _ refl refl

target-kernel :
    (p : Profile) (tag : String) (e : Option Endpoint) (g : Option Group)
    → kernel_target p e g
      ≡ is_interface
          (elim e as (λ _. Resolved) [
            | some e ↦ resolve_endpoint tag e
            | none ↦ resolve_group p tag g
          ]).kind
unfolding kernel_target
target-kernel p tag (some e) g = resolve_endpoint-kernel tag e
target-kernel p tag none g = resolve_group-kernel p tag g

action_first :
    (direct block blank k : Bool) (w b r : Resolved)
    → is_interface w.kind ≡ false
    → is_interface b.kind ≡ false
    → k ≡ is_interface r.kind
    → (if direct || block || blank then false else k)
      ≡ is_interface (if direct || blank then w else if block then b else r).kind
action_first true block blank k w b r e f h = sym e
action_first false true true k w b r e f h = sym e
action_first false true false k w b r e f h = sym f
action_first false false true k w b r e f h = sym e
action_first false false false k w b r e f h = h

-- An outbound is carried by the kernel for the generator exactly when the policy routing resolves it to an
-- interface, whatever the profile is: actions, endpoints, groups and unknown tags.
pub kernel_egress-resolve_egress :
    (p : Profile) (tag : String) → kernel_egress p tag ≡ is_interface (resolve_egress p tag).kind
unfolding kernel_egress is_action resolve_egress
kernel_egress-resolve_egress p tag =
    action_first (tag =$ outbound_direct) (tag =$ outbound_block) (tag =$ "") _ _ _ _ refl refl
      (target-kernel p tag (endpoint_by_id p tag) (group_by_id p tag))
