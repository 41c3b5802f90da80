-- ===== src/Pbr/Zones.antt =====
-- internal/pbr/pbr.go: the zones that `Compile` collects from the rules and the routing lists.
pub mod Names
use velinx.Base.{
  ℕ, zero, suc, ◌+◌, String, Bool, true, false, List, [], ◌∷◌, ◌++◌, ◌&&◌, ◌||◌, not, ◌=$◌,
  if◌then◌else◌, Option, none, some, ℤ, length,
}
use velinx.Go.Strings.{is_empty}
use velinx.Go.Numbers.{decimal}
use velinx.Pbr.{Zone, Message, skipped_entry, renamed, Warning, Options}
use velinx.Go.Same.{has_text}
use velinx.Pbr.Classify.{classify_cidrs, Classified, normalize_domains}

-- What the closures of `Compile` share. A set is a list of its elements.
pub record Build : Type 0 where
  pub zones : List Zone
  pub warns : List Warning
  pub used_egress : List String
  pub used_names : List (List ℕ)

pub record SrcSpec : Type 0 where
  pub cidrs : List (List ℕ)
  pub mac : List String
  pub iface : List String
  pub port : List ℤ

unfoldable pub warn : String → Message → Build → Build
warn scope m b = record b { warns = b.warns ++ (record { scope = scope; msg = m } ∷ []) }

unfoldable pub warn_some : String → Option Message → Build → Build
unfolding warn
warn_some scope none b = b
warn_some scope (some m) b = warn scope m b

unfoldable pub warn_skipped : String → List (List ℕ) → Build → Build
unfolding warn
warn_skipped scope [] b = b
warn_skipped scope (s ∷ ss) b = warn_skipped scope ss (warn scope (skipped_entry s) b)

-- `fmt.Sprintf("%s_%d", base, i)`
unfoldable pub suffixed : List ℕ → ℕ → List ℕ
unfolding decimal
suffixed base i = base ++ b'_' ∷ decimal i

-- The loop that looks for a free name. It ends before the fuel does when there is as much of it as there
-- are used names.
unfoldable pub free_name : ℕ → ℕ → List ℕ → List (List ℕ) → List ℕ
unfolding suffixed has_text
free_name zero i base used = suffixed base i
free_name (suc fuel) i base used =
    let rest = free_name fuel (i + 1) base used in
    if has_text (suffixed base i) used then rest else suffixed base i

unfoldable pub zone_name : List ℕ → List (List ℕ) → List ℕ
unfolding free_name has_text
zone_name name used = if has_text name used then free_name (length used) 2 name used else name

-- What `addZone` made of the matchers before it names the zone.
pub record Matched : Type 0 where
  pub v4 : List (List ℕ)
  pub v6 : List (List ℕ)
  pub domains : List (List ℕ)
  pub src_v4 : List (List ℕ)
  pub src_v6 : List (List ℕ)
  pub src_mac : List String
  pub src_iface : List String
  pub src_port : List ℤ
  pub src_scoped : Bool

unsourced : Classified → List (List ℕ) → Matched
unsourced c domains = record {
  v4 = c.v4;
  v6 = c.v6;
  domains = domains;
  src_v4 = [];
  src_v6 = [];
  src_mac = [];
  src_iface = [];
  src_port = [];
  src_scoped = false;
}

-- `srcScoped`
unfoldable pub is_scoped : Classified → SrcSpec → Bool
unfolding is_empty
is_scoped c src =
    not (is_empty c.v4)
    || not (is_empty c.v6)
    || not (is_empty src.mac)
    || not (is_empty src.iface)
    || not (is_empty src.port)

unfoldable pub match_source : Option SrcSpec → Matched → Matched
unfolding classify_cidrs is_scoped
match_source none m = m
match_source (some src) m =
    let c = classify_cidrs src.cidrs in
    if is_scoped c src
    then record m {
      src_v4 = c.v4;
      src_v6 = c.v6;
      src_mac = src.mac;
      src_iface = src.iface;
      src_port = src.port;
      src_scoped = true;
    }
    else m

unfoldable pub matched : Bool → List (List ℕ) → Option SrcSpec → Matched
unfolding classify_cidrs normalize_domains unsourced match_source
matched collect cidrs src =
    let c = classify_cidrs cidrs in
    match_source src (unsourced c (if collect then normalize_domains c.bad else []))

unfoldable pub matches_nothing : Matched → Bool
unfolding is_empty
matches_nothing m = is_empty m.v4 && is_empty m.v6 && is_empty m.domains && not m.src_scoped

unfoldable pub zone_of : List ℕ → String → Matched → Zone
zone_of name tag m = record {
  name = name;
  egress_tag = tag;
  mark = 0;
  v4 = m.v4;
  v6 = m.v6;
  domains = m.domains;
  src_v4 = m.src_v4;
  src_v6 = m.src_v6;
  src_mac = m.src_mac;
  src_iface = m.src_iface;
  src_port = m.src_port;
  src_scoped = m.src_scoped;
}

unfoldable pub has_tag : String → List String → Bool
has_tag t [] = false
has_tag t (u ∷ us) = u =$ t || has_tag t us

-- The rest of `addZone`: the name, the two sets and the zone.
unfoldable pub enter_zone : List ℕ → String → Matched → String → Build → Build
unfolding zone_name has_text warn has_tag zone_of
enter_zone name tag m scope b =
    let free = zone_name name b.used_names in
    let b' = if has_text name b.used_names then warn scope (renamed free) b else b in
    record b' {
      used_names = free ∷ b.used_names;
      used_egress = if has_tag tag b.used_egress then b.used_egress else tag ∷ b.used_egress;
      zones = b.zones ++ (zone_of free tag m ∷ []);
    }

unfoldable pub add_zone :
    Options → List ℕ → String → List (List ℕ) → Option SrcSpec → String → Build → Build
unfolding classify_cidrs matched warn_skipped matches_nothing enter_zone
add_zone o name tag cidrs src scope b =
    let m = matched o.collect_domain_zones cidrs src in
    let b' =
      if o.collect_domain_zones then b else warn_skipped scope (classify_cidrs cidrs).bad b in
    if matches_nothing m then b' else enter_zone name tag m scope b'
