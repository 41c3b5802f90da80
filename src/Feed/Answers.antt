-- ===== src/Feed/Answers.antt =====
-- internal/cidrfeed/cidrfeed.go: what the answers for several networks of providers come to.
use velinx.Base.{
  ◌≡◌, ◌≢◌, ◌⊎◌, inl, inr, refl, subst, ℕ, ◌+◌, Bool, true, false, List, [], ◌∷◌, ◌||◌, not, ◌==◌,
  if◌then◌else◌, Option, none, some, All, All-map,
}
use velinx.Go.Strings.{is_empty, same}
use velinx.Go.Same.{has_text, same_refl}
use velinx.Feed.{
  Feed, add_new, merged, FetchError, no_asns, Fetched, fetched, fetch_failed, is_digits, asn_of,
  asn_feed, fetch_from,
}
use velinx.Feed.Lines.{add_new-has}

abbrev pub Holds : List (List ℕ) → List ℕ → Type 0
Holds seen s = has_text s seen ≡ true

or_left : (k m n : Bool) → m ≡ (k || n) → k ≡ true → m ≡ true
or_left k m n q h = rw (q, h) refl

or_right : (k m n : Bool) → m ≡ (k || n) → n ≡ true → m ≡ true
or_right true m n q h = rw q refl
or_right false m n q h = rw q h

merged-Holds : (s : List ℕ) (cs seen : List (List ℕ)) → Holds seen s → Holds (merged cs seen) s
unfolding merged
merged-Holds s [] seen h = h
merged-Holds s (c ∷ cs) seen h =
    merged-Holds s cs (add_new c seen) (or_left _ _ (same c s) (add_new-has s c seen) h)

merged-All : (cs seen : List (List ℕ)) → All (Holds (merged cs seen)) cs
unfolding merged
merged-All [] seen = tt
merged-All (c ∷ cs) seen = (
  merged-Holds c cs (add_new c seen) (or_right _ _ _ (add_new-has c c seen) (same_refl c)),
  merged-All cs (add_new c seen),
)

module _ (get : List ℕ → Option (List ℕ)) (decoded : List ℕ → Option (List (List ℕ))) where
  -- An entry that is blank, or whose answer came and is in the result as a whole.
  abbrev pub IsAnswered : Feed → List ℕ → Type 0
  IsAnswered g x =
      (is_empty (asn_of x) ≡ true)
      ⊎ ((a : Feed) × (asn_feed get decoded (asn_of x) ≡ some a) × All (Holds g.cidrs) a.cidrs)

  -- What one entry of the list does.
  turn :
      (blank digits : Bool) (o : Option Feed) (skip : Fetched) (bad gone : Fetched)
      (next : Feed → Fetched) (g : Feed)
      → bad ≢ fetched g
      → gone ≢ fetched g
      → (if blank
          then skip
          else if not digits
          then bad
          else elim o as (λ _. Fetched) [ none ↦ gone | some a ↦ next a ])
        ≡ fetched g
      → ((blank ≡ true) × (skip ≡ fetched g)) ⊎ ((a : Feed) × (o ≡ some a) × (next a ≡ fetched g))
  turn true digits o skip bad gone next g nb ng h = inl (refl, h)
  turn false false o skip bad gone next g nb ng h = absurd (nb h)
  turn false true none skip bad gone next g nb ng h = absurd (ng h)
  turn false true (some a) skip bad gone next g nb ng h = inr (a, refl, h)

  at_end :
      (none_left : Bool) (e : FetchError) (f g : Feed)
      → (if none_left then fetch_failed e else fetched f) ≡ fetched g
      → f ≡ g
  at_end true e f g h = absurd cc
  at_end false e f g h = cc

  fetch_from-Holds :
      (list : List ℕ) (xs : List (List ℕ)) (f g : Feed) (n : ℕ) (s : List ℕ)
      → fetch_from get decoded list xs f n ≡ fetched g
      → Holds f.cidrs s
      → Holds g.cidrs s
  unfolding fetch_from
  fetch_from-Holds list [] f g n s h k =
      subst (λ r. Holds r.cidrs s) (at_end (n == 0) (no_asns list) f g h) k
  fetch_from-Holds list (x ∷ xs) f g n s h k =
      elim (turn (is_empty (asn_of x)) (is_digits (asn_of x)) (asn_feed get decoded (asn_of x)) _ _
        _
        (λ a.
          fetch_from get decoded list xs
            (record { cidrs = merged a.cidrs f.cidrs; skipped = f.skipped + a.skipped }) (n + 1))
        g (λ q. cc) (λ q. cc) h) [
          | inl (b, e) ↦ fetch_from-Holds list xs f g n s e k
          | inr (a, o, e) ↦
              fetch_from-Holds list xs _ g (n + 1) s e (merged-Holds s a.cidrs f.cidrs k)
        ]

  -- The networks of several providers are fetched as a whole or not at all: where there is a result, every
  -- entry of the list is blank, or its answer came and could be read and the result has each of its
  -- networks, whatever was fetched before.
  pub fetch_from-Complete :
      (list : List ℕ) (xs : List (List ℕ)) (f g : Feed) (n : ℕ)
      → fetch_from get decoded list xs f n ≡ fetched g
      → All (IsAnswered g) xs
  unfolding fetch_from
  fetch_from-Complete list [] f g n h = tt
  fetch_from-Complete list (x ∷ xs) f g n h =
      elim (turn (is_empty (asn_of x)) (is_digits (asn_of x)) (asn_feed get decoded (asn_of x)) _ _
        _
        (λ a.
          fetch_from get decoded list xs
            (record { cidrs = merged a.cidrs f.cidrs; skipped = f.skipped + a.skipped }) (n + 1))
        g (λ q. cc) (λ q. cc) h) [
          | inl (b, e) ↦ (inl b, fetch_from-Complete list xs f g n e)
          | inr (a, o, e) ↦ (
            inr (
              a,
              o,
              All-map a.cidrs (λ s k. fetch_from-Holds list xs _ g (n + 1) s e k)
                  (merged-All a.cidrs f.cidrs),
            ),
            fetch_from-Complete list xs _ g (n + 1) e,
          )
        ]
