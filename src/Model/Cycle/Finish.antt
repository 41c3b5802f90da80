-- ===== src/Model/Cycle/Finish.antt =====
-- internal/model/validate.go: what the colours of a finished search say of the graph.
use velinx.Base.{
  ℕ, zero, suc, ◌≤◌, ◌<◌, ◌≡◌, ◌≢◌, refl, sym, subst, ◌∙◌, ◌⊎◌, inl, inr, String, List, [], ◌∷◌,
  Option, none, some, ◌=$◌, if◌then◌else◌, length, arith, eq_iff, Bool-cases,
}
use velinx.Model.Cycle.{
  Color, visiting, done, Colors, color_of, Search, finished, back_edge, no_fuel, visit, dfs,
  search_all, In, Reaches, edge, further,
}

-- When a node was finished: the place of its newest `done` entry, counted from the oldest.
unfoldable pub finish : String → Colors → ℕ
finish k [] = 0
finish k ((j, visiting) ∷ c) = finish k c
finish k ((j, done) ∷ c) = let rest = finish k c in if j =$ k then suc (length c) else rest

pub finish-le : (k : String) (c : Colors) → finish k c ≤ length c
unfolding finish
finish-le k [] = omega arith
finish-le k ((j, visiting) ∷ c) = omega (arith, finish-le k c)
finish-le k ((j, done) ∷ c) = ground (arith, finish-le k c)

module _ (adj : String → List String) where
  -- What is finished has all its successors finished before it.
  pub record Closed (c : Colors) : Type 0 where
    pub below :
        (k m : String)
        → color_of k c ≡ some done
        → In m (adj k)
        → (color_of m c ≡ some done) × (finish m c < finish k c)

-- What a search changes: what was finished stays so, at its place, and no node is left open.
pub record Grows (c c' : Colors) : Type 0 where
  pub keeps_done :
      (k : String)
      → color_of k c ≡ some done
      → (color_of k c' ≡ some done) × (finish k c' ≡ finish k c)
  pub keeps_open : (k : String) → color_of k c ≡ some visiting → color_of k c' ≡ some visiting
  pub opens_none : (k : String) → color_of k c' ≡ some visiting → color_of k c ≡ some visiting

pub Grows-refl : (c : Colors) → Grows c c
Grows-refl c = record {
  keeps_done = λ k h. (h, refl);
  keeps_open = λ k h. h;
  opens_none = λ k h. h;
}

pub Grows-trans : {a b c : Colors} → Grows a b → Grows b c → Grows a c
Grows-trans g h = record {
  keeps_done = λ k d. let (e, p) = g.keeps_done k d in let (f, q) = h.keeps_done k e in (f, q ∙ p);
  keeps_open = λ k d. h.keeps_open k (g.keeps_open k d);
  opens_none = λ k d. g.opens_none k (h.opens_none k d);
}

-- The entries around a search of `id`: it is opened, and after `c'` grew from that it is finished.
pub closes :
    (id : String) (c c' : Colors)
    → color_of id c ≡ none
    → Grows ((id, visiting) ∷ c) c'
    → Grows c ((id, done) ∷ c')
unfolding color_of finish
closes id c c' fresh g = record {
  keeps_done = λ k d. ground (arith, eq_iff id k, g.keeps_done k);
  keeps_open = λ k d. ground (arith, eq_iff id k, g.keeps_open k);
  opens_none = λ k d. ground (arith, eq_iff id k, g.opens_none k);
}

module _ (adj : String → List String) where
  pub opens-Closed :
      (id : String) (c : Colors)
      → color_of id c ≡ none
      → Closed adj c
      → Closed adj ((id, visiting) ∷ c)
  unfolding color_of finish
  opens-Closed id c fresh v = record {
    below = λ k m d i. ground (arith, eq_iff id k, eq_iff id m, v.below k m);
  }

  finishes-Closed :
      (id : String) (c : Colors)
      → color_of id c ≡ some visiting
      → Closed adj c
      → ((m : String) → In m (adj id) → color_of m c ≡ some done)
      → Closed adj ((id, done) ∷ c)
  unfolding color_of finish
  finishes-Closed id c opened v all = record {
    below = λ k m d i. elim (Bool-cases (id =$ k)) [
      | inl p ↦
          let e = (eq_iff id k).0 p in
          let finished_before = all m (subst (λ x. In m (adj x)) (sym e) i) in
          ground (arith, eq_iff id m, finish-le m c, finished_before)
      | inr p ↦ let before = v.below k m (ground arith) i in ground (arith, eq_iff id m, before)
    ];
  }

pub Color-cases : (o : Option Color) → (o ≡ none) ⊎ ((o ≡ some visiting) ⊎ (o ≡ some done))
Color-cases none = inl refl
Color-cases (some visiting) = inr (inl refl)
Color-cases (some done) = inr (inr refl)

pub Search-cases :
    (s : Search)
    → ((c : Colors) × (s ≡ finished c)) ⊎ (((a b : String) × (s ≡ back_edge a b)) ⊎ (s ≡ no_fuel))
Search-cases (finished c) = inl (c, refl)
Search-cases (back_edge a b) = inr (inl (a, b, refl))
Search-cases no_fuel = inr (inr refl)

-- How the loop over the members finishes: the first is finished already, or is searched first.
visit-cons :
    (go : String → Colors → Search) (id m : String) (ms : List String) (c c' : Colors)
    → visit go id (m ∷ ms) c ≡ finished c'
    → ((color_of m c ≡ some done) × (visit go id ms c ≡ finished c'))
      ⊎ ((c1 : Colors) × (color_of m c ≡ none)
          × (go m c ≡ finished c1)
          × (visit go id ms c1 ≡ finished c'))
unfolding visit
visit-cons go id m ms c c' e = elim (Color-cases (color_of m c)) [
  | inl p ↦ elim (Search-cases (go m c)) [
    | inl (c1, q) ↦ inr (c1, p, q, rw (p, q, visit) at e)
    | inr (inl (a, b, q)) ↦ absurd (let f = rw (p, q, visit) at e in cc)
    | inr (inr q) ↦ absurd (let f = rw (p, q, visit) at e in cc)
  ]
  | inr (inl p) ↦ absurd (let f = rw (p, visit) at e in cc)
  | inr (inr p) ↦ inl (p, rw (p, visit) at e)
]

module _ (adj : String → List String) where
  -- What a finished search of `id` from `c` has done.
  pub record Finishes (id : String) (c c' : Colors) : Type 0 where
    pub closed : Closed adj c'
    pub grows : Grows c c'
    pub is_done : color_of id c' ≡ some done

  -- `go` is a search: from a closed colouring it finishes as above, if it finishes.
  abbrev pub IsSearch : (String → Colors → Search) → Type 0
  IsSearch go =
      (m : String) (c c' : Colors)
      → color_of m c ≡ none
      → Closed adj c
      → go m c ≡ finished c'
      → Finishes m c c'

  pub visit-Finishes :
      (go : String → Colors → Search) (id : String) (ms : List String) (c0 c c' : Colors)
      → IsSearch go
      → color_of id c0 ≡ none
      → Closed adj c
      → Grows ((id, visiting) ∷ c0) c
      → ((m : String) → In m (adj id) → (color_of m c ≡ some done) ⊎ In m ms)
      → visit go id ms c ≡ finished c'
      → Finishes id c0 c'
  unfolding visit color_of
  visit-Finishes go id [] c0 c c' gs fresh v g todo e =
      let same : (id, done) ∷ c ≡ c' = cc in
      let opened = g.keeps_open id (ground (arith, eq_iff id id)) in
      subst (Finishes id c0) same (record {
        closed =
            finishes-Closed adj id c opened v
              (λ m i. elim (todo m i) [ inl d ↦ d | inr none_left ↦ absurd none_left ]);
        grows = closes id c0 c fresh g;
        is_done = ground (arith, eq_iff id id);
      })
  visit-Finishes go id (m ∷ ms) c0 c c' gs fresh v g todo e = elim (visit-cons go id m ms c c' e) [
    | inl (d, rest) ↦
        visit-Finishes go id ms c0 c c' gs fresh v g (λ k i. settle c d k (todo k i)) rest
    | inr (c1, white, searched, rest) ↦
        let f = gs m c c1 white v searched in
        visit-Finishes go id ms c0 c1 c' gs fresh f.closed (Grows-trans g f.grows)
          (λ k i. settle c1 f.is_done k (later c c1 f.grows k (todo k i))) rest
  ]
    where
      settle :
          (c2 : Colors)
          → color_of m c2 ≡ some done
          → (k : String) → (color_of k c2 ≡ some done) ⊎ In k (m ∷ ms)
          → (color_of k c2 ≡ some done) ⊎ In k ms
      settle c2 d k (inl p) = inl p
      settle c2 d k (inr (inl q)) = inl (rw (← q) d)
      settle c2 d k (inr (inr i)) = inr i

      later :
          (c2 c3 : Colors)
          → Grows c2 c3
          → (k : String) → (color_of k c2 ≡ some done) ⊎ In k (m ∷ ms)
          → (color_of k c3 ≡ some done) ⊎ In k (m ∷ ms)
      later c2 c3 h k (inl p) = inl (h.keeps_done k p).0
      later c2 c3 h k (inr i) = inr i

  pub dfs_finishes : (fuel : ℕ) → IsSearch (dfs adj fuel)
  unfolding dfs
  dfs_finishes zero id c c' fresh v e = absurd (cc)
  dfs_finishes (suc fuel) id c c' fresh v e =
      visit-Finishes (dfs adj fuel) id (adj id) c ((id, visiting) ∷ c) c' (dfs_finishes fuel) fresh
        (opens-Closed adj id c fresh v) (Grows-refl _) (λ m i. inr i) e

  -- A colouring with no search under way.
  pub record IsQuiet (c : Colors) : Type 0 where
    pub closed : Closed adj c
    pub none_open : (k : String) → color_of k c ≢ some visiting

  pub nil-IsQuiet : IsQuiet []
  unfolding color_of
  nil-IsQuiet = record { closed = record { below = λ k m d i. absurd (cc) }; none_open = λ k d. cc }

  search_all_finishes :
      (fuel : ℕ) (ks : List String) (c c' : Colors)
      → IsQuiet c
      → search_all adj fuel ks c ≡ finished c'
      → IsQuiet c' × Grows c c' × ((k : String) → In k ks → color_of k c' ≡ some done)
  unfolding search_all
  search_all_finishes fuel [] c c' v e =
      let same : c ≡ c' = cc in
      (subst IsQuiet same v, subst (Grows c) same (Grows-refl c), λ k i. absurd i)
  search_all_finishes fuel (k ∷ ks) c c' v e = elim (Color-cases (color_of k c)) [
    | inl p ↦ elim (Search-cases (dfs adj fuel k c)) [
      | inl (c1, q) ↦
          let f = dfs_finishes fuel k c c1 p v.closed q in
          let quiet : IsQuiet c1 = record {
            closed = f.closed;
            none_open = λ j d. v.none_open j (f.grows.opens_none j d);
          } in
          let (v', g, all) = search_all_finishes fuel ks c1 c' quiet (rw (p, q, search_all) at e) in
          (v', Grows-trans f.grows g, head c1 c' f.is_done g all)
      | inr (inl (a, b, q)) ↦ absurd (let f = rw (p, q, search_all) at e in cc)
      | inr (inr q) ↦ absurd (let f = rw (p, q, search_all) at e in cc)
    ]
    | inr (inl p) ↦ absurd (v.none_open k p)
    | inr (inr p) ↦
        let (v', g, all) = search_all_finishes fuel ks c c' v (rw (p, search_all) at e) in
        (v', g, head c c' p g all)
  ]
    where
      head :
          (c1 c2 : Colors)
          → color_of k c1 ≡ some done
          → Grows c1 c2
          → ((j : String) → In j ks → color_of j c2 ≡ some done)
          → (j : String) → In j (k ∷ ks)
          → color_of j c2 ≡ some done
      head c1 c2 d g all j (inl q) = rw (← q) (g.keeps_done k d).0
      head c1 c2 d g all j (inr i) = all j i

  finish-Reaches :
      (c : Colors)
      → Closed adj c
      → {k m : String} → Reaches adj k m
      → color_of k c ≡ some done
      → (color_of m c ≡ some done) × (finish m c < finish k c)
  finish-Reaches c v {k} {m} (edge i) d = v.below k m d i
  finish-Reaches c v {k} (further {b = b} i r) d =
      let (e, lt) = v.below k b d i in let (e', lt') = finish-Reaches c v r e in (e', omega arith)

  -- When the search over `ks` finishes, no node of `ks` reaches itself.
  pub search_all_acyclic :
      (fuel : ℕ) (ks : List String) (c : Colors)
      → search_all adj fuel ks [] ≡ finished c
      → (k : String) → In k ks
      → ¬ Reaches adj k k
  search_all_acyclic fuel ks c e k i r =
      let (v, g, all) = search_all_finishes fuel ks [] c nil-IsQuiet e in
      let bad = finish-Reaches c v.closed r (all k i) in absurd (omega (arith, bad.1))
