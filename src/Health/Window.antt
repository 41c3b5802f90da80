-- ===== src/Health/Window.antt =====
-- internal/health/monitor.go: the circular window of `pushSample` against the history of all outcomes.
use velinx.Base.{
  ℕ, zero, suc, ◌+◌, ◌-◌, ◌%◌, ◌≤◌, ◌<◌, ◌≡◌, refl, sym, ap, ◌∙◌, arith, List, [], ◌∷◌, ◌++◌,
  length, take, drop, last_n, length-append, length-take, take-append, drop-append_whole, drop_all,
  append_nil, append_assoc, last_n-snoc, ltb, true, false, Bool-cases, inl, inr, ◌⊎◌,
}
use velinx.Health.{Sample, Stat, set_at, push_sample, new_stat, repeated}

set_at_lem :
    (i : ℕ) (p : Sample) (xs : List Sample)
    → i < length xs
    → set_at i p xs ≡ take i xs ++ (p ∷ drop (suc i) xs)
unfolding set_at
set_at_lem zero p [] h = absurd (omega arith)
set_at_lem zero p (x ∷ xs) h = refl
set_at_lem (suc i) p [] h = absurd (omega arith)
set_at_lem (suc i) p (x ∷ xs) h = ap (λ r. x ∷ r) (set_at_lem i p xs (omega arith))

length-set_at : (i : ℕ) (p : Sample) (xs : List Sample) → length (set_at i p xs) ≡ length xs
unfolding set_at
length-set_at zero p [] = refl
length-set_at zero p (x ∷ xs) = refl
length-set_at (suc i) p [] = refl
length-set_at (suc i) p (x ∷ xs) = ap suc (length-set_at i p xs)

-- The window before it is full, and after: the array, the number of valid places and the next place.
pub record FillingAt (xs : List Sample) (n i : ℕ) (h : List Sample) : Type 0 where
  pub count : n ≡ length h
  pub room : length h < 30
  pub next : i ≡ length h
  pub held : take (length h) xs ≡ h

pub record FullAt (xs : List Sample) (n i : ℕ) (h : List Sample) : Type 0 where
  pub count : n ≡ 30
  pub enough : 30 ≤ length h
  pub next : i < 30
  pub held : drop i xs ++ take i xs ≡ last_n 30 h

pub record RingAt (xs : List Sample) (n i : ℕ) (h : List Sample) : Type 0 where
  pub size : length xs ≡ 30
  pub phase : FillingAt xs n i h ⊎ FullAt xs n i h

abbrev pub Filling : Stat → List Sample → Type 0
Filling s h = FillingAt s.recent s.recent_n s.recent_pos h

abbrev pub Full : Stat → List Sample → Type 0
Full s h = FullAt s.recent s.recent_n s.recent_pos h

abbrev pub Ring : Stat → List Sample → Type 0
Ring s h = RingAt s.recent s.recent_n s.recent_pos h

-- The array after a push at place `i`, as a list.
written :
    (i : ℕ) (p : Sample) (xs : List Sample)
    → i < length xs
    → set_at i p xs ≡ (take i xs ++ (p ∷ [])) ++ drop (suc i) xs
written i p xs h = set_at_lem i p xs h ∙ sym (append_assoc (take i xs) (p ∷ []) (drop (suc i) xs))

still-Filling :
    (p : Sample) (s : Stat) (h : List Sample)
    → length s.recent ≡ 30
    → Filling s h
    → length h + 1 < 30
    → Filling (push_sample p s) (h ++ (p ∷ []))
unfolding push_sample
still-Filling p s h z f room =
    let l : length (h ++ (p ∷ [])) ≡ length h + 1 = length-append h (p ∷ []) in
    let n = f.next in
    let c = f.count in
    let below : ltb s.recent_n 30 ≡ true = ground arith in
    record {
      count = rw below (omega (arith, l, c));
      room = omega (arith, l);
      next = omega (arith, l, n);
      held =
          ap (take (length (h ++ (p ∷ [])))) (
            ap (λ i. set_at i p s.recent) n
            ∙ written (length h) p s.recent (omega arith)
            ∙ ap (λ r. (r ++ (p ∷ [])) ++ drop (suc (length h)) s.recent) f.held)
          ∙ take-append (length (h ++ (p ∷ []))) (h ++ (p ∷ [])) _ refl;
    }

just-Full :
    (p : Sample) (s : Stat) (h : List Sample)
    → length s.recent ≡ 30
    → Filling s h
    → length h + 1 ≡ 30
    → Full (push_sample p s) (h ++ (p ∷ []))
unfolding push_sample
just-Full p s h z f room =
    let l : length (h ++ (p ∷ [])) ≡ length h + 1 = length-append h (p ∷ []) in
    let n = f.next in
    let c = f.count in
    let below : ltb s.recent_n 30 ≡ true = ground arith in
    let at_start : (s.recent_pos + 1) % 30 ≡ 0 = omega arith in
    let all : set_at s.recent_pos p s.recent ≡ h ++ (p ∷ []) =
      ap (λ i. set_at i p s.recent) n
      ∙ written (length h) p s.recent (omega arith)
      ∙ ap (λ r. (r ++ (p ∷ [])) ++ drop (suc (length h)) s.recent) f.held
      ∙ ap (λ r. (h ++ (p ∷ [])) ++ r) (drop_all (suc (length h)) s.recent (omega arith))
      ∙ append_nil (h ++ (p ∷ [])) in
    let whole : length (h ++ (p ∷ [])) - 30 ≡ 0 = omega (arith, l) in
    record {
      count = rw below (omega (arith, c));
      enough = omega (arith, l);
      next = omega arith;
      held = rw (at_start, whole) (append_nil _ ∙ all);
    }

first_of :
    (i : ℕ) (xs ys : List Sample) → i < length xs → drop 1 (drop i xs ++ ys) ≡ drop (suc i) xs ++ ys
first_of zero [] ys h = absurd (omega arith)
first_of zero (x ∷ xs) ys h = refl
first_of (suc i) [] ys h = absurd (omega arith)
first_of (suc i) (x ∷ xs) ys h = first_of i xs ys (omega arith)

-- What a full window holds after a push, whether or not the place wraps.
turned :
    (i : ℕ) (p : Sample) (xs : List Sample)
    → length xs ≡ 30
    → i < 30
    → drop ((i + 1) % 30) (set_at i p xs) ++ take ((i + 1) % 30) (set_at i p xs)
      ≡ drop (suc i) xs ++ (take i xs ++ (p ∷ []))
turned i p xs z h =
    let w = written i p xs (omega arith) in
    let a = take i xs ++ (p ∷ []) in
    let l : length a ≡ i + 1 =
      length-append (take i xs) (p ∷ []) ∙ omega (arith, length-take i xs (omega arith)) in
    elim (Bool-cases (ltb (i + 1) 30)) [
      | inl e ↦
          let m : (i + 1) % 30 ≡ i + 1 = ground arith in
          rw (m, w)
            (ap (λ r. r ++ take (i + 1) (a ++ drop (suc i) xs))
                (drop-append_whole (i + 1) a (drop (suc i) xs) l)
              ∙ ap (λ r. drop (suc i) xs ++ r) (take-append (i + 1) a (drop (suc i) xs) l))
      | inr e ↦
          let m : (i + 1) % 30 ≡ 0 = ground arith in
          let d : drop (suc i) xs ≡ [] = drop_all (suc i) xs (ground arith) in
          rw (m, w, d) (append_nil (a ++ []) ∙ append_nil a)
    ]

still-Full :
    (p : Sample) (s : Stat) (h : List Sample)
    → length s.recent ≡ 30
    → Full s h
    → Full (push_sample p s) (h ++ (p ∷ []))
unfolding push_sample
still-Full p s h z f =
    let l : length (h ++ (p ∷ [])) ≡ length h + 1 = length-append h (p ∷ []) in
    let c = f.count in
    let n = f.next in
    let q = f.enough in
    let full : ltb s.recent_n 30 ≡ false = ground arith in
    record {
      count = rw full c;
      enough = omega (arith, l, q);
      next = omega arith;
      held =
          turned s.recent_pos p s.recent z n
          ∙ sym (
              append_assoc (drop (suc s.recent_pos) s.recent) (take s.recent_pos s.recent) (p ∷ []))
          ∙ ap (λ r. r ++ (p ∷ []))
              (sym (first_of s.recent_pos s.recent (take s.recent_pos s.recent) (omega arith))
                ∙ ap (drop 1) f.held)
          ∙ sym (last_n-snoc 30 h p q (omega arith));
    }

pub push_sample-Ring :
    (p : Sample) (s : Stat) (h : List Sample) → Ring s h → Ring (push_sample p s) (h ++ (p ∷ []))
unfolding push_sample
push_sample-Ring p s h r = record {
  size = length-set_at s.recent_pos p s.recent ∙ r.size;
  phase = elim r.phase [
    | inr f ↦ inr (still-Full p s h r.size f)
    | inl f ↦ elim (Bool-cases (ltb (length h + 1) 30)) [
      | inl e ↦ inl (still-Filling p s h r.size f (ground arith))
      | inr e ↦ inr (just-Full p s h r.size f (let k = f.room in ground arith))
    ]
  ];
}

pub new_stat-Ring : (now : ℕ) → Ring (new_stat now) []
unfolding new_stat repeated
new_stat-Ring now = record {
  size = refl;
  phase = inl (record { count = refl; room = omega arith; next = refl; held = refl });
}
