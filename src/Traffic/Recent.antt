-- ===== src/Traffic/Recent.antt =====
-- internal/traffic/ring.go: `Recent` and `RecentN` against the history of all samples.
use velinx.Base.{
  take_all, drop-append, drop-drop, length-drop, ℕ, zero, suc, ◌-◌, ◌≤◌, ◌<◌, ◌≡◌, refl, sym, ap,
  ◌∙◌, some, List, [], ◌∷◌, ◌++◌, arith, length, Bool-cases, inl, inr, take, drop, last_n,
  length-append, ltb, negsuc, ℤ, pos, is_pos, to_ℕ, leb, if◌then◌else◌, true,
}
use velinx.Traffic.{Sample, Hub, shift, store, push, recent_n}

shift_lem : (n : ℕ) (l : List Sample) → suc n ≤ length l → take n (shift l) ≡ take n (drop 1 l)
unfolding shift
shift_lem zero l h = refl
shift_lem (suc n) [] h = elim h [ ]
shift_lem (suc n) (x ∷ []) h = absurd (omega arith)
shift_lem (suc n) (x ∷ y ∷ l) h = ap (λ r. y ∷ r) (shift_lem n (y ∷ l) (omega arith))

shift_full : (n : ℕ) (b : List Sample) → length b ≡ suc n → take n (shift b) ≡ drop 1 b
shift_full n b h =
    shift_lem n b (omega arith) ∙ take_all n (drop 1 b) (omega (arith, length-drop 1 b))

-- One store keeps the last `size` samples.
pub store-last_n :
    (size : ℕ) (l : List Sample) (s : Sample)
    → 0 < size
    → store size (last_n size l) s ≡ last_n size (l ++ (s ∷ []))
unfolding store
store-last_n size l s h = elim (Bool-cases (leb size (length l))) [
  | inl full ↦
      let k = length l - size in
      let whole : leb size (length (drop k l)) ≡ true = ground (arith, length-drop k l) in
      let grown : length (l ++ (s ∷ [])) - size ≡ suc k =
        ground (arith, length-append l (s ∷ [])) in
      rw (whole, grown)
        (ap (λ r. r ++ (s ∷ []))
            (shift_full (size - 1) (drop k l) (ground (arith, length-drop k l)) ∙ drop-drop k l)
          ∙ sym (drop-append (suc k) l (s ∷ []) (ground arith)))
  | inr room ↦
      let none_dropped : length l - size ≡ 0 = ground arith in
      let none_dropped' : length (l ++ (s ∷ [])) - size ≡ 0 =
        ground (arith, length-append l (s ∷ [])) in
      rw (none_dropped, none_dropped', room)
]

pub push_buf :
    (s : Sample) (h h' : Hub)
    → push s h ≡ some h'
    → (h'.buf ≡ store h.size h.buf s) × (h'.size ≡ h.size)
unfolding push
push_buf s h h' e = ground arith

-- `RecentN`: all samples retained for `n ≤ 0`, and the last `n` of them otherwise.
pub recent_n_lem :
    (n : ℤ) (h : Hub) → recent_n n h ≡ (if is_pos n then last_n (to_ℕ n) h.buf else h.buf)
unfolding recent_n
recent_n_lem (negsuc n) h = refl
recent_n_lem (pos n) h = elim (Bool-cases (ltb 0 n)) [
  | inl p ↦ elim (Bool-cases (ltb n (length h.buf))) [
    | inl q ↦ rw (p, q)
    | inr q ↦ let z : length h.buf - n ≡ 0 = ground arith in rw (p, q, z)
  ]
  | inr p ↦ rw p
]
