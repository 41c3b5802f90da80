-- ===== src/Core/Log.antt =====
-- internal/core/singbox.go, `ringLog`: the last lines that the process printed. A text is its bytes.
use velinx.Base.{
  ℕ, zero, suc, ◌-◌, ◌*◌, ◌≤◌, ◌≡◌, refl, sym, ap, ◌∙◌, true, false, List, [], ◌∷◌, ◌++◌, Option,
  none, some, ◌&&◌, ◌==◌, ltb, if◌then◌else◌, arith, length, last_n, drop, length-append,
  Bool-cases, inl, inr, subst,
}
use velinx.Go.Strings.{is_empty}

pub record RingLog : Type 0 where
  pub lines : List (List ℕ)
  pub size : ℕ
  pub buf : List ℕ

abbrev pub new_ring_log : ℕ → RingLog
new_ring_log size = record { lines = []; size = size; buf = [] }

cons_line : ℕ → Option (List ℕ × List ℕ) → Option (List ℕ × List ℕ)
cons_line c none = none
cons_line c (some (l, rest)) = some (c ∷ l, rest)

-- The text before the first line feed, and the text after it.
unfoldable pub cut : List ℕ → Option (List ℕ × List ℕ)
unfolding cons_line
cut [] = none
cut (c ∷ s) = let r = cons_line c (cut s) in if c == 10 then some ([], s) else r

-- `strings.TrimRight(line, "\r")`
unfoldable pub trim_cr : List ℕ → List ℕ
unfolding is_empty
trim_cr [] = []
trim_cr (c ∷ s) = let r = trim_cr s in if c == 13 && is_empty r then [] else c ∷ r

compact : ℕ → List (List ℕ) → List (List ℕ)
compact size l = if ltb (2 * size) (length l) then last_n size l else l

unfoldable pub add_line : ℕ → List ℕ → List (List ℕ) → List (List ℕ)
unfolding compact is_empty
add_line size line lines = if is_empty line then lines else compact size (lines ++ (line ∷ []))

-- The loop of `Write`, which takes a line feed out of the buffer at each turn.
unfoldable pub drain : ℕ → ℕ → List (List ℕ) → List ℕ → List (List ℕ) × List ℕ
unfolding cut add_line trim_cr
drain zero size lines buf = (lines, buf)
drain (suc fuel) size lines buf = elim (cut buf) [
  | none ↦ (lines, buf)
  | some t ↦ drain fuel size (add_line size (trim_cr t.0) lines) t.1
]

abbrev drained : ℕ → List (List ℕ) × List ℕ → RingLog
drained size r = record { lines = r.0; size = size; buf = r.1 }

unfoldable pub write : List ℕ → RingLog → RingLog
unfolding drain
write p r = drained r.size (drain (length (r.buf ++ p)) r.size r.lines (r.buf ++ p))

-- The log as it would take one byte after another.
unfoldable pub feed : List ℕ → RingLog → RingLog
unfolding add_line trim_cr
feed [] r = r
feed (c ∷ p) r = feed p (
    if c == 10
    then record r { lines = add_line r.size (trim_cr r.buf) r.lines; buf = [] }
    else record r { buf = r.buf ++ (c ∷ []) })

NoFeed : List ℕ → Type 0
NoFeed s = cut s ≡ none

cut_at : (s p : List ℕ) → NoFeed s → cut (s ++ 10 ∷ p) ≡ some (s, p)
unfolding NoFeed cut
cut_at [] p h = refl
cut_at (c ∷ s) p h = ground (arith, cut_at s p)

NoFeed-append : (s : List ℕ) (c : ℕ) → NoFeed s → (c == 10) ≡ false → NoFeed (s ++ (c ∷ []))
unfolding NoFeed cut
NoFeed-append [] c h d = ground arith
NoFeed-append (x ∷ s) c h d = ground (arith, NoFeed-append s c)

append_nil : (s : List ℕ) → s ++ [] ≡ s
append_nil [] = refl
append_nil (c ∷ s) = ap (λ r. c ∷ r) (append_nil s)

append_assoc : (a b c : List ℕ) → (a ++ b) ++ c ≡ a ++ (b ++ c)
append_assoc [] b c = refl
append_assoc (x ∷ a) b c = ap (λ r. x ∷ r) (append_assoc a b c)

drain_nothing :
    (n size : ℕ) (lines : List (List ℕ)) (buf : List ℕ)
    → NoFeed buf
    → drain n size lines buf ≡ (lines, buf)
unfolding NoFeed drain
drain_nothing zero size lines buf h = refl
drain_nothing (suc n) size lines buf h = rw (h, drain) refl

drain_line :
    (n size : ℕ) (lines : List (List ℕ)) (buf p : List ℕ)
    → NoFeed buf
    → drain (suc n) size lines (buf ++ 10 ∷ p) ≡ drain n size (add_line size (trim_cr buf) lines) p
unfolding drain
drain_line n size lines buf p h = rw (cut_at buf p h, drain) refl

-- With a turn for every new byte the loop takes the bytes one after another.
drain-feed :
    (n size : ℕ) (lines : List (List ℕ)) (buf p : List ℕ)
    → length p ≤ n
    → NoFeed buf
    → drained size (drain n size lines (buf ++ p)) ≡ feed p (drained size (lines, buf))
unfolding feed NoFeed cut
drain-feed n size lines buf [] b h =
    ap (drained size) (ap (drain n size lines) (append_nil buf) ∙ drain_nothing n size lines buf h)
drain-feed zero size lines buf (c ∷ p) b h = absurd (omega arith)
drain-feed (suc n) size lines buf (c ∷ p) b h = elim (Bool-cases (c == 10)) [
  | inl q ↦
      subst
        (λ x.
          drained size (drain (suc n) size lines (buf ++ x ∷ p))
          ≡ feed (x ∷ p) (drained size (lines, buf)))
        (ten c q)
        (ap (drained size) (drain_line n size lines buf p h)
          ∙ drain-feed n size (add_line size (trim_cr buf) lines) [] p (omega arith) refl)
  | inr q ↦
      rw (q, feed)
        (ap (λ r. drained size (drain (suc n) size lines r)) (sym (append_assoc buf (c ∷ []) p))
          ∙ drain-feed (suc n) size lines (buf ++ (c ∷ [])) p (omega arith)
              (NoFeed-append buf c h q))
]
  where
    ten : (c : ℕ) → (c == 10) ≡ true → 10 ≡ c
    ten c q = ground arith

feed-NoFeed : (p : List ℕ) (r : RingLog) → NoFeed r.buf → NoFeed (feed p r).buf
unfolding feed NoFeed cut
feed-NoFeed [] r h = h
feed-NoFeed (c ∷ p) r h = elim (Bool-cases (c == 10)) [
  | inl q ↦ rw (q, feed) (feed-NoFeed p _ refl)
  | inr q ↦ rw (q, feed) (feed-NoFeed p _ (NoFeed-append r.buf c h q))
]

write-feed : (p : List ℕ) (r : RingLog) → NoFeed r.buf → write p r ≡ feed p r
unfolding write
write-feed p r h =
    drain-feed (length (r.buf ++ p)) r.size r.lines r.buf p (omega (arith, length-append r.buf p)) h

feed-append : (p q : List ℕ) (r : RingLog) → feed (p ++ q) r ≡ feed q (feed p r)
unfolding feed
feed-append [] q r = refl
feed-append (c ∷ p) q r = feed-append p q _

unfoldable pub writes : List (List ℕ) → RingLog → RingLog
unfolding write
writes [] r = r
writes (p ∷ ps) r = writes ps (write p r)

unfoldable pub joined : List (List ℕ) → List ℕ
joined [] = []
joined (p ∷ ps) = p ++ joined ps

writes-feed : (ps : List (List ℕ)) (r : RingLog) → NoFeed r.buf → writes ps r ≡ feed (joined ps) r
unfolding writes joined feed
writes-feed [] r h = refl
writes-feed (p ∷ ps) r h =
    ap (writes ps) (write-feed p r h)
    ∙ writes-feed ps (feed p r) (feed-NoFeed p r h)
    ∙ sym (feed-append p (joined ps) r)

length-drop : (n : ℕ) (l : List (List ℕ)) → length (drop n l) ≡ length l - n
length-drop zero l = omega arith
length-drop (suc n) [] = omega arith
length-drop (suc n) (x ∷ l) = omega (arith, length-drop n l)

add_line_bounded :
    (size : ℕ) (line : List ℕ) (lines : List (List ℕ))
    → length lines ≤ 2 * size
    → length (add_line size line lines) ≤ 2 * size
unfolding add_line
add_line_bounded size line lines h = ground (
  arith,
  length-append lines (line ∷ []),
  length-drop (length (lines ++ (line ∷ [])) - size) (lines ++ (line ∷ [])),
)

feed_bounded :
    (p : List ℕ) (r : RingLog) → length r.lines ≤ 2 * r.size → length (feed p r).lines ≤ 2 * r.size
unfolding feed
feed_bounded [] r h = h
feed_bounded (c ∷ p) r h = elim (Bool-cases (c == 10)) [
  | inl q ↦
      rw (q, feed)
        (feed_bounded p (record r { lines = add_line r.size (trim_cr r.buf) r.lines; buf = [] })
          (add_line_bounded r.size (trim_cr r.buf) r.lines h))
  | inr q ↦ rw (q, feed) (feed_bounded p (record r { buf = r.buf ++ (c ∷ []) }) h)
]

-- However the output of the process is cut into writes, the log is the one that takes it byte by
-- byte, which ends a line at each line feed; and it never holds more than twice its size in lines.
pub writes_bytewise :
    (size : ℕ) (ps : List (List ℕ))
    → (writes ps (new_ring_log size) ≡ feed (joined ps) (new_ring_log size))
      × (length (writes ps (new_ring_log size)).lines ≤ 2 * size)
unfolding NoFeed cut
writes_bytewise size ps =
    let q = writes-feed ps (new_ring_log size) refl in
    (
      q,
      subst (λ r. length r.lines ≤ 2 * size) (sym q)
          (feed_bounded (joined ps) (new_ring_log size) (omega arith)),
    )
