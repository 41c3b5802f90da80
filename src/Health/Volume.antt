-- ===== src/Health/Volume.antt =====
-- internal/health/monitor.go: the totals of `addCumulativeTraffic`.
use velinx.Base.{◌≡◌, ◌∙◌, arith, ℕ, ◌+◌, ◌-◌, ◌<◌, true, List, [], ◌∷◌, ◌&&◌, ltb}
use velinx.Health.{Stat, add_cumulative_traffic}

-- A reading of the two counters with its time.
pub record Reading : Type 0 where
  pub sent : ℕ
  pub received : ℕ
  pub at : ℕ

module _ (per_second : ℕ → ℕ → ℕ) where
  unfoldable pub readings : List Reading → Stat → Stat
  readings [] s = s
  readings (r ∷ rs) s = readings rs (add_cumulative_traffic per_second r.sent r.received r.at s)

  -- By how much a counter grew, from reading to reading; a counter that falls has grown by nothing.
  unfoldable pub growth : (Reading → ℕ) → ℕ → List Reading → ℕ
  growth f last [] = 0
  growth f last (r ∷ rs) = (f r - last) + growth f (f r) rs

  -- Each reading is later than the one before.
  abbrev pub Later : ℕ → List Reading → Type 0
  Later t [] = Unit
  Later t (r ∷ rs) = (t < r.at) × Later r.at rs

  one_reading :
      (r : Reading) (s : Stat)
      → 0 < s.last_conn_sample
      → s.last_conn_sample < r.at
      → let s' = add_cumulative_traffic per_second r.sent r.received r.at s in
        (s'.total_up ≡ s.total_up + (r.sent - s.active_up))
        × (s'.total_down ≡ s.total_down + (r.received - s.active_down))
  unfolding add_cumulative_traffic
  one_reading r s p l =
      let timed : (ltb 0 s.last_conn_sample && ltb s.last_conn_sample r.at) ≡ true = ground arith in
      (ground arith, ground arith)

  -- The totals have grown by exactly what the counters grew from reading to reading; a counter that was
  -- reset takes nothing off. The readings are in the order of time and one was taken before.
  pub readings-total :
      (rs : List Reading) (s : Stat)
      → 0 < s.last_conn_sample
      → Later s.last_conn_sample rs
      → ((readings rs s).total_up ≡ s.total_up + growth (λ r. r.sent) s.active_up rs)
        × ((readings rs s).total_down ≡ s.total_down + growth (λ r. r.received) s.active_down rs)
  unfolding readings growth add_cumulative_traffic
  readings-total [] s p l = (omega arith, omega arith)
  readings-total (r ∷ rs) s p l =
      let s' = add_cumulative_traffic per_second r.sent r.received r.at s in
      let (a, b) = readings-total rs s' (omega arith) l.1 in
      let (u, d) = one_reading r s p l.0 in (a ∙ omega (arith, u), b ∙ omega (arith, d))
