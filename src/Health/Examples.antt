-- ===== src/Health/Examples.antt =====
-- internal/health/monitor.go: probes of a few targets.
use velinx.Base.{◌≡◌, refl, ℕ, ◌/◌, ◌*◌, ◌+◌, ◌≤◌, arith, false, List, [], ◌∷◌, none, some, inl}
use velinx.Health.{State, alive, down, Stat, new_stat, aggregate}
use velinx.Health.Flaps.{Outcome, outcomes, IsValid, monitored-IsValid}
use velinx.Health.Isolated.{Shown, one_failure_hidden}
use velinx.Health.Volume.{Reading, readings, growth, readings-total}
use velinx.Health.Views.{success_rate_of, avg_latency_of}
use velinx.Health.Recent.{samples_of, recent_rate, recent_latency, shown_rate_is_recent}

outcome : State → ℕ → ℕ → Outcome
outcome state latency at = record { state = state; latency = latency; at = at }

abbrev lossy : List Outcome
lossy = outcome down 0 20 ∷ outcome alive 35 30 ∷ outcome down 0 40 ∷ []

abbrev was_alive : Stat
was_alive = record (new_stat 10) { state = alive }

one_failure_hidden_example : Shown was_alive (outcomes false lossy was_alive)
unfolding new_stat outcome
one_failure_hidden_example =
    one_failure_hidden lossy was_alive (refl, (tt, (tt, tt))) refl (inl refl)

-- An outage, and the end of it.
abbrev outage : List Outcome
outage = outcome alive 40 10 ∷ outcome down 0 20 ∷ outcome down 0 30 ∷ outcome alive 60 40 ∷ []

counted : (outcomes false outage (new_stat 5)).reconnects ≡ 1
unfolding outcomes outcome new_stat
counted = refl

rated :
    (success_rate_of (outcomes false outage (new_stat 5)) ≡ 50)
    × (avg_latency_of (outcomes false outage (new_stat 5)) ≡ 50)
unfolding success_rate_of avg_latency_of outcomes new_stat outcome
rated = (refl, refl)

monitored-IsValid_example : IsValid false (outcomes false outage (new_stat 5))
monitored-IsValid_example = monitored-IsValid false 5 outage

shown_rate_is_recent_example :
    (success_rate_of (outcomes false outage (new_stat 5)) ≡ recent_rate (samples_of outage))
    × (avg_latency_of (outcomes false outage (new_stat 5)) ≡ recent_latency (samples_of outage))
    × (success_rate_of (outcomes false outage (new_stat 5)) ≤ 100)
shown_rate_is_recent_example = shown_rate_is_recent false 5 outage

abbrev per_second : ℕ → ℕ → ℕ
per_second bytes ms = bytes * 1000 / ms

-- The interface is made anew between the second reading and the third.
abbrev counters : List Reading
counters =
    record { sent = 500; received = 90; at = 2000 }
    ∷ record { sent = 800; received = 100; at = 3000 }
    ∷ record { sent = 10; received = 0; at = 4000 }
    ∷ record { sent = 60; received = 7; at = 5000 }
    ∷ []

abbrev started : Stat
started = record (new_stat 0) { active_up = 500; active_down = 50; last_conn_sample = 1000 }

readings-total_example :
    ((readings per_second counters started).total_up
      ≡ started.total_up + growth per_second (λ r. r.sent) started.active_up counters)
    × ((readings per_second counters started).total_down
        ≡ started.total_down + growth per_second (λ r. r.received) started.active_down counters)
unfolding new_stat
readings-total_example =
    readings-total per_second counters started (omega arith)
      (omega arith, (omega arith, (omega arith, (omega arith, tt))))

sums :
    aggregate
      (record { upload = 5; download = 7; chains = "a" ∷ "g" ∷ [] }
        ∷ record { upload = 1; download = 2; chains = "g" ∷ [] }
        ∷ [])
      (λ i. none)
      []
      "g"
    ≡ some (6, 9)
unfolding aggregate
sums = refl
