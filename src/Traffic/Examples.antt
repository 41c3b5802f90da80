-- ===== src/Traffic/Examples.antt =====
-- internal/traffic/ring.go: a hub of two samples with one slow subscriber, and the theorem at it.
use velinx.Base.{◌≡◌, refl, some, List, [], ◌∷◌, pos}
use velinx.Traffic.{Sample, Hub, new_hub, recent_n}
use velinx.Traffic.Channels.{
  Op, pushes, subscribes, cancels, receives, run, pushed, Holds, capacity, retained,
  hub_refines_history,
}

abbrev sample : Sample → Op
sample s = pushes s

abbrev first : Sample
first = record { t = 1; up = 10; down = 20 }

abbrev second : Sample
second = record { t = 2; up = 11; down = 21 }

abbrev third : Sample
third = record { t = 3; up = 12; down = 22 }

abbrev session : List Op
session =
    subscribes
    ∷ pushes first
    ∷ pushes second
    ∷ cancels 0
    ∷ cancels 0
    ∷ receives 0
    ∷ pushes third
    ∷ []

hub_refines_history_example :
    (h : Hub) × (run session (new_hub (pos 2)) ≡ some h)
    × Holds (capacity (pos 2)) (pushed session) h
    × (recent_n (pos 1) h ≡ retained (pos 2) (pos 1) (pushed session))
hub_refines_history_example = hub_refines_history (pos 2) (pos 1) session

last_pushed_remains : retained (pos 2) (pos 1) (pushed session) ≡ third ∷ []
unfolding pushed capacity
last_pushed_remains = refl
