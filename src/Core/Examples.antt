-- ===== src/Core/Examples.antt =====
-- internal/core/singbox.go: runs of the supervisor.
use velinx.Base.{◌*◌, ◌≤◌, length, ℕ, ◌≡◌, ◌⊎◌, refl, true, false, List, [], ◌∷◌, none, some, arith}
use velinx.Core.{
  World, init, holds, alive, Spawn, Failure, start, start_locked, start_if_desired_dead, stop_begin,
  Ending, KillError, stop, start_failed, stop_failed, reload, Event, run,
}
use velinx.Core.Log.{new_ring_log, write, writes, feed, joined, writes_bytewise}
use velinx.Core.Process.{Live, owned, no_process_lost}
use velinx.Core.Intent.{none_starts, stop_is_final, reload_unsupervised}

abbrev found : Spawn
found = record { available = true; failure = none; now = 7 }

abbrev missing : Spawn
missing = record { available = false; failure = none; now = 8 }

abbrev begun : List Event
begun = Event.starts found ∷ []

abbrev running : World
running = run begun init

-- A stop is waiting for the first process while a second one runs.
abbrev overlapping : List Event
overlapping = Event.starts found ∷ Event.begins_stop ∷ Event.starts found ∷ []

first-Live : Live 0 (run overlapping init)
unfolding run stop_begin start start_locked holds
first-Live = (ground arith, refl)

second-Live : Live 1 (run overlapping init)
unfolding run stop_begin start start_locked holds
second-Live = (ground arith, refl)

no_process_lost_example :
    (owned 0 (run overlapping init) ≡ true)
    × ((◌≡◌ {A = ℕ} 0 1)
        ⊎ ((holds 0 (run overlapping init).stops ≡ true)
            ⊎ (holds 1 (run overlapping init).stops ≡ true)))
no_process_lost_example = no_process_lost overlapping 0 1 first-Live second-Live

-- After the stop the process ends and the watchdog looks twice.
abbrev afterwards : List Event
afterwards = Event.watches found ∷ Event.exits 0 none ∷ Event.watches found ∷ Event.returns 0 ∷ []

nothing_starts : none_starts afterwards ≡ true
unfolding none_starts
nothing_starts = refl

stop_is_final_example :
    ((run afterwards (stop_begin running)).box.desired ≡ false)
    × ((run afterwards (stop_begin running)).box.cmd ≡ none)
    × ((run afterwards (stop_begin running)).spawned ≡ running.spawned)
stop_is_final_example = stop_is_final running afterwards nothing_starts

stops_cleanly : (stop Ending.on_term none running).1 ≡ none
unfolding stop run start start_locked
stops_cleanly = refl

start_lost : (reload Ending.on_term none missing running).1 ≡ some (start_failed Failure.no_binary)
unfolding reload stop start start_locked run alive
start_lost = refl

abbrev denied : Ending
denied = Ending.on_kill (some (KillError.other "operation not permitted"))

kill_denied : (stop denied none running).1 ≡ some "operation not permitted"
unfolding stop run start start_locked
kill_denied = refl

reload_unsupervised_example :
    ((reload denied none found running).1 ≡ some (stop_failed "operation not permitted"))
    × (start_if_desired_dead found (reload denied none found running).0
        ≡ ((reload denied none found running).0, false, none))
reload_unsupervised_example =
    reload_unsupervised denied none found found running "operation not permitted" kill_denied

-- Two lines in three writes, the second line ended by a carriage return as well.
abbrev output : List (List ℕ)
output = (b'a' ∷ b'b' ∷ []) ∷ (10 ∷ b'c' ∷ 13 ∷ []) ∷ (10 ∷ b'd' ∷ []) ∷ []

output_lines : (writes output (new_ring_log 500)).lines ≡ (b'a' ∷ b'b' ∷ []) ∷ (b'c' ∷ []) ∷ []
unfolding writes write
output_lines = refl

writes_bytewise_example :
    (writes output (new_ring_log 500) ≡ feed (joined output) (new_ring_log 500))
    × (length (writes output (new_ring_log 500)).lines ≤ 2 * 500)
writes_bytewise_example = writes_bytewise 500 output
