-- ===== src/Core.antt =====
-- internal/core/singbox.go: the supervisor of the sing-box process. A process is a number; its `done`
-- channel is closed when it was waited for. What happens under the lock is one step; `Stop` waits
-- for the process outside the lock, so it is a step that takes the process over and a step that
-- returns.
pub mod Process
pub mod Intent
pub mod Log
mod Examples
use velinx.Base.{
  ℕ, ◌+◌, String, Bool, true, false, List, [], ◌∷◌, Option, none, some, ◌&&◌, ◌||◌, not, ◌==◌, ltb,
  if◌then◌else◌,
}

pub record SingBox : Type 0 where
  pub cmd : Option ℕ
  pub desired : Bool
  pub started_at : ℕ
  pub exit_err : Option String

-- `stops` are the processes that a `Stop` took over and still waits for.
pub record World : Type 0 where
  pub box : SingBox
  pub spawned : ℕ
  pub closed : List ℕ
  pub stops : List ℕ

abbrev pub init : World
init = record {
  box = record { cmd = none; desired = false; started_at = 0; exit_err = none };
  spawned = 0;
  closed = [];
  stops = [];
}

unfoldable pub holds : ℕ → List ℕ → Bool
holds p [] = false
holds p (q ∷ qs) = q == p || holds p qs

unfoldable pub drop_pid : ℕ → List ℕ → List ℕ
drop_pid p [] = []
drop_pid p (q ∷ qs) = let rest = drop_pid p qs in if q == p then rest else q ∷ rest

-- `aliveLocked`: the channel `done` is set with `cmd`.
unfoldable pub alive : World → Bool
unfolding holds
alive w = elim w.box.cmd [ none ↦ false | some p ↦ not (holds p w.closed) ]

-- What a spawn finds: the binary, and what `cmd.Start` returns.
pub record Spawn : Type 0 where
  pub available : Bool
  pub failure : Option String
  pub now : ℕ

pub data Failure : Type 0 where
  no_binary : Failure
  spawn_failed : String → Failure

unfoldable pub start_locked : Spawn → World → World × Option Failure
start_locked e w = if not e.available then (w, some no_binary) else elim e.failure [
  | some x ↦ (w, some (spawn_failed x))
  | none ↦ (
    record w {
      box = record { cmd = some w.spawned; desired = true; started_at = e.now; exit_err = none };
      spawned = w.spawned + 1;
    },
    none,
  )
]

unfoldable pub start : Spawn → World → World × Option Failure
unfolding alive start_locked
start e w =
    if alive w then (record w { box = record w.box { desired = true } }, none) else start_locked e w

unfoldable pub started_of : World × Option Failure → World × Bool × Option Failure
started_of (w, none) = (w, true, none)
started_of (w, some x) = (w, false, some x)

unfoldable pub start_if_desired_dead : Spawn → World → World × Bool × Option Failure
unfolding alive start_locked started_of
start_if_desired_dead e w =
    if not w.box.desired || alive w then (w, false, none) else started_of (start_locked e w)

taken : Option ℕ → List ℕ → List ℕ
taken none ps = ps
taken (some p) ps = p ∷ ps

-- The part of `Stop` under the lock.
unfoldable pub stop_begin : World → World
unfolding taken
stop_begin w = record w {
  box = record w.box { desired = false; cmd = none };
  stops = taken w.box.cmd w.stops;
}

-- The goroutine of a process: the wait returns, `exitErr` is set and `done` closed.
unfoldable pub exit : ℕ → Option String → World → World
unfolding holds
exit p err w =
    if ltb p w.spawned && not (holds p w.closed)
    then record w { box = record w.box { exit_err = err }; closed = p ∷ w.closed }
    else w

-- Every way out of `Stop` has seen `done` closed.
unfoldable pub stop_return : ℕ → World → World
unfolding holds drop_pid
stop_return p w = if holds p w.closed then record w { stops = drop_pid p w.stops } else w

-- What ends the process under a `Stop`: the signal in time, or `Kill`, and what `Kill` returned.
pub data KillError : Type 0 where
  already_done : KillError
  other : String → KillError

pub data Ending : Type 0 where
  on_term : Ending
  on_kill : Option KillError → Ending

result_of : Ending → Option String
result_of on_term = none
result_of (on_kill none) = none
result_of (on_kill (some already_done)) = none
result_of (on_kill (some (other e))) = some e

-- A whole `Stop` that nothing comes between.
unfoldable pub stop : Ending → Option String → World → World × Option String
unfolding holds stop_begin exit stop_return result_of
stop k err w = elim w.box.cmd [
  | none ↦ (stop_begin w, none)
  | some p ↦
      if holds p w.closed
      then (stop_return p (stop_begin w), none)
      else (stop_return p (exit p err (stop_begin w)), result_of k)
]

pub data ReloadError : Type 0 where
  stop_failed : String → ReloadError
  start_failed : Failure → ReloadError

-- `Reload` after a failed `Start` asks for the process all the same.
unfoldable pub reassert : World → World
reassert w = record w { box = record w.box { desired = true } }

unfoldable pub restarted : World × Option Failure → World × Option ReloadError
unfolding reassert
restarted (w, none) = (w, none)
restarted (w, some x) = (reassert w, some (start_failed x))

unfoldable pub reload : Ending → Option String → Spawn → World → World × Option ReloadError
unfolding stop start restarted
reload k err e w =
    let r = stop k err w in
    let after = restarted (start e r.0) in
    elim r.1 [ some x ↦ (r.0, some (stop_failed x)) | none ↦ after ]

-- What may happen, in any order: calls of handlers and of the watchdog, ends of processes.
pub data Event : Type 0 where
  starts watches : Spawn → Event
  begins_stop : Event
  exits : ℕ → Option String → Event
  returns : ℕ → Event
  reasserts : Event

unfoldable pub step : Event → World → World
step (starts e) w = (start e w).0
step (watches e) w = (start_if_desired_dead e w).0
step begins_stop w = stop_begin w
step (exits p err) w = exit p err w
step (returns p) w = stop_return p w
step reasserts w = reassert w

unfoldable pub run : List Event → World → World
unfolding step
run [] w = w
run (v ∷ vs) w = run vs (step v w)
