-- ===== src/Core/Intent.antt =====
-- internal/core/singbox.go: who may start the process, and what a reload leaves.
use velinx.Base.{
  ℕ, ◌≡◌, refl, ◌↔◌, String, Bool, true, false, List, [], ◌∷◌, Option, none, some, arith,
}
use velinx.Core.{
  World, holds, alive, Spawn, Failure, start_locked, start, start_if_desired_dead, started_of,
  stop_begin, exit, stop_return, Ending, stop, ReloadError, stop_failed, start_failed, reassert,
  restarted, reload, Event, step, run,
}
use velinx.Core.Process.{IsValid}

-- No call of `Start` and no failed reload.
unfoldable pub none_starts : List Event → Bool
none_starts [] = true
none_starts (Event.starts e ∷ vs) = false
none_starts (Event.reasserts ∷ vs) = false
none_starts (_ ∷ vs) = none_starts vs

-- A supervisor that is to do nothing, with `n` processes started so far.
abbrev Idle : ℕ → World → Type 0
Idle n w = (w.box.desired ≡ false) × (w.box.cmd ≡ none) × (w.spawned ≡ n)

watch-Idle :
    (e : Spawn) (n : ℕ) (w : World) → Idle n w → start_if_desired_dead e w ≡ (w, false, none)
unfolding start_if_desired_dead
watch-Idle e n w h = rw (h.0)

run-Idle :
    (vs : List Event) (n : ℕ) (w : World) → none_starts vs ≡ true → Idle n w → Idle n (run vs w)
unfolding run none_starts step stop_begin exit stop_return
run-Idle [] n w h i = i
run-Idle (Event.starts e ∷ vs) n w h i = absurd (cc)
run-Idle (Event.reasserts ∷ vs) n w h i = absurd (cc)
run-Idle (Event.watches e ∷ vs) n w h i =
    run-Idle vs n (step (Event.watches e) w) h (rw (watch-Idle e n w i, step) i)
run-Idle (Event.begins_stop ∷ vs) n w h i = run-Idle vs n (stop_begin w) h (refl, refl, i.2)
run-Idle (Event.exits p err ∷ vs) n w h i =
    run-Idle vs n (exit p err w) h (ground arith, ground arith, ground arith)
run-Idle (Event.returns p ∷ vs) n w h i =
    run-Idle vs n (stop_return p w) h (ground arith, ground arith, ground arith)

-- From the moment that a `Stop` has taken the process over, and until a `Start` or a failed reload,
-- nothing starts a process again, whatever the watchdog reads and whichever processes end.
pub stop_is_final :
    (w : World) (vs : List Event)
    → none_starts vs ≡ true
    → ((run vs (stop_begin w)).box.desired ≡ false)
      × ((run vs (stop_begin w)).box.cmd ≡ none)
      × ((run vs (stop_begin w)).spawned ≡ w.spawned)
unfolding stop_begin
stop_is_final w vs h = run-Idle vs w.spawned (stop_begin w) h (refl, refl, refl)

-- What a whole stop leaves.
stop_leaves : (k : Ending) (err : Option String) (w : World) → Idle w.spawned (stop k err w).0
unfolding stop stop_begin stop_return exit
stop_leaves k err w = (ground arith, ground arith, ground arith)

stop_closed :
    (k : Ending) (err : Option String) (w : World)
    → IsValid w
    → holds w.spawned (stop k err w).0.closed ≡ false
unfolding stop stop_begin stop_return exit holds
stop_closed k err w v = ground (arith, v.closed_spawned w.spawned)

reload_ok :
    (k : Ending) (err : Option String) (e : Spawn) (w : World)
    → (stop k err w).1 ≡ none
    → reload k err e w ≡ restarted (start e (stop k err w).0)
unfolding reload
reload_ok k err e w h = rw (h, reload) refl

reload_failed :
    (k : Ending) (err : Option String) (e : Spawn) (w : World) (x : String)
    → (stop k err w).1 ≡ some x
    → reload k err e w ≡ ((stop k err w).0, some (stop_failed x))
unfolding reload
reload_failed k err e w x h = rw (h, reload) refl

-- A start on a supervisor without a process whose next number is new.
abbrev Ready : World → Type 0
Ready u = (u.box.cmd ≡ none) × (holds u.spawned u.closed ≡ false)

stop-Ready : (k : Ending) (err : Option String) (w : World) → IsValid w → Ready (stop k err w).0
stop-Ready k err w v =
    ((stop_leaves k err w).1, rw ((stop_leaves k err w).2) (stop_closed k err w v))

restarted_intent :
    (e : Spawn) (u : World)
    → Ready u
    → ((restarted (start e u)).0.box.desired ≡ true)
      × ((alive (restarted (start e u)).0 ≡ true) ↔ ((restarted (start e u)).1 ≡ none))
unfolding start start_locked alive restarted reassert
restarted_intent e u r =
    (ground (arith, r.0, r.1), (λ h. ground (arith, r.0, r.1), λ h. ground (arith, r.0, r.1)))

-- A start that failed changes the intent alone.
restarted_failed :
    (e : Spawn) (u : World) (x : ReloadError)
    → Ready u
    → (restarted (start e u)).1 ≡ some x
    → (restarted (start e u)).0 ≡ reassert u
unfolding start start_locked alive restarted
restarted_failed e u x r h = ground (arith, r.0, r.1)

watch_starts :
    (f : Spawn) (u : World)
    → Ready u
    → f.available ≡ true
    → f.failure ≡ none
    → ((start_if_desired_dead f (reassert u)).1 ≡ true)
      × (alive (start_if_desired_dead f (reassert u)).0 ≡ true)
unfolding start_if_desired_dead start_locked alive started_of reassert
watch_starts f u r a b = (ground (arith, r.0, r.1), ground (arith, r.0, r.1))

-- A reload whose stop returned no error wants the process afterwards, and the process runs exactly
-- when the reload returned no error.
pub reload_keeps_intent :
    (k : Ending) (err : Option String) (e : Spawn) (w : World)
    → IsValid w
    → (stop k err w).1 ≡ none
    → ((reload k err e w).0.box.desired ≡ true)
      × ((alive (reload k err e w).0 ≡ true) ↔ ((reload k err e w).1 ≡ none))
reload_keeps_intent k err e w v h =
    rw (reload_ok k err e w h) (restarted_intent e (stop k err w).0 (stop-Ready k err w v))

-- After a reload whose start failed, the watchdog starts the process as soon as a start succeeds.
pub reload_recovers :
    (k : Ending) (err : Option String) (e f : Spawn) (w : World) (x : Failure)
    → IsValid w
    → (stop k err w).1 ≡ none
    → (reload k err e w).1 ≡ some (start_failed x)
    → f.available ≡ true
    → f.failure ≡ none
    → ((start_if_desired_dead f (reload k err e w).0).1 ≡ true)
      × (alive (start_if_desired_dead f (reload k err e w).0).0 ≡ true)
reload_recovers k err e f w x v s h a b =
    let r = stop-Ready k err w v in
    let q = reload_ok k err e w s in
    let t = restarted_failed e (stop k err w).0 (start_failed x) r (rw (q) at h) in
    rw (q, t) (watch_starts f (stop k err w).0 r a b)

-- A reload whose stop returned an error leaves a supervisor that does not want the process, which
-- the watchdog does not start again.
pub reload_unsupervised :
    (k : Ending) (err : Option String) (e f : Spawn) (w : World) (x : String)
    → (stop k err w).1 ≡ some x
    → ((reload k err e w).1 ≡ some (stop_failed x))
      × (start_if_desired_dead f (reload k err e w).0 ≡ ((reload k err e w).0, false, none))
reload_unsupervised k err e f w x h =
    rw (reload_failed k err e w x h)
      (refl, watch-Idle f w.spawned (stop k err w).0 (stop_leaves k err w))
