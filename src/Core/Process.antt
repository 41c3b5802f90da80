-- ===== src/Core/Process.antt =====
-- internal/core/singbox.go: which processes the supervisor and the stops in flight know.
use velinx.Base.{
  ℕ, ◌<◌, ◌≡◌, ◌⊎◌, inl, inr, String, Bool, true, false, List, [], ◌∷◌, Option, none, some, ◌||◌,
  not, ◌==◌, arith, Bool-cases,
}
use velinx.Core.{
  World, init, holds, drop_pid, alive, Spawn, Failure, start_locked, start, start_if_desired_dead,
  stop_begin, exit, stop_return, reassert, started_of, Event, step, run,
}

-- A process that runs.
abbrev pub Live : ℕ → World → Type 0
Live p w = (p < w.spawned) × (holds p w.closed ≡ false)

abbrev runs_as : ℕ → Option ℕ → Bool
runs_as p none = false
runs_as p (some q) = q == p

-- The supervisor knows the process, or a `Stop` waits for it.
abbrev pub owned : ℕ → World → Bool
owned p w = runs_as p w.box.cmd || holds p w.stops

pub record IsValid (w : World) : Type 0 where
  pub cmd_spawned : (p : ℕ) → runs_as p w.box.cmd ≡ true → p < w.spawned
  pub closed_spawned : (p : ℕ) → holds p w.closed ≡ true → p < w.spawned
  pub tracked : (p : ℕ) → Live p w → owned p w ≡ true

pub init-IsValid : IsValid init
unfolding holds
init-IsValid = record {
  cmd_spawned = λ p h. cc;
  closed_spawned = λ p h. cc;
  tracked = λ p h. ground arith;
}

start_locked-IsValid :
    (e : Spawn) (w : World) → alive w ≡ false → IsValid w → IsValid (start_locked e w).0
unfolding start_locked alive
start_locked-IsValid e w d v = record {
  cmd_spawned = λ p h. ground (arith, v.cmd_spawned p);
  closed_spawned = λ p h. ground (arith, v.closed_spawned p);
  tracked = λ p h. ground (arith, v.tracked p);
}

start-IsValid : (e : Spawn) (w : World) → IsValid w → IsValid (start e w).0
unfolding start
start-IsValid e w v = elim (Bool-cases (alive w)) [
  | inl a ↦ rw (a) (record {
    cmd_spawned = v.cmd_spawned;
    closed_spawned = v.closed_spawned;
    tracked = v.tracked;
  })
  | inr a ↦ rw (a) (start_locked-IsValid e w a v)
]

drop_pid-holds :
    (p q : ℕ) (ps : List ℕ) → holds p ps ≡ true → (q == p) ≡ false → holds p (drop_pid q ps) ≡ true
unfolding holds drop_pid
drop_pid-holds p q [] h d = h
drop_pid-holds p q (x ∷ ps) h d = ground (arith, drop_pid-holds p q ps)

stop_begin-IsValid : (w : World) → IsValid w → IsValid (stop_begin w)
unfolding stop_begin holds
stop_begin-IsValid w v = record {
  cmd_spawned = λ p h. cc;
  closed_spawned = v.closed_spawned;
  tracked = λ p h. ground (arith, v.tracked p h);
}

exit-IsValid : (q : ℕ) (err : Option String) (w : World) → IsValid w → IsValid (exit q err w)
unfolding exit holds
exit-IsValid q err w v = record {
  cmd_spawned = λ p h. ground (arith, v.cmd_spawned p);
  closed_spawned = λ p h. ground (arith, v.closed_spawned p);
  tracked = λ p h. ground (arith, v.tracked p);
}

stop_return-IsValid : (q : ℕ) (w : World) → IsValid w → IsValid (stop_return q w)
unfolding stop_return
stop_return-IsValid q w v = record {
  cmd_spawned = λ p h. ground (arith, v.cmd_spawned p);
  closed_spawned = λ p h. ground (arith, v.closed_spawned p);
  tracked = λ p h. ground (arith, v.tracked p, drop_pid-holds p q w.stops);
}

start_if_desired_dead-IsValid :
    (e : Spawn) (w : World) → IsValid w → IsValid (start_if_desired_dead e w).0
unfolding start_if_desired_dead
start_if_desired_dead-IsValid e w v = elim (Bool-cases (not w.box.desired || alive w)) [
  | inl a ↦ rw (a) v
  | inr a ↦ rw (a) (started (start_locked e w) (start_locked-IsValid e w (ground arith) v))
]
  where
    started : (r : World × Option Failure) → IsValid r.0 → IsValid (started_of r).0
    started (w, none) v = v
    started (w, some x) v = v

step-IsValid : (o : Event) (w : World) → IsValid w → IsValid (step o w)
unfolding step reassert
step-IsValid (Event.starts e) w v = start-IsValid e w v
step-IsValid (Event.watches e) w v = start_if_desired_dead-IsValid e w v
step-IsValid Event.begins_stop w v = stop_begin-IsValid w v
step-IsValid (Event.exits p err) w v = exit-IsValid p err w v
step-IsValid (Event.returns p) w v = stop_return-IsValid p w v
step-IsValid Event.reasserts w v = record {
  cmd_spawned = v.cmd_spawned;
  closed_spawned = v.closed_spawned;
  tracked = v.tracked;
}

pub run-IsValid : (vs : List Event) (w : World) → IsValid w → IsValid (run vs w)
unfolding run
run-IsValid [] w v = v
run-IsValid (o ∷ vs) w v = run-IsValid vs (step o w) (step-IsValid o w v)

-- After any sequence of calls and exits, in any order, a process that runs is the supervisor's own
-- or one that a `Stop` still waits for, and of two different processes that run, a `Stop` waits for
-- one.
pub no_process_lost :
    (vs : List Event) (p q : ℕ)
    → Live p (run vs init)
    → Live q (run vs init)
    → (owned p (run vs init) ≡ true)
      × ((p ≡ q) ⊎ ((holds p (run vs init).stops ≡ true) ⊎ (holds q (run vs init).stops ≡ true)))
no_process_lost vs p q a b =
    let v = run-IsValid vs init init-IsValid in
    (
      v.tracked p a,
      elim (Bool-cases (holds p (run vs init).stops)) [
        | inl h ↦ inr (inl h)
        | inr h ↦ elim (Bool-cases (holds q (run vs init).stops)) [
          | inl k ↦ inr (inr k)
          | inr k ↦ inl (ground (arith, v.tracked p a, v.tracked q b))
        ]
      ],
    )
