-- ===== src/Engine/Pruner/Loop/Gate.antt =====
-- When the pruner prunes, and when it warns.
use monitra.Base.{
  ℕ, ◌+◌, ◌≡◌, refl, ap, ◌∙◌, Bool, true, false, ◌&&◌, List, [], ◌∷◌, ltb, arith, length, subst,
  sym, if◌then◌else◌,
}
use monitra.Provider.Cache.{Answer, ok, err}
use monitra.Engine.Pruner.{PassResult, consecutive_backlog}
use monitra.Engine.Pruner.Loop.{
  Event, ready_changed, shutdown_changed, ready_lost, shutdown_lost, tick, Phase, waiting, running,
  stopped, Loop, start, stop, after_pass, step_waiting, step_running, step, run,
}

-- The passes that are due: those of the ticks after the first readiness and before the first sign of
-- shutdown, told by the events alone.
abbrev pub due_running : List Event → List (Answer PassResult)
due_running [] = []
due_running (tick pass ∷ events) = pass ∷ due_running events
due_running (shutdown_changed true ∷ events) = []
due_running (shutdown_changed false ∷ events) = due_running events
due_running (shutdown_lost ∷ events) = []
due_running (ready_changed ready ∷ events) = due_running events
due_running (ready_lost ∷ events) = due_running events

abbrev pub due_waiting : List Event → List (Answer PassResult)
due_waiting [] = []
due_waiting (tick pass ∷ events) = due_waiting events
due_waiting (shutdown_changed true ∷ events) = []
due_waiting (shutdown_changed false ∷ events) = due_waiting events
due_waiting (shutdown_lost ∷ events) = []
due_waiting (ready_changed true ∷ events) = due_running events
due_waiting (ready_changed false ∷ events) = due_waiting events
due_waiting (ready_lost ∷ events) = []

-- The warnings of a row of passes: one for each that leaves a backlog right after one that did.
abbrev pub left_behind : Answer PassResult → Bool
left_behind (ok pass) = ltb 0 pass.backlog
left_behind (err error) = false

abbrev pub warned : Bool → List (Answer PassResult) → ℕ
warned before [] = 0
warned before (pass ∷ passes) =
    (if left_behind pass && before then 1 else 0) + warned (left_behind pass) passes

-- So many passes more, and their warnings.
abbrev pub Follows : List (Answer PassResult) → Loop → Loop → Type 0
Follows passes loop loop' =
    (loop'.passes ≡ loop.passes + length passes)
    × (loop'.warnings ≡ loop.warnings + warned loop.behind.last_pass_behind passes)

run_stopped : (loop : Loop) (events : List Event) → loop.phase ≡ stopped → run loop events ≡ loop
unfolding run step
run_stopped loop [] e = refl
run_stopped loop (event ∷ events) e =
    ap (λ phase. run (step phase loop event) events) e ∙ run_stopped loop events e

Follows-after_pass :
    (loop loop' : Loop) (pass : Answer PassResult) (passes : List (Answer PassResult))
    → Follows passes (after_pass loop pass) loop'
    → Follows (pass ∷ passes) loop loop'
unfolding after_pass consecutive_backlog
Follows-after_pass loop loop' (ok pass) passes (p, w) = ground (arith, p, w)
Follows-after_pass loop loop' (err error) passes (p, w) = ground (arith, p, w)

after_pass-phase :
    (loop : Loop) (pass : Answer PassResult) → (after_pass loop pass).phase ≡ loop.phase
unfolding after_pass
after_pass-phase loop (ok pass) = refl
after_pass-phase loop (err error) = refl

-- A round in the phase that the loop is in.
in_phase :
    (phase : Phase) (loop : Loop) (event : Event) (events : List Event)
    (passes : List (Answer PassResult))
    → loop.phase ≡ phase
    → Follows passes loop (run (step phase loop event) events)
    → Follows passes loop (run loop (event ∷ events))
unfolding run
in_phase phase loop event events passes e h =
    subst (λ p. Follows passes loop (run (step p loop event) events)) (sym e) h

run_stop : (loop : Loop) (events : List Event) → Follows [] loop (run (stop loop) events)
unfolding stop
run_stop loop events =
    let e = run_stopped (record loop { phase = stopped }) events refl in
    (ap (λ l. l.passes) e ∙ omega arith, ap (λ l. l.warnings) e ∙ omega arith)

run_running :
    (loop : Loop) (events : List Event)
    → loop.phase ≡ running
    → Follows (due_running events) loop (run loop events)
unfolding step step_running
run_running loop [] e = unfold run in (omega arith, omega arith)
run_running loop (tick pass ∷ events) e =
    in_phase running loop (tick pass) events (pass ∷ due_running events) e (
      Follows-after_pass loop (run (after_pass loop pass) events) pass (due_running events)
        (run_running (after_pass loop pass) events (after_pass-phase loop pass ∙ e)))
run_running loop (ready_changed ready ∷ events) e =
    in_phase running loop (ready_changed ready) events (due_running events) e
      (run_running loop events e)
run_running loop (ready_lost ∷ events) e =
    in_phase running loop ready_lost events (due_running events) e (run_running loop events e)
run_running loop (shutdown_changed true ∷ events) e =
    in_phase running loop (shutdown_changed true) events [] e (run_stop loop events)
run_running loop (shutdown_changed false ∷ events) e =
    in_phase running loop (shutdown_changed false) events (due_running events) e
      (run_running loop events e)
run_running loop (shutdown_lost ∷ events) e =
    in_phase running loop shutdown_lost events [] e (run_stop loop events)

run_waiting :
    (loop : Loop) (events : List Event)
    → loop.phase ≡ waiting
    → Follows (due_waiting events) loop (run loop events)
unfolding step step_waiting
run_waiting loop [] e = unfold run in (omega arith, omega arith)
run_waiting loop (tick pass ∷ events) e =
    in_phase waiting loop (tick pass) events (due_waiting events) e (run_waiting loop events e)
run_waiting loop (ready_changed true ∷ events) e =
    in_phase waiting loop (ready_changed true) events (due_running events) e
      (run_running (record loop { phase = running }) events refl)
run_waiting loop (ready_changed false ∷ events) e =
    in_phase waiting loop (ready_changed false) events (due_waiting events) e
      (run_waiting (record loop { phase = waiting }) events refl)
run_waiting loop (ready_lost ∷ events) e =
    in_phase waiting loop ready_lost events [] e (run_stop loop events)
run_waiting loop (shutdown_changed true ∷ events) e =
    in_phase waiting loop (shutdown_changed true) events [] e (run_stop loop events)
run_waiting loop (shutdown_changed false ∷ events) e =
    in_phase waiting loop (shutdown_changed false) events (due_waiting events) e
      (run_waiting loop events e)
run_waiting loop (shutdown_lost ∷ events) e =
    in_phase waiting loop shutdown_lost events [] e (run_stop loop events)

-- Under any events the pruner makes just the passes of the ticks after it is told that the daemon is
-- ready and before it is told to stop, or loses the channel that would tell it; and it warns once
-- for each of them that leaves a backlog right after one that left one, a failed pass leaving none.
pub run-Follows :
    (ready : Bool) (events : List Event)
    → Follows
        (if ready then due_running events else due_waiting events)
        (start ready)
        (run (start ready) events)
unfolding start
run-Follows true events = run_running (start true) events refl
run-Follows false events = run_waiting (start false) events refl
