-- ===== src/Engine/Scheduler/Loop/Invariant.antt =====
-- What holds of the loop in the states that it reaches.
use mathlib.Core.Option.{Option}
use monitra.Base.{ℕ, String, ◌≡◌, refl, none, some, List, [], ◌∷◌, arith, Option-cases, inl, inr}
use monitra.Base.Dict.{Dict, lookup, remove, lookup-remove, Unique}
use monitra.Models.{Monitor}
use monitra.Probe.{unavailable}
use monitra.Provider.Collector.{unknown}
use monitra.Engine.Assignments.{AssignmentHandle}
use monitra.Engine.Scheduler.{Scheduler, Outcome, TaskOwner, new, PushedResult}
use monitra.Engine.Scheduler.Results.{
  handle_joined, handle_failed, handle_pushed, handle_known, join_error_message, Joined, done,
  failed,
}
use monitra.Engine.Scheduler.Resync.{resync}
use monitra.Engine.Scheduler.Dispatch.{Env, Job, Tasks, dispatch_due}
use monitra.Engine.Scheduler.Dispatch.Laws.{due_ids}
use monitra.Engine.Scheduler.Loop.{
  Running, Event, shutdown, resync_tick, due, joins, receives, deadline, Ending, completes, fails,
  Phase, serving, draining, ended, step, run, start, serve, drain, in_phase, join, joined_of,
}
use monitra.Engine.Scheduler.Loop.Owners.{Owned, dispatch_all-Owned}
use monitra.Engine.Scheduler.Loop.Entries.{
  registry-dispatch_all-Unique, resync-Unique, handle_outcome-Unique,
}

-- Each running task has its owner, nothing else has one, and no monitor has two entries.
abbrev pub IsConsistent : {C : Type 0} → Running C → Type 0
IsConsistent r = Owned r.tasks × Unique r.scheduler.registry

module _ {C : Type 0} where
  handle_failed-Unique :
      (s : Scheduler C) (now_secs : ℕ) (message : String) (owner : Option TaskOwner)
      → Unique s.registry
      → Unique (handle_failed s now_secs message owner).0.registry
  unfolding handle_failed
  handle_failed-Unique s now_secs message none u = u
  handle_failed-Unique s now_secs message (some (TaskOwner.network m)) u =
      handle_outcome-Unique s now_secs (Outcome.network m (unavailable message)) u
  handle_failed-Unique s now_secs message (some (TaskOwner.collector m)) u =
      handle_outcome-Unique s now_secs (Outcome.collector m (unknown message) 0) u

  handle_joined-Unique :
      (s : Scheduler C) (now_secs : ℕ) (owners : Dict TaskOwner) (joined : Joined)
      → Unique s.registry
      → Unique (handle_joined s now_secs owners joined).0.0.registry
  unfolding handle_joined
  handle_joined-Unique s now_secs owners (done id outcome) u =
      handle_outcome-Unique s now_secs outcome u
  handle_joined-Unique s now_secs owners (failed id error) u =
      handle_failed-Unique s now_secs (join_error_message error) (lookup id owners) u

  handle_pushed-Unique :
      (s : Scheduler C) (now_secs : ℕ) (listed : Option (List Monitor)) (now : ℕ)
      (pushed : PushedResult)
      → Unique s.registry
      → Unique (handle_pushed s now_secs listed now pushed).0.registry
  unfolding handle_pushed handle_known
  handle_pushed-Unique s now_secs listed now pushed u =
      let outcome = Outcome.network pushed.monitor_id pushed.outcome in
      elim (Option-cases (lookup pushed.monitor_id s.registry)) [
        | inl e ↦
            rw (e, handle_pushed, handle_known)
              (handle_outcome-Unique (resync s listed now) now_secs outcome
                (resync-Unique s listed now u))
        | inr (state, e) ↦
            rw (e, handle_pushed, handle_known) (handle_outcome-Unique s now_secs outcome u)
      ]

  owners-handle_joined :
      (s : Scheduler C) (now_secs task : ℕ) (owners : Dict TaskOwner) (job : Job C)
      (ending : Ending)
      → (handle_joined s now_secs owners (joined_of task job ending)).1 ≡ remove task owners
  unfolding handle_joined
  owners-handle_joined s now_secs task owners job (completes p c l) = refl
  owners-handle_joined s now_secs task owners job (fails error) = refl

  remove-Owned :
      (tasks : Tasks C) (task : ℕ)
      → Owned tasks
      → Owned (record { running = remove task tasks.running; owners = remove task tasks.owners })
  remove-Owned tasks task h t =
      ground (arith, h t, lookup-remove task t tasks.running, lookup-remove task t tasks.owners)

  join-IsConsistent :
      (r : Running C) (now_secs task : ℕ) (ending : Ending) (job : Option (Job C))
      → IsConsistent r
      → IsConsistent (join r now_secs task ending job).0
  unfolding join
  join-IsConsistent r now_secs task ending none h = h
  join-IsConsistent r now_secs task ending (some job) (o, u) = (
    rw (owners-handle_joined r.scheduler now_secs task r.tasks.owners job ending)
        (remove-Owned r.tasks task o),
    handle_joined-Unique r.scheduler now_secs r.tasks.owners (joined_of task job ending) u,
  )

module _ {C : Type 0} (env : Env C) where
  serve-IsConsistent : (r : Running C) (e : Event) → IsConsistent r → IsConsistent (serve env r e).0
  unfolding serve dispatch_due
  serve-IsConsistent r shutdown h = h
  serve-IsConsistent r (resync_tick listed now) (o, u) = (o, resync-Unique r.scheduler listed now u)
  serve-IsConsistent r (due now) (o, u) =
      let ids = due_ids now r.scheduler.registry in
      (
        dispatch_all-Owned env now r.scheduler r.tasks ids o,
        registry-dispatch_all-Unique env now r.scheduler r.tasks ids u,
      )
  serve-IsConsistent r (joins now_secs task ending) h =
      join-IsConsistent r now_secs task ending (lookup task r.tasks.running) h
  serve-IsConsistent r (receives now_secs listed now pushed) (o, u) =
      (o, handle_pushed-Unique r.scheduler now_secs listed now pushed u)
  serve-IsConsistent r deadline h = h

  drain-IsConsistent : (r : Running C) (e : Event) → IsConsistent r → IsConsistent (drain env r e).0
  unfolding drain
  drain-IsConsistent r (joins now_secs task ending) h =
      join-IsConsistent r now_secs task ending (lookup task r.tasks.running) h
  drain-IsConsistent r shutdown h = h
  drain-IsConsistent r (resync_tick listed now) h = h
  drain-IsConsistent r (due now) h = h
  drain-IsConsistent r (receives now_secs listed now pushed) h = h
  drain-IsConsistent r deadline h = h

  in_phase-IsConsistent :
      (phase : Phase) (r : Running C) (e : Event)
      → IsConsistent r
      → IsConsistent (in_phase env phase r e).0
  unfolding in_phase
  in_phase-IsConsistent serving r e h = serve-IsConsistent r e h
  in_phase-IsConsistent draining r e h = drain-IsConsistent r e h
  in_phase-IsConsistent ended r e h = h

  step-IsConsistent : (r : Running C) (e : Event) → IsConsistent r → IsConsistent (step env r e).0
  unfolding step
  step-IsConsistent r e h = in_phase-IsConsistent r.phase r e h

  run_all-IsConsistent :
      (r : Running C) (es : List Event) → IsConsistent r → IsConsistent (run env r es).0
  unfolding run
  run_all-IsConsistent r [] h = h
  run_all-IsConsistent r (e ∷ es) h =
      run_all-IsConsistent (step env r e).0 es (step-IsConsistent r e h)

  -- From its start, whatever the loop has been given to do and in whichever order, each running
  -- task has its owner, nothing else has one, and no monitor has two entries.
  pub run-IsConsistent :
      (assignments : AssignmentHandle) (listed : Option (List Monitor)) (now : ℕ) (es : List Event)
      → IsConsistent (run env (start env assignments listed now) es).0
  unfolding start
  run-IsConsistent assignments listed now es =
      run_all-IsConsistent (start env assignments listed now) es (
        λ t. unfold lookup in refl,
        resync-Unique (new C assignments) listed now (unfold new in tt),
      )
