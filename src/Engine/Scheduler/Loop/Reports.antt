-- ===== src/Engine/Scheduler/Loop/Reports.antt =====
-- What becomes of a task that ends without an outcome, in any state that the loop reaches.
use mathlib.Core.Option
use mathlib.Core.Option.{Option}
use monitra.Base.{ℕ, ◌≡◌, ◌≢◌, refl, ap, ◌∙◌, none, some, List, [], ◌∷◌, arith, inl, inr}
use monitra.Base.Dict.{lookup, lookup-remove}
use monitra.Models.{Monitor, stale}
use monitra.Engine.Assignments.{AssignmentHandle}
use monitra.Engine.Scheduler.{Effect}
use monitra.Engine.Scheduler.Results.{join_error_message, JoinError}
use monitra.Engine.Scheduler.Results.Laws.{written, status_of}
use monitra.Engine.Scheduler.Results.Honesty.{no_outcome, handle_joined_failed}
use monitra.Engine.Scheduler.Dispatch.{Env, Job}
use monitra.Engine.Scheduler.Dispatch.Once.{owner_of, job_monitor}
use monitra.Engine.Scheduler.Loop.{
  Running, Event, joins, fails, Phase, serving, draining, ended, step, run, start, serve, drain,
  in_phase, join,
}
use monitra.Engine.Scheduler.Loop.Invariant.{run-IsConsistent}

module _ {C : Type 0} (env : Env C) where
  -- What the loop makes of a task that ends without an outcome.
  abbrev pub Reported : Running C → Running C × List Effect → ℕ → ℕ → Job C → JoinError → Type 0
  Reported r (r', es) now_secs task job error =
      let id = job_monitor job in
      (written es ≡ no_outcome id now_secs (join_error_message error) ∷ [])
      × (status_of (lookup id r'.scheduler.registry)
          ≡ Option.map (λ _. stale) (lookup id r.scheduler.registry))
      × (lookup task r'.tasks.running ≡ none)

  join-Reported :
      (r : Running C) (now_secs task : ℕ) (job : Job C) (error : JoinError)
      → lookup task r.tasks.owners ≡ some (owner_of job)
      → Reported r (join r now_secs task (fails error) (some job)) now_secs task job error
  unfolding join
  join-Reported r now_secs task (Job.network id kind target) error h =
      let told =
        handle_joined_failed r.scheduler now_secs task id id r.tasks.owners error (inl h) in
      (told.2, told.0, ground (arith, lookup-remove task task r.tasks.running))
  join-Reported r now_secs task (Job.collector id c) error h =
      let told =
        handle_joined_failed r.scheduler now_secs task id id r.tasks.owners error (inr h) in
      (told.2, told.0, ground (arith, lookup-remove task task r.tasks.running))
  join-Reported r now_secs task (Job.report id reason) error h =
      let told =
        handle_joined_failed r.scheduler now_secs task id id r.tasks.owners error (inr h) in
      (told.2, told.0, ground (arith, lookup-remove task task r.tasks.running))

  in_phase-Reported :
      (phase : Phase) (r : Running C) (now_secs task : ℕ) (job : Job C) (error : JoinError)
      → phase ≢ ended
      → lookup task r.tasks.running ≡ some job
      → lookup task r.tasks.owners ≡ some (owner_of job)
      → Reported r
          (in_phase env phase r (joins now_secs task (fails error)))
          now_secs
          task
          job
          error
  unfolding in_phase serve drain
  in_phase-Reported serving r now_secs task job error n e h =
      rw e (join-Reported r now_secs task job error h)
  in_phase-Reported draining r now_secs task job error n e h =
      rw e (join-Reported r now_secs task job error h)
  in_phase-Reported ended r now_secs task job error n e h = absurd (n refl)

  -- No probe is lost: whatever happened since the start, if a task that runs is found, before the
  -- loop has ended, to have panicked or to have been cancelled, then its monitor is stale if it is
  -- still registered, one failed result with the reason is recorded for it, and the task is gone.
  pub step-Reported :
      (assignments : AssignmentHandle) (listed : Option (List Monitor)) (now : ℕ) (es : List Event)
      (now_secs task : ℕ) (job : Job C) (error : JoinError)
      → let r = (run env (start env assignments listed now) es).0 in
        r.phase ≢ ended
        → lookup task r.tasks.running ≡ some job
        → Reported r (step env r (joins now_secs task (fails error))) now_secs task job error
  unfolding step
  step-Reported assignments listed now es now_secs task job error n e =
      let r = (run env (start env assignments listed now) es).0 in
      in_phase-Reported r.phase r now_secs task job error n e
        ((run-IsConsistent env assignments listed now es).0 task ∙ ap (Option.map owner_of) e)
