-- ===== src/Engine/Scheduler/Loop/Owners.antt =====
-- The join set and the owners of its tasks, through a pass.
use mathlib.Core.Option
use mathlib.Core.Option.{Option}
use monitra.Base.{ℕ, ◌≡◌, refl, none, some, List, [], ◌∷◌, arith, Option-cases, inl, inr}
use monitra.Base.Dict.{lookup, lookup-insert}
use monitra.Models.{Monitor}
use monitra.Probe.{NetworkProbeKind}
use monitra.Engine.Target.{parse_k8s_target}
use monitra.Engine.Scheduler.{Scheduler, TaskOwner}
use monitra.Engine.Scheduler.Dispatch.{
  Env, Job, Tasks, spawn, dispatch_k8s, dispatch_network, route, dispatch_one, dispatch_all,
  collector_of, built, Built, ok, err, collector_job,
}
use monitra.Engine.Scheduler.Dispatch.Once.{owner_of}

-- Each running task has its owner, and nothing else has one.
abbrev pub Owned : {C : Type 0} → Tasks C → Type 0
Owned tasks = (t : ℕ) → lookup t tasks.owners ≡ Option.map owner_of (lookup t tasks.running)

module _ {C : Type 0} (env : Env C) where
  spawn-Owned :
      (tasks : Tasks C) (owner : TaskOwner) (job : Job C)
      → owner_of job ≡ owner
      → Owned tasks
      → Owned (spawn env tasks owner job)
  unfolding spawn
  spawn-Owned tasks owner job e h t =
      let id = env.task_id tasks.running in
      ground
        (arith, h t, lookup-insert id t owner tasks.owners, lookup-insert id t job tasks.running)

  owner-collector_job :
      (id : ℕ) (b : Built C) → owner_of (collector_job env id b) ≡ TaskOwner.collector id
  owner-collector_job id (ok c) = refl
  owner-collector_job id (err reason) = refl

  dispatch_k8s-Owned :
      (s : Scheduler C) (tasks : Tasks C) (id : ℕ) (m : Monitor)
      → Owned tasks
      → Owned (dispatch_k8s env s tasks id m).1
  unfolding dispatch_k8s
  dispatch_k8s-Owned s tasks id m h =
      let b =
        (collector_of env s id m (lookup id s.k8s_collectors)
          (built env m (parse_k8s_target m.target))).1 in
      spawn-Owned tasks (TaskOwner.collector id) (collector_job env id b) (owner-collector_job id b)
        h

  route-Owned :
      (s : Scheduler C) (tasks : Tasks C) (id : ℕ) (m : Monitor) (kind : Option NetworkProbeKind)
      (agent : Option ℕ)
      → Owned tasks
      → Owned (route env s tasks id m kind agent).1
  unfolding route dispatch_network
  route-Owned s tasks id m (some kind) (some agent) h t = h t
  route-Owned s tasks id m (some kind) none h t =
      spawn-Owned tasks (TaskOwner.network id) (Job.network id kind m.target) refl h t
  route-Owned s tasks id m none agent h t = ground (arith, h t, dispatch_k8s-Owned s tasks id m h t)

  dispatch_one-Owned :
      (now : ℕ) (s : Scheduler C) (tasks : Tasks C) (id : ℕ)
      → Owned tasks
      → Owned (dispatch_one env now s tasks id).1
  unfolding dispatch_one
  dispatch_one-Owned now s tasks id h t = elim (Option-cases (lookup id s.registry)) [
    | inl e ↦ rw (e, dispatch_one) (h t)
    | inr (state, e) ↦ rw (e, dispatch_one) (route-Owned _ tasks id state.monitor _ _ h t)
  ]

  pub dispatch_all-Owned :
      (now : ℕ) (s : Scheduler C) (tasks : Tasks C) (ids : List ℕ)
      → Owned tasks
      → Owned (dispatch_all env now s tasks ids).1
  unfolding dispatch_all
  dispatch_all-Owned now s tasks [] h = h
  dispatch_all-Owned now s tasks (id ∷ ids) h =
      let next = dispatch_one env now s tasks id in
      dispatch_all-Owned now next.0 next.1 ids (dispatch_one-Owned now s tasks id h)
