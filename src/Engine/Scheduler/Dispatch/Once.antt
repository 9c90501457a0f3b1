-- ===== src/Engine/Scheduler/Dispatch/Once.antt =====
-- The tasks that one pass over the due monitors spawns, counted by monitor.
use mathlib.Core.Option.{Option}
use monitra.Base.{
  ℕ, ◌+◌, String, ◌≡◌, refl, ◌∙◌, Bool, true, false, not, ◌&&◌, none, some, List, [], ◌∷◌, arith,
  ◌==◌, if◌then◌else◌, Option-cases, inl, inr, elem, is_some,
}
use monitra.Base.Dict.{Dict, lookup, insert, Unique}
use monitra.Models.{
  Monitor, MonitorKind, k8s_deployment, k8s_stateful_set, k8s_service, host_agent_check,
}
use monitra.Probe.{NetworkProbeKind, try_from}
use monitra.Engine.Target.{parse_k8s_target}
use monitra.Engine.Scheduler.{MonitorState, Scheduler, TaskOwner}
use monitra.Engine.Scheduler.Dispatch.{
  Env, Built, ok, err, Job, Tasks, spawn, built, collector_of, collector_job, dispatch_k8s,
  dispatch_network, route, rescheduled, dispatch_one, dispatch_all, dispatch_due,
}
use monitra.Engine.Scheduler.Dispatch.Laws.{
  due_at, due_ids, Distinct, elem-due_ids, due_ids-Distinct, lookup-dispatch_one,
}

-- Whether a due monitor of a kind, linked to an agent or not, is checked by a task of the engine.
abbrev pub is_central_kind : MonitorKind → Bool → Bool
is_central_kind MonitorKind.http linked = not linked
is_central_kind MonitorKind.tcp linked = not linked
is_central_kind MonitorKind.icmp linked = not linked
is_central_kind k8s_deployment linked = true
is_central_kind k8s_stateful_set linked = true
is_central_kind k8s_service linked = true
is_central_kind host_agent_check linked = false

abbrev pub is_central : Monitor → Bool
is_central m = is_central_kind m.kind (is_some m.agent_id)

abbrev pub central_at : Option MonitorState → Bool
central_at none = false
central_at (some state) = is_central state.monitor

module _ {C : Type 0} where
  abbrev pub job_monitor : Job C → ℕ
  job_monitor (Job.network id kind target) = id
  job_monitor (Job.collector id c) = id
  job_monitor (Job.report id reason) = id

  abbrev pub owner_of : Job C → TaskOwner
  owner_of (Job.network id kind target) = TaskOwner.network id
  owner_of (Job.collector id c) = TaskOwner.collector id
  owner_of (Job.report id reason) = TaskOwner.collector id

  -- How many of the running tasks are for a monitor.
  abbrev pub count_jobs : ℕ → Dict (Job C) → ℕ
  count_jobs k [] = 0
  count_jobs k ((task, job) ∷ m) = (if job_monitor job == k then 1 else 0) + count_jobs k m

  count_jobs-insert :
      (k task : ℕ) (job : Job C) (m : Dict (Job C))
      → lookup task m ≡ none
      → count_jobs k (insert task job m) ≡ count_jobs k m + (if job_monitor job == k then 1 else 0)
  unfolding lookup insert
  count_jobs-insert k task job [] h = ground arith
  count_jobs-insert k task job ((t, j) ∷ m) h = ground (arith, count_jobs-insert k task job m)

module _ {C : Type 0} (env : Env C) where
  count_jobs-spawn :
      (k : ℕ) (tasks : Tasks C) (owner : TaskOwner) (job : Job C)
      → count_jobs k (spawn env tasks owner job).running
        ≡ count_jobs k tasks.running + (if job_monitor job == k then 1 else 0)
  unfolding spawn
  count_jobs-spawn k tasks owner job =
      count_jobs-insert k (env.task_id tasks.running) job tasks.running
        (env.task_id_fresh tasks.running)

  monitor-collector_job : (id : ℕ) (b : Built C) → job_monitor (collector_job {C = C} env id b) ≡ id
  monitor-collector_job id (ok c) = refl
  monitor-collector_job id (err reason) = refl

  count_jobs-k8s :
      (k id : ℕ) (s : Scheduler C) (tasks : Tasks C) (m : Monitor)
      → count_jobs k (dispatch_k8s env s tasks id m).1.running
        ≡ count_jobs k tasks.running + (if id == k then 1 else 0)
  unfolding dispatch_k8s
  count_jobs-k8s k id s tasks m =
      let b =
        (collector_of env s id m (lookup id s.k8s_collectors)
          (built env m (parse_k8s_target m.target))).1 in
      count_jobs-spawn k tasks (TaskOwner.collector id) (collector_job env id b)
      ∙ rw (monitor-collector_job id b) refl

  count_jobs-network :
      (k id : ℕ) (tasks : Tasks C) (kind : NetworkProbeKind) (target : String)
      → count_jobs k (dispatch_network env tasks id kind target).running
        ≡ count_jobs k tasks.running + (if id == k then 1 else 0)
  unfolding dispatch_network
  count_jobs-network k id tasks kind target =
      count_jobs-spawn k tasks (TaskOwner.network id) (Job.network id kind target)

  count_jobs-route :
      (k id : ℕ) (s : Scheduler C) (tasks : Tasks C) (m : Monitor)
      → count_jobs k (route env s tasks id m (try_from m.kind) m.agent_id).1.running
        ≡ count_jobs k tasks.running + (if is_central m && id == k then 1 else 0)
  unfolding route
  count_jobs-route k id s tasks m = ground (
    arith,
    count_jobs-k8s k id s tasks m,
    count_jobs-network k id tasks NetworkProbeKind.http m.target,
    count_jobs-network k id tasks NetworkProbeKind.tcp m.target,
    count_jobs-network k id tasks NetworkProbeKind.icmp m.target,
  )

  count_jobs-dispatch_one :
      (now : ℕ) (s : Scheduler C) (tasks : Tasks C) (id k : ℕ)
      → count_jobs k (dispatch_one env now s tasks id).1.running
        ≡ count_jobs k tasks.running
          + (if central_at (lookup id s.registry) && id == k then 1 else 0)
  unfolding dispatch_one
  count_jobs-dispatch_one now s tasks id k = elim (Option-cases (lookup id s.registry)) [
    | inl e ↦ rw (e, dispatch_one) (ground arith)
    | inr (state, e) ↦
        let registry = insert id (rescheduled env now state) s.registry in
        rw (e, dispatch_one)
          (ground
            (arith, count_jobs-route k id (record s { registry = registry }) tasks state.monitor))
  ]

  count_jobs-dispatch_all :
      (now : ℕ) (s : Scheduler C) (tasks : Tasks C) (ids : List ℕ) (k : ℕ)
      → Distinct ids
      → count_jobs k (dispatch_all env now s tasks ids).1.running
        ≡ count_jobs k tasks.running
          + (if elem k ids && central_at (lookup k s.registry) then 1 else 0)
  unfolding dispatch_all
  count_jobs-dispatch_all now s tasks [] k d = omega arith
  count_jobs-dispatch_all now s tasks (id ∷ ids) k d =
      let next = dispatch_one env now s tasks id in
      ground (
        arith,
        count_jobs-dispatch_all now next.0 next.1 ids k d.1,
        count_jobs-dispatch_one now s tasks id k,
        lookup-dispatch_one env now s tasks id k,
      )

  -- Where no identifier has two entries: a pass spawns exactly one task for each due monitor that
  -- is a network probe without an agent, or of a Kubernetes kind, linked to an agent or not; and
  -- none for one that is not due, for a network probe that is linked to an agent, or for a check of
  -- a host agent.
  pub count_jobs-dispatch_due :
      (now : ℕ) (s : Scheduler C) (tasks : Tasks C) (k : ℕ)
      → Unique s.registry
      → count_jobs k (dispatch_due env now s tasks).1.running
        ≡ count_jobs k tasks.running
          + (if due_at now (lookup k s.registry) && central_at (lookup k s.registry) then 1 else 0)
  unfolding dispatch_due
  count_jobs-dispatch_due now s tasks k u =
      count_jobs-dispatch_all now s tasks (due_ids now s.registry) k
        (due_ids-Distinct now s.registry u)
      ∙ rw (elem-due_ids now k s.registry u) refl
