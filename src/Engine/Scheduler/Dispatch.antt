-- ===== src/Engine/Scheduler/Dispatch.antt =====
-- `dispatch_due`, `dispatch_network`, `dispatch_k8s` and `next_deadline`, and the tasks that they
-- spawn. What the engine does not implement is the parameter `Env`.
pub mod Laws
pub mod Once
use monitra.Base.{
  ℕ, ◌+◌, String, ◌<>◌, ◌≡◌, Bool, true, false, Option, none, some, List, [], ◌∷◌, map, min, leb,
  is_some, if◌then◌else◌, filter,
}
use monitra.Base.Dict.{Dict, lookup, insert, keys, values}
use monitra.Models.{MonitorKind, host_agent_check, Monitor}
use monitra.Probe.{NetworkProbeKind, try_from}
use monitra.Engine.Assignments.{AssignmentHandle, enqueue}
use monitra.Engine.Deadline.{from_secs, advance_deadline}
use monitra.Engine.Scheduler.{MonitorState, Scheduler, TaskOwner}
use monitra.Engine.Target.{K8sTarget, parse_k8s_target}

-- What `collector_for` answers: a collector, or the text of its error.
pub data Built (C : Type 0) : Type 0 where
  ok : C → Built C
  err : String → Built C

-- What a spawned task is to do. `report` hands back `Unknown` with its reason.
pub data Job (C : Type 0) : Type 0 where
  network : ℕ → NetworkProbeKind → String → Job C
  collector : ℕ → C → Job C
  report : ℕ → String → Job C

-- The factory, if there is one; the identifier that the runtime gives to a new task, unlike those of
-- the tasks that run; and the largest instant of the clock.
pub record Env (C : Type 0) : Type 0 where
  pub k8s_factory : Option (String → String → String → MonitorKind → Built C)
  pub task_id : Dict (Job C) → ℕ
  pub task_id_fresh : (tasks : Dict (Job C)) → lookup (task_id tasks) tasks ≡ none
  pub last_instant : ℕ

-- The join set, as the jobs that have not been joined, and the owners beside it.
pub record Tasks (C : Type 0) : Type 0 where
  pub running : Dict (Job C)
  pub owners : Dict TaskOwner

abbrev pub is_host_agent_check : MonitorKind → Bool
is_host_agent_check host_agent_check = true
is_host_agent_check _ = false

unfoldable pub minimum_from : ℕ → List ℕ → ℕ
minimum_from least [] = least
minimum_from least (t ∷ ts) = minimum_from (min least t) ts

-- `Instant::now() + 3600 s` where nothing is registered.
unfoldable pub earliest : ℕ → List ℕ → ℕ
unfolding minimum_from
earliest now [] = now + from_secs 3600
earliest now (t ∷ ts) = minimum_from t ts

unfoldable pub next_deadline : {C : Type 0} → Scheduler C → ℕ → ℕ
unfolding earliest
next_deadline s now = earliest now (map (λ state. state.next_check_at) (values s.registry))

module _ {C : Type 0} (env : Env C) where
  -- `tasks.spawn` and `owners.insert`.
  unfoldable pub spawn : Tasks C → TaskOwner → Job C → Tasks C
  spawn tasks owner job =
      let id = env.task_id tasks.running in
      record { running = insert id job tasks.running; owners = insert id owner tasks.owners }

  -- `(self.k8s_factory.as_ref()?, parse_k8s_target(..)?)`, and the factory's call.
  unfoldable pub built : Monitor → Option K8sTarget → Option (Built C)
  built monitor none = none
  built monitor (some (cluster, namespace, name)) = elim env.k8s_factory [
    | none ↦ none
    | some factory ↦ some (factory cluster namespace name monitor.kind)
  ]

  -- The reason that is reported where there was no collector and no error.
  unfoldable pub no_collector_reason : Monitor → String
  no_collector_reason monitor =
      if is_some env.k8s_factory
      then (if is_some (parse_k8s_target monitor.target)
          then "collector unavailable"
          else "target '" <> monitor.target <> "' is not in '<cluster>/<namespace>/<name>' form")
      else "no Kubernetes collector is available (kubernetes feature disabled or no clusters attached)"

  -- A collector that the monitor had or has just been given, or the reason why it has none.
  unfoldable pub collector_of :
      Scheduler C → ℕ → Monitor → Option C → Option (Built C) → Scheduler C × Built C
  unfolding no_collector_reason
  collector_of s monitor_id monitor (some c) b = (s, ok c)
  collector_of s monitor_id monitor none (some (ok c)) =
      (record s { k8s_collectors = insert monitor_id c s.k8s_collectors }, ok c)
  collector_of s monitor_id monitor none (some (err source)) = (s, err source)
  collector_of s monitor_id monitor none none = (s, err (no_collector_reason monitor))

  abbrev pub collector_job : ℕ → Built C → Job C
  collector_job monitor_id (ok c) = Job.collector monitor_id c
  collector_job monitor_id (err reason) = Job.report monitor_id reason

  unfoldable pub dispatch_k8s : Scheduler C → Tasks C → ℕ → Monitor → Scheduler C × Tasks C
  dispatch_k8s s tasks monitor_id monitor =
      let (s', b) =
        collector_of s monitor_id monitor (lookup monitor_id s.k8s_collectors)
          (built monitor (parse_k8s_target monitor.target)) in
      (s', spawn tasks (TaskOwner.collector monitor_id) (collector_job monitor_id b))

  unfoldable pub dispatch_network : Tasks C → ℕ → NetworkProbeKind → String → Tasks C
  dispatch_network tasks monitor_id kind target =
      spawn tasks (TaskOwner.network monitor_id) (Job.network monitor_id kind target)

  -- The `match` on the kind of a due monitor, and on the agent that it is linked to.
  unfoldable pub route :
      Scheduler C
      → Tasks C
      → ℕ
      → Monitor
      → Option NetworkProbeKind
      → Option ℕ
      → Scheduler C × Tasks C
  route s tasks monitor_id monitor (some kind) (some agent_id) = (
    record s {
      assignments =
          enqueue s.assignments agent_id
            (record { monitor_id = monitor_id; target = monitor.target; kind = monitor.kind });
    },
    tasks,
  )
  route s tasks monitor_id monitor (some kind) none =
      (s, dispatch_network tasks monitor_id kind monitor.target)
  route s tasks monitor_id monitor none agent_id =
      if is_host_agent_check monitor.kind
      then (s, tasks)
      else dispatch_k8s s tasks monitor_id monitor

  abbrev pub rescheduled : ℕ → MonitorState → MonitorState
  rescheduled now state = record state {
    next_check_at =
        advance_deadline env.last_instant state.next_check_at
          (from_secs state.monitor.interval_secs) now;
  }

  -- The body of the loop over the due monitors.
  unfoldable pub dispatch_one : ℕ → Scheduler C → Tasks C → ℕ → Scheduler C × Tasks C
  dispatch_one now s tasks monitor_id = elim (lookup monitor_id s.registry) [
    | none ↦ (s, tasks)
    | some state ↦
        route (record s { registry = insert monitor_id (rescheduled now state) s.registry }) tasks
          monitor_id state.monitor (try_from state.monitor.kind) state.monitor.agent_id
  ]

  unfoldable pub dispatch_all : ℕ → Scheduler C → Tasks C → List ℕ → Scheduler C × Tasks C
  dispatch_all now s tasks [] = (s, tasks)
  dispatch_all now s tasks (monitor_id ∷ rest) =
      let (s', tasks') = dispatch_one now s tasks monitor_id in dispatch_all now s' tasks' rest

  unfoldable pub dispatch_due : ℕ → Scheduler C → Tasks C → Scheduler C × Tasks C
  unfolding dispatch_all
  dispatch_due now s tasks =
      dispatch_all now s tasks (keys (filter (λ e. leb e.1.next_check_at now) s.registry))
