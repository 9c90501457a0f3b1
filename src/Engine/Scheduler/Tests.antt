-- ===== src/Engine/Scheduler/Tests.antt =====
-- A scheduler with one monitor, and instances of the theorems.
use monitra.Base.{ℕ, suc, ◌+◌, ◌≤◌, ◌<◌, ◌≡◌, ◌≢◌, refl, none, some, List, [], ◌∷◌, arith}
use monitra.Base.Dict.{Dict, lookup, insert, retain, Unique}
use monitra.Models.{Monitor, tcp, up, stale}
use monitra.Probe.{NetworkProbeKind, unavailable}
use monitra.Provider.Collector.{unknown}
use monitra.Engine.Assignments.{new}
use monitra.Engine.Flap.{fresh}
use monitra.Engine.Scheduler.{Scheduler, MonitorState, Outcome, new as scheduler_new}
use monitra.Engine.Scheduler.Resync.{resync, sync_all, sync_one}
use monitra.Engine.Scheduler.Resync.Laws.{lookup-resync}
use monitra.Engine.Scheduler.Results.{handle_outcome, panicked}
use monitra.Engine.Scheduler.Results.Laws.{
  Mirrors, handle_outcome-Mirrors, persisted, written, status_of,
}
use monitra.Engine.Scheduler.Results.Honesty.{handle_outcome_untold, flap_of, OnlyStale, no_outcome}
use monitra.Engine.Scheduler.Dispatch.{
  Env, Job, Tasks, dispatch_due, dispatch_all, dispatch_one, route, dispatch_network, spawn,
  rescheduled, next_deadline,
}
use monitra.Engine.Scheduler.Dispatch.Laws.{due_ids, lookup-dispatch_due, next_deadline_lem}
use monitra.Engine.Scheduler.Dispatch.Once.{count_jobs, count_jobs-dispatch_due}
use monitra.Engine.Scheduler.Loop.{Running, due, joins, fails, start, run, step, in_phase, serve}
use monitra.Engine.Scheduler.Loop.Invariant.{IsConsistent, run-IsConsistent}
use monitra.Engine.Scheduler.Loop.Reports.{Reported, step-Reported}

-- A task identifier above those that are taken.
abbrev free_id {ℓ} : {V : Type ℓ} → Dict V → ℕ
free_id [] = 0
free_id ((k, v) ∷ m) = suc k + free_id m

lookup-above {ℓ} : {V : Type ℓ} (k : ℕ) (m : Dict V) → free_id m ≤ k → lookup k m ≡ none
unfolding lookup
lookup-above k [] h = refl
lookup-above k ((j, v) ∷ m) h = ground (arith, lookup-above k m)

abbrev env : Env ℕ
env = record {
  k8s_factory = none;
  task_id = free_id;
  task_id_fresh = λ tasks. lookup-above (free_id tasks) tasks (omega arith);
  last_instant = 1000000000000000;
}

abbrev db : Monitor
db = record {
  id = 1;
  name = "db";
  target = "db:5432";
  kind = tcp;
  interval_secs = 30;
  status = up;
  agent_id = none;
}

abbrev broken : Monitor
broken = record db { id = 2; interval_secs = 0 }

abbrev listed : List Monitor
listed = db ∷ broken ∷ []

abbrev db_state : MonitorState
db_state = record { monitor = db; next_check_at = 7; flap = fresh }

abbrev one_monitor : Scheduler ℕ
one_monitor = record {
  registry = (1, db_state) ∷ [];
  k8s_collectors = [];
  quarantined = [];
  assignments = record { capacity = 4; queues = []; quarantined = 0 };
}

abbrev idle : Tasks ℕ
idle = record { running = []; owners = [] }

one_monitor-Unique : Unique one_monitor.registry
unfolding lookup
one_monitor-Unique = (refl, tt)

lookup-resync_example : lookup 1 (resync one_monitor (some listed) 9).registry ≡ some db_state
unfolding lookup
lookup-resync_example = lookup-resync one_monitor listed 9 1

-- Its target is edited, and its collector stays.
abbrev edited : List Monitor
edited = record db { target = "prod/web/api" } ∷ []

handle_outcome-Mirrors_example :
    Mirrors 1 one_monitor
      (handle_outcome one_monitor 5 (Outcome.network 1 (unavailable "no route")))
handle_outcome-Mirrors_example =
    handle_outcome-Mirrors one_monitor 1 5 (Outcome.network 1 (unavailable "no route"))

lookup-dispatch_due_example :
    lookup 1 (dispatch_due env 8 one_monitor idle).0.registry ≡ some (rescheduled env 8 db_state)
unfolding lookup
lookup-dispatch_due_example = lookup-dispatch_due env 8 one_monitor idle 1 one_monitor-Unique

next_deadline_lem_example :
    (5 < next_deadline one_monitor 0 → due_ids 5 one_monitor.registry ≡ [])
    × (one_monitor.registry ≢ [] → due_ids (next_deadline one_monitor 0) one_monitor.registry ≢ [])
next_deadline_lem_example = next_deadline_lem one_monitor 0 5

count_jobs-dispatch_due_example : count_jobs 1 (dispatch_due env 8 one_monitor idle).1.running ≡ 1
unfolding lookup
count_jobs-dispatch_due_example =
    count_jobs-dispatch_due env 8 one_monitor idle 1 one_monitor-Unique

handle_outcome_untold_example :
    let (s', es) = handle_outcome one_monitor 5 (Outcome.collector 1 (unknown "no cluster") 3) in
    (flap_of (lookup 1 s'.registry) ≡ some fresh)
    × (status_of (lookup 1 s'.registry) ≡ some stale)
    × OnlyStale (persisted es)
    × (written es ≡ no_outcome 1 5 "no cluster" ∷ [])
unfolding lookup
handle_outcome_untold_example =
    handle_outcome_untold one_monitor 5 1 (Outcome.collector 1 (unknown "no cluster") 3) refl

-- The loop after its first pass, with one task in flight.
abbrev in_flight : Running ℕ
in_flight = (run env (start env (new 4) (some listed) 0) (due 0 ∷ [])).0

abbrev job : Job ℕ
job = Job.network 1 NetworkProbeKind.tcp "db:5432"

run-IsConsistent_example : IsConsistent in_flight
run-IsConsistent_example = run-IsConsistent env (new 4) (some listed) 0 (due 0 ∷ [])

step-Reported_example :
    Reported env in_flight
      (step env in_flight (joins 5 0 (fails (panicked (some "boom")))))
      5
      0
      job
      (panicked (some "boom"))
unfolding lookup insert retain run start step in_phase serve dispatch_due dispatch_all dispatch_one
    route dispatch_network spawn resync sync_all sync_one new scheduler_new
step-Reported_example =
    step-Reported env (new 4) (some listed) 0 (due 0 ∷ []) 5 0 job (panicked (some "boom"))
      (λ e. cc) refl
