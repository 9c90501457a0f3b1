-- ===== src/Engine/Scheduler.antt =====
-- The state of crates/engine/src/scheduler.rs, and what its handlers ask of the rest of the engine.
-- The methods stand in the modules below: a method returns the new state beside its effects, in the
-- order in which it makes them. `C` is the type of the collectors that a factory builds.
pub mod Resync
pub mod Results
pub mod Dispatch
pub mod Loop
mod Tests
use monitra.Base.{ℕ, String, Bool, Option, none, some, List, []}
use monitra.Base.Dict.{Dict}
use monitra.Models.{Monitor, MonitorStatus, CheckResult}
use monitra.Probe.{ProbeOutcome}
use monitra.Provider.Collector.{CollectorStatus}
use monitra.Engine.Alerts.{AlertRequest}
use monitra.Engine.Assignments.{AssignmentHandle}
use monitra.Engine.Flap.{FlapState}

-- `next_check_at` is in nanoseconds of the monotonic clock.
pub record MonitorState : Type 0 where
  pub monitor : Monitor
  pub next_check_at : ℕ
  pub flap : FlapState

pub record Scheduler (C : Type 0) : Type 0 where
  pub registry : Dict MonitorState
  pub k8s_collectors : Dict C
  pub quarantined : List ℕ
  pub assignments : AssignmentHandle

-- `Scheduler::new`, for the fields that change.
unfoldable pub new : (C : Type 0) → AssignmentHandle → Scheduler C
new C assignments = record {
  registry = [];
  k8s_collectors = [];
  quarantined = [];
  assignments = assignments;
}

pub record PushedResult : Type 0 where
  pub monitor_id : ℕ
  pub outcome : ProbeOutcome

-- What a spawned task hands back to the loop: a collector's status comes with its latency.
pub data Outcome : Type 0 where
  network : ℕ → ProbeOutcome → Outcome
  collector : ℕ → CollectorStatus → ℕ → Outcome

pub data TaskOwner : Type 0 where
  network : ℕ → TaskOwner
  collector : ℕ → TaskOwner

-- The calls that leave the scheduler: `store.set_monitor_status`, `alerts.submit`,
-- `writer.submit` and `results_tx.send`. None of them changes what the scheduler does next.
pub data Effect : Type 0 where
  set_status : ℕ → MonitorStatus → Effect
  alert : AlertRequest → Effect
  write : CheckResult → Effect
  broadcast : CheckResult → Effect
