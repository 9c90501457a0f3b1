-- ===== src/Engine/Scheduler/Loop.antt =====
-- `Scheduler::run`: the loop over what `select!` picks next. The environment chooses the events and
-- their times; an arm of the `select!` is one step, since the loop awaits nothing else meanwhile.
pub mod Owners
pub mod Entries
pub mod Invariant
pub mod Reports
use monitra.Base.{ℕ, Option, none, some, List, [], ◌∷◌, ◌++◌}
use monitra.Base.Dict.{Dict, lookup, remove}
use monitra.Models.{Monitor}
use monitra.Probe.{ProbeOutcome}
use monitra.Provider.Collector.{CollectorStatus, unknown}
use monitra.Engine.Scheduler.{Scheduler, new, PushedResult, Outcome, TaskOwner, Effect}
use monitra.Engine.Assignments.{AssignmentHandle}
use monitra.Engine.Scheduler.Dispatch.{Env, Job, Tasks, dispatch_due}
use monitra.Engine.Scheduler.Resync.{resync}
use monitra.Engine.Scheduler.Results.{JoinError, Joined, done, failed, handle_pushed, handle_joined}

-- How a task ends: with what a probe would find, or what a collector would answer and how long that
-- took; or without an outcome.
pub data Ending : Type 0 where
  completes : ProbeOutcome → CollectorStatus → ℕ → Ending
  fails : JoinError → Ending

-- The loop serves, then drains the tasks in flight, then has ended.
pub data Phase : Type 0 where
  serving draining ended : Phase

pub record Running (C : Type 0) : Type 0 where
  pub phase : Phase
  pub scheduler : Scheduler C
  pub tasks : Tasks C

-- The arms of the `select!`, and the end of the drain: its deadline, or nothing left in flight. The
-- instants are those at which the arm reads the clocks. `shutdown` is a change to true, or a sender
-- that is gone.
pub data Event : Type 0 where
  shutdown : Event
  resync_tick : Option (List Monitor) → ℕ → Event
  due : ℕ → Event
  joins : ℕ → ℕ → Ending → Event
  receives : ℕ → Option (List Monitor) → ℕ → PushedResult → Event
  deadline : Event

module _ {C : Type 0} where
  -- The body of a spawned task.
  abbrev pub outcome_of : Job C → ProbeOutcome → CollectorStatus → ℕ → Outcome
  outcome_of (Job.network id kind target) probed polled latency = Outcome.network id probed
  outcome_of (Job.collector id c) probed polled latency = Outcome.collector id polled latency
  outcome_of (Job.report id reason) probed polled latency = Outcome.collector id (unknown reason) 0

  abbrev pub joined_of : ℕ → Job C → Ending → Joined
  joined_of task job (completes probed polled latency) =
      done task (outcome_of job probed polled latency)
  joined_of task job (fails error) = failed task error

  -- Only a task that runs can be joined; it is then no longer in the join set.
  unfoldable pub join : Running C → ℕ → ℕ → Ending → Option (Job C) → Running C × List Effect
  join r now_secs task ending none = (r, [])
  join r now_secs task ending (some job) =
      let ((s, es), owners) =
        handle_joined r.scheduler now_secs r.tasks.owners (joined_of task job ending) in
      (
        record r {
          scheduler = s;
          tasks = record { running = remove task r.tasks.running; owners = owners };
        },
        es,
      )

module _ {C : Type 0} (env : Env C) where
  unfoldable pub serve : Running C → Event → Running C × List Effect
  unfolding join
  serve r shutdown = (record r { phase = draining }, [])
  serve r (resync_tick listed now) = (record r { scheduler = resync r.scheduler listed now }, [])
  serve r (due now) =
      let (s, tasks) = dispatch_due env now r.scheduler r.tasks in
      (record r { scheduler = s; tasks = tasks }, [])
  serve r (joins now_secs task ending) = join r now_secs task ending (lookup task r.tasks.running)
  serve r (receives now_secs listed now pushed) =
      let (s, es) = handle_pushed r.scheduler now_secs listed now pushed in
      (record r { scheduler = s }, es)
  serve r deadline = (r, [])

  -- `while let Some(joined)`, under the timeout.
  unfoldable pub drain : Running C → Event → Running C × List Effect
  unfolding join
  drain r (joins now_secs task ending) = join r now_secs task ending (lookup task r.tasks.running)
  drain r deadline = (record r { phase = ended }, [])
  drain r _ = (r, [])

  unfoldable pub in_phase : Phase → Running C → Event → Running C × List Effect
  unfolding serve drain
  in_phase serving = serve
  in_phase draining = drain
  in_phase ended = λ r e. (r, [])

  unfoldable pub step : Running C → Event → Running C × List Effect
  unfolding in_phase
  step r e = in_phase r.phase r e

  unfoldable pub run : Running C → List Event → Running C × List Effect
  run r [] = (r, [])
  run r (e ∷ rest) =
      let (r', es) = step r e in let (last, later) = run r' rest in (last, es ++ later)

  -- The first resync stands before the loop.
  unfoldable pub start : AssignmentHandle → Option (List Monitor) → ℕ → Running C
  start assignments listed now = record {
    phase = serving;
    scheduler = resync (new C assignments) listed now;
    tasks = record { running = []; owners = [] };
  }
