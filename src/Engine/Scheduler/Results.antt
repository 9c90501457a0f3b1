-- ===== src/Engine/Scheduler/Results.antt =====
-- What the scheduler does with an outcome: `apply_result`, `mark_stale_and_record`,
-- `handle_outcome`, `handle_pushed` and `handle_joined`. `now_secs` is the wall clock.
pub mod Laws
pub mod Honesty
use monitra.Base.{
  ℕ, String, Bool, true, false, Option, none, some, List, [], ◌∷◌, ◌++◌, is_some, if◌then◌else◌,
}
use monitra.Base.Dict.{Dict, lookup, insert, remove}
use monitra.Models.{Monitor, MonitorStatus, stale, is_stale, CheckResult}
use monitra.Probe.{ProbeOutcome, success, failure, unavailable}
use monitra.Provider.Collector.{CollectorStatus, healthy, unhealthy, unknown}
use monitra.Engine.Alerts.{AlertRequest}
use monitra.Engine.Flap.{observe}
use monitra.Engine.Scheduler.{
  MonitorState, Scheduler, PushedResult, Outcome, TaskOwner, Effect, set_status, alert, write,
  broadcast,
}
use monitra.Engine.Scheduler.Resync.{resync}

-- `persist_status` and `alerts.submit`, as the two of them follow every transition.
abbrev pub announce : ℕ → Monitor → MonitorStatus → List Effect
announce monitor_id m new_status =
    set_status monitor_id new_status
    ∷ alert
        (record { monitor_id = monitor_id; monitor_name = m.name; transitioned_to = new_status })
    ∷ []

-- What a transition writes to the entry and asks for; `none` is no transition.
abbrev pub transition : ℕ → MonitorState → Option MonitorStatus → MonitorState × List Effect
transition monitor_id state none = (state, [])
transition monitor_id state (some new_status) = (
  record state { monitor = record state.monitor { status = new_status } },
  announce monitor_id state.monitor new_status,
)

module _ {C : Type 0} where
  -- Once the entry is found.
  unfoldable pub record_result :
      Scheduler C → MonitorState → CheckResult → Scheduler C × List Effect
  record_result s state result =
      let (flap, new_status) = observe state.flap result.success state.monitor.status in
      let (state', announced) =
        transition result.monitor_id (record state { flap = flap }) new_status in
      (
        record s { registry = insert result.monitor_id state' s.registry },
        announced ++ (write result ∷ broadcast result ∷ []),
      )

  unfoldable pub apply_result :
      Scheduler C → ℕ → ℕ → Bool → Option String → ℕ → Scheduler C × List Effect
  apply_result s now_secs monitor_id ok message latency_ms = elim (lookup monitor_id s.registry) [
    | none ↦ (s, [])
    | some state ↦ record_result s state (record {
      monitor_id = monitor_id;
      checked_at = now_secs;
      success = ok;
      latency_ms = latency_ms;
      message = message;
    })
  ]

  -- `if let Some(state) = … && state.monitor.status != Stale`.
  unfoldable pub mark_stale : Scheduler C → ℕ → Option MonitorState → Scheduler C × List Effect
  mark_stale s monitor_id none = (s, [])
  mark_stale s monitor_id (some state) =
      if is_stale state.monitor.status
      then (s, [])
      else let (state', announced) = transition monitor_id state (some stale) in
        (record s { registry = insert monitor_id state' s.registry }, announced)

  unfoldable pub mark_stale_and_record : Scheduler C → ℕ → ℕ → String → Scheduler C × List Effect
  mark_stale_and_record s now_secs monitor_id message =
      let (s', announced) = mark_stale s monitor_id (lookup monitor_id s.registry) in
      (
        s',
        announced
            ++ (write (record {
              monitor_id = monitor_id;
              checked_at = now_secs;
              success = false;
              latency_ms = 0;
              message = some message;
            })
                ∷ []),
      )

  unfoldable pub handle_outcome : Scheduler C → ℕ → Outcome → Scheduler C × List Effect
  handle_outcome s now_secs (Outcome.network monitor_id (success latency_ms)) =
      apply_result s now_secs monitor_id true none latency_ms
  handle_outcome s now_secs (Outcome.network monitor_id (failure message)) =
      apply_result s now_secs monitor_id false (some message) 0
  handle_outcome s now_secs (Outcome.network monitor_id (unavailable message)) =
      mark_stale_and_record s now_secs monitor_id message
  handle_outcome s now_secs (Outcome.collector monitor_id healthy latency_ms) =
      apply_result s now_secs monitor_id true none latency_ms
  handle_outcome s now_secs (Outcome.collector monitor_id (unhealthy reason) latency_ms) =
      apply_result s now_secs monitor_id false (some reason) latency_ms
  handle_outcome s now_secs (Outcome.collector monitor_id (unknown reason) latency_ms) =
      mark_stale_and_record s now_secs monitor_id reason

  -- The three branches on a pushed outcome, after the resync that an unknown monitor causes.
  unfoldable pub handle_known : Scheduler C → ℕ → PushedResult → Scheduler C × List Effect
  handle_known s now_secs pushed =
      handle_outcome s now_secs (Outcome.network pushed.monitor_id pushed.outcome)

  -- `listed` is what the store would list now, and `now` the instant.
  unfoldable pub handle_pushed :
      Scheduler C → ℕ → Option (List Monitor) → ℕ → PushedResult → Scheduler C × List Effect
  handle_pushed s now_secs listed now pushed =
      handle_known
        (if is_some (lookup pushed.monitor_id s.registry) then s else resync s listed now) now_secs
        pushed

-- `JoinError`, by what `join_error_message` asks of it: whether it is a cancellation, and else the
-- panic's payload, a text or not; `abnormal` is neither.
pub data JoinError : Type 0 where
  cancelled : JoinError
  panicked : Option String → JoinError
  abnormal : JoinError

unfoldable pub join_error_message : JoinError → String
join_error_message cancelled = "task was cancelled before completing"
join_error_message (panicked (some payload)) = payload
join_error_message (panicked none) = "panic payload was not a string"
join_error_message abnormal = "task ended abnormally"

-- What `join_next_with_id` gives: the task, and its outcome or how it ended without one.
pub data Joined : Type 0 where
  done : ℕ → Outcome → Joined
  failed : ℕ → JoinError → Joined

module _ {C : Type 0} where
  unfoldable pub handle_failed :
      Scheduler C → ℕ → String → Option TaskOwner → Scheduler C × List Effect
  handle_failed s now_secs message (some (TaskOwner.network monitor_id)) =
      handle_outcome s now_secs (Outcome.network monitor_id (unavailable message))
  handle_failed s now_secs message (some (TaskOwner.collector monitor_id)) =
      handle_outcome s now_secs (Outcome.collector monitor_id (unknown message) 0)
  handle_failed s now_secs message none = (s, [])

  -- The owners that are left stand last.
  unfoldable pub handle_joined :
      Scheduler C → ℕ → Dict TaskOwner → Joined → (Scheduler C × List Effect) × Dict TaskOwner
  handle_joined s now_secs owners (done id outcome) =
      (handle_outcome s now_secs outcome, remove id owners)
  handle_joined s now_secs owners (failed id error) =
      (handle_failed s now_secs (join_error_message error) (lookup id owners), remove id owners)
