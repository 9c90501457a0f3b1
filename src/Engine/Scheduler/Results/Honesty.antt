-- ===== src/Engine/Scheduler/Results/Honesty.antt =====
-- Outcomes that tell nothing of the target, tasks that end without an outcome, and the records of
-- the others.
use mathlib.Core.Option
use mathlib.Core.Option.{Option}
use monitra.Base.{
  ℕ, String, ◌≡◌, ◌≢◌, Bool, false, none, some, List, [], ◌∷◌, arith, ◌==◌, if◌then◌else◌,
  Option-cases, inl, inr, ◌⊎◌, is_some,
}
use monitra.Base.Dict.{Dict, lookup, lookup-insert, lookup-remove}
use monitra.Models.{MonitorStatus, CheckResult, stale}
use monitra.Probe.{success, failure, unavailable}
use monitra.Provider.Collector.{healthy, unhealthy, unknown}
use monitra.Engine.Flap.{FlapState, observe}
use monitra.Engine.Scheduler.{MonitorState, Scheduler, Outcome, TaskOwner}
use monitra.Engine.Scheduler.Results.{
  transition, record_result, apply_result, mark_stale, mark_stale_and_record, handle_outcome,
  handle_failed, handle_joined, JoinError, join_error_message, failed,
}
use monitra.Engine.Scheduler.Results.Laws.{
  persisted, written, broadcasted, status_of, tells_target, monitor_of,
}

abbrev pub flap_of : Option MonitorState → Option FlapState
flap_of = Option.map (λ state. state.flap)

-- The only transition of an outcome that tells nothing of the target.
abbrev pub OnlyStale : List (ℕ × MonitorStatus) → Type 0
OnlyStale [] = Unit {0}
OnlyStale ((id, status) ∷ rest) = (status ≡ stale) × OnlyStale rest

-- The result that is recorded where no outcome could be had.
abbrev pub no_outcome : ℕ → ℕ → String → CheckResult
no_outcome monitor_id now_secs message = record {
  monitor_id = monitor_id;
  checked_at = now_secs;
  success = false;
  latency_ms = 0;
  message = some message;
}

module _ {C : Type 0} (s : Scheduler C) where
  -- No damping counter of any monitor moves, a registered monitor is stale afterwards, no other
  -- status than stale is persisted, and one result is recorded.
  pub mark_stale_and_record_lem :
      (now_secs id k : ℕ) (message : String)
      → let (s', es) = mark_stale_and_record s now_secs id message in
        (flap_of (lookup k s'.registry) ≡ flap_of (lookup k s.registry))
        × (status_of (lookup id s'.registry) ≡ Option.map (λ _. stale) (lookup id s.registry))
        × OnlyStale (persisted es)
        × (written es ≡ no_outcome id now_secs message ∷ [])
  unfolding mark_stale_and_record mark_stale
  mark_stale_and_record_lem now_secs id k message = elim (Option-cases (lookup id s.registry)) [
    | inl e ↦ rw (e, mark_stale_and_record, mark_stale) (ground arith)
    | inr (state, e) ↦
        let state' = (transition id state (some stale)).0 in
        rw (e, mark_stale_and_record, mark_stale)
          (ground
            (arith, lookup-insert id k state' s.registry, lookup-insert id id state' s.registry))
  ]

-- The message of an outcome that tells nothing of the target.
abbrev pub reason_of : Outcome → String
reason_of (Outcome.network id (unavailable message)) = message
reason_of (Outcome.collector id (unknown reason) latency) = reason
reason_of _ = ""

module _ {C : Type 0} (s : Scheduler C) where
  -- After an outcome, of a probe or of a collector, that tells nothing of the target, no damping
  -- counter of any monitor has moved, the outcome's monitor is stale if it is registered, no other
  -- status than stale is persisted, and one failed result with its reason is recorded.
  pub handle_outcome_untold :
      (now_secs k : ℕ) (outcome : Outcome)
      → tells_target outcome ≡ false
      → let (s', es) = handle_outcome s now_secs outcome in
        (flap_of (lookup k s'.registry) ≡ flap_of (lookup k s.registry))
        × (status_of (lookup (monitor_of outcome) s'.registry)
            ≡ Option.map (λ _. stale) (lookup (monitor_of outcome) s.registry))
        × OnlyStale (persisted es)
        × (written es ≡ no_outcome (monitor_of outcome) now_secs (reason_of outcome) ∷ [])
  unfolding handle_outcome
  handle_outcome_untold now_secs k (Outcome.network id (unavailable message)) h =
      mark_stale_and_record_lem s now_secs id k message
  handle_outcome_untold now_secs k (Outcome.collector id (unknown reason) latency) h =
      mark_stale_and_record_lem s now_secs id k reason
  handle_outcome_untold now_secs k (Outcome.network id (success latency)) h = cc
  handle_outcome_untold now_secs k (Outcome.network id (failure message)) h = cc
  handle_outcome_untold now_secs k (Outcome.collector id healthy latency) h = cc
  handle_outcome_untold now_secs k (Outcome.collector id (unhealthy reason) latency) h = cc

  -- A task that ends without an outcome, by a panic or otherwise, is not dropped: the monitor that
  -- owned it goes stale and gets a record with the reason, and the task is no longer owned.
  pub handle_joined_failed :
      (now_secs task id k : ℕ) (owners : Dict TaskOwner) (error : JoinError)
      → ((lookup task owners ≡ some (TaskOwner.network id))
          ⊎ (lookup task owners ≡ some (TaskOwner.collector id)))
      → let ((s', es), left) = handle_joined s now_secs owners (failed task error) in
        (status_of (lookup id s'.registry) ≡ Option.map (λ _. stale) (lookup id s.registry))
        × OnlyStale (persisted es)
        × (written es ≡ no_outcome id now_secs (join_error_message error) ∷ [])
        × (lookup k left ≡ (if task == k then none else lookup k owners))
  unfolding handle_joined handle_failed handle_outcome
  handle_joined_failed now_secs task id k owners error (inl e) = ground (
    arith,
    mark_stale_and_record_lem s now_secs id k (join_error_message error),
    lookup-remove task k owners,
  )
  handle_joined_failed now_secs task id k owners error (inr e) = ground (
    arith,
    mark_stale_and_record_lem s now_secs id k (join_error_message error),
    lookup-remove task k owners,
  )

  -- A result that tells of the target is recorded once, with its outcome, if its monitor is still
  -- registered, and not at all if it is not; no other monitor's entry changes.
  pub apply_result_lem :
      (now_secs id : ℕ) (ok : Bool) (message : Option String) (latency k : ℕ)
      → let result : CheckResult = record {
        monitor_id = id;
        checked_at = now_secs;
        success = ok;
        latency_ms = latency;
        message = message;
      } in
        let (s', es) = apply_result s now_secs id ok message latency in
        (written es ≡ (if is_some (lookup id s.registry) then result ∷ [] else []))
        × (broadcasted es ≡ written es)
        × (id ≢ k → lookup k s'.registry ≡ lookup k s.registry)
  unfolding apply_result record_result
  apply_result_lem now_secs id ok message latency k = elim (Option-cases (lookup id s.registry)) [
    | inl e ↦ rw (e, apply_result) (ground arith)
    | inr (state, e) ↦
        let (flap, new) = observe state.flap ok state.monitor.status in
        let state' = (transition id (record state { flap = flap }) new).0 in
        rw (e, apply_result) (ground (arith, lookup-insert id k state' s.registry))
  ]
