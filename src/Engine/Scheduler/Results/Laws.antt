-- ===== src/Engine/Scheduler/Results/Laws.antt =====
-- The registry, the store and the announcements after an outcome.
use mathlib.Core.Option
use mathlib.Core.Option.{Option}
use monitra.Base.{
  ◌≤◌, length, ℕ, String, ◌≡◌, Bool, true, false, none, some, List, [], ◌∷◌, arith, ◌==◌,
  if◌then◌else◌, Option-cases, inl, inr,
}
use monitra.Base.Dict.{lookup, lookup-insert}
use monitra.Models.{MonitorStatus, CheckResult, stale}
use monitra.Probe.{success, failure, unavailable}
use monitra.Provider.Collector.{healthy, unhealthy, unknown}
use monitra.Engine.Flap.{observe}
use monitra.Engine.Scheduler.{
  MonitorState, Scheduler, Outcome, Effect, set_status, alert, write, broadcast,
}
use monitra.Engine.Scheduler.Results.{
  transition, record_result, apply_result, mark_stale, mark_stale_and_record, handle_outcome,
}

-- The status that a monitor has in the store after the effects, from the one that it had.
abbrev pub stored : ℕ → List Effect → MonitorStatus → MonitorStatus
stored k [] status = status
stored k (set_status j new ∷ es) status = stored k es (if j == k then new else status)
stored k (alert request ∷ es) status = stored k es status
stored k (write result ∷ es) status = stored k es status
stored k (broadcast result ∷ es) status = stored k es status

abbrev pub status_of : Option MonitorState → Option MonitorStatus
status_of = Option.map (λ state. state.monitor.status)

-- The effects of a handler keep a monitor's stored status equal to the registry's.
abbrev pub Mirrors : {C : Type 0} → ℕ → Scheduler C → Scheduler C × List Effect → Type 0
Mirrors k s (s', es) =
    status_of (lookup k s'.registry) ≡ Option.map (stored k es) (status_of (lookup k s.registry))

module _ {C : Type 0} (s : Scheduler C) (k : ℕ) where
  record_result-Mirrors :
      (state : MonitorState) (result : CheckResult)
      → lookup result.monitor_id s.registry ≡ some state
      → Mirrors k s (record_result s state result)
  unfolding record_result
  record_result-Mirrors state result e =
      let (flap, new) = observe state.flap result.success state.monitor.status in
      let state' = (transition result.monitor_id (record state { flap = flap }) new).0 in
      ground (arith, lookup-insert result.monitor_id k state' s.registry)

  apply_result-Mirrors :
      (now_secs id : ℕ) (ok : Bool) (message : Option String) (latency : ℕ)
      → Mirrors k s (apply_result s now_secs id ok message latency)
  unfolding apply_result
  apply_result-Mirrors now_secs id ok message latency = elim (Option-cases (lookup id s.registry)) [
    | inl e ↦ rw (e, apply_result) (ground arith)
    | inr (state, e) ↦ rw (e, apply_result) (record_result-Mirrors state _ e)
  ]

  mark_stale_and_record-Mirrors :
      (now_secs id : ℕ) (message : String)
      → Mirrors k s (mark_stale_and_record s now_secs id message)
  unfolding mark_stale_and_record mark_stale
  mark_stale_and_record-Mirrors now_secs id message = elim (Option-cases (lookup id s.registry)) [
    | inl e ↦ rw (e, mark_stale_and_record, mark_stale) (ground arith)
    | inr (state, e) ↦
        let state' = (transition id state (some stale)).0 in
        rw (e, mark_stale_and_record, mark_stale)
          (ground (arith, lookup-insert id k state' s.registry))
  ]

  -- Whatever an outcome is, of a probe or of a collector, and for whichever monitor, each monitor's
  -- status in the store after its effects is the one in the registry, if it was so before.
  pub handle_outcome-Mirrors :
      (now_secs : ℕ) (outcome : Outcome) → Mirrors k s (handle_outcome s now_secs outcome)
  unfolding handle_outcome
  handle_outcome-Mirrors now_secs (Outcome.network id (success latency)) =
      apply_result-Mirrors now_secs id true none latency
  handle_outcome-Mirrors now_secs (Outcome.network id (failure message)) =
      apply_result-Mirrors now_secs id false (some message) 0
  handle_outcome-Mirrors now_secs (Outcome.network id (unavailable message)) =
      mark_stale_and_record-Mirrors now_secs id message
  handle_outcome-Mirrors now_secs (Outcome.collector id healthy latency) =
      apply_result-Mirrors now_secs id true none latency
  handle_outcome-Mirrors now_secs (Outcome.collector id (unhealthy reason) latency) =
      apply_result-Mirrors now_secs id false (some reason) latency
  handle_outcome-Mirrors now_secs (Outcome.collector id (unknown reason) latency) =
      mark_stale_and_record-Mirrors now_secs id reason

-- The transitions that a handler persists, and those that it announces.
abbrev pub persisted : List Effect → List (ℕ × MonitorStatus)
persisted [] = []
persisted (set_status id status ∷ es) = (id, status) ∷ persisted es
persisted (alert request ∷ es) = persisted es
persisted (write result ∷ es) = persisted es
persisted (broadcast result ∷ es) = persisted es

abbrev pub announced : List Effect → List (ℕ × MonitorStatus)
announced [] = []
announced (set_status id status ∷ es) = announced es
announced (alert request ∷ es) = (request.monitor_id, request.transitioned_to) ∷ announced es
announced (write result ∷ es) = announced es
announced (broadcast result ∷ es) = announced es

-- The results that a handler records.
abbrev pub written : List Effect → List CheckResult
written [] = []
written (set_status id status ∷ es) = written es
written (alert request ∷ es) = written es
written (write result ∷ es) = result ∷ written es
written (broadcast result ∷ es) = written es

-- The results that a handler passes on to the subscribers.
abbrev pub broadcasted : List Effect → List CheckResult
broadcasted [] = []
broadcasted (set_status id status ∷ es) = broadcasted es
broadcasted (alert request ∷ es) = broadcasted es
broadcasted (write result ∷ es) = broadcasted es
broadcasted (broadcast result ∷ es) = result ∷ broadcasted es

-- Whether an outcome says something about the target, and of which monitor it is.
abbrev pub tells_target : Outcome → Bool
tells_target (Outcome.network id (unavailable message)) = false
tells_target (Outcome.collector id (unknown reason) latency) = false
tells_target _ = true

abbrev pub monitor_of : Outcome → ℕ
monitor_of (Outcome.network id outcome) = id
monitor_of (Outcome.collector id status latency) = id

module _ {C : Type 0} (s : Scheduler C) where
  -- Every transition that is persisted is announced, and no other, in the same order; there is at
  -- most one for an outcome.
  pub handle_outcome-announced :
      (now_secs : ℕ) (outcome : Outcome)
      → let es = (handle_outcome s now_secs outcome).1 in
        (announced es ≡ persisted es) × (length (persisted es) ≤ 1)
  unfolding handle_outcome apply_result record_result mark_stale_and_record mark_stale
  handle_outcome-announced now_secs (Outcome.network id (success latency)) = ground arith
  handle_outcome-announced now_secs (Outcome.network id (failure message)) = ground arith
  handle_outcome-announced now_secs (Outcome.network id (unavailable message)) = ground arith
  handle_outcome-announced now_secs (Outcome.collector id healthy latency) = ground arith
  handle_outcome-announced now_secs (Outcome.collector id (unhealthy reason) latency) = ground arith
  handle_outcome-announced now_secs (Outcome.collector id (unknown reason) latency) = ground arith
