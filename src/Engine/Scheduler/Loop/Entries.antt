-- ===== src/Engine/Scheduler/Loop/Entries.antt =====
-- The uniqueness of the entries of the registry, under each handler.
use mathlib.Core.Option.{Option}
use monitra.Base.{
  ℕ, String, Bool, true, false, none, some, List, [], ◌∷◌, arith, Option-cases, inl, inr, elem,
}
use monitra.Base.Dict.{Dict, lookup, insert, retain, Unique, insert-Unique, retain-Unique}
use monitra.Models.{Monitor, stale}
use monitra.Probe.{try_from, success, failure, unavailable}
use monitra.Provider.Collector.{healthy, unhealthy, unknown}
use monitra.Engine.Scheduler.{MonitorState, Scheduler, Outcome}
use monitra.Engine.Scheduler.Resync.{upserted, sync_one, sync_all, seen_of, resync}
use monitra.Engine.Scheduler.Results.{
  transition, apply_result, record_result, mark_stale, mark_stale_and_record, handle_outcome,
}
use monitra.Engine.Scheduler.Dispatch.{Env, Tasks, dispatch_one, dispatch_all, rescheduled}
use monitra.Engine.Scheduler.Dispatch.Laws.{registry-route}

module _ {C : Type 0} (env : Env C) where
  registry-dispatch_one-Unique :
      (now : ℕ) (s : Scheduler C) (tasks : Tasks C) (id : ℕ)
      → Unique s.registry
      → Unique (dispatch_one env now s tasks id).0.registry
  unfolding dispatch_one
  registry-dispatch_one-Unique now s tasks id u = elim (Option-cases (lookup id s.registry)) [
    | inl e ↦ rw (e, dispatch_one) u
    | inr (state, e) ↦
        let registry = insert id (rescheduled env now state) s.registry in
        rw (e, dispatch_one)
          (rw
            (registry-route env (record s { registry = registry }) tasks id state.monitor
              (try_from state.monitor.kind) state.monitor.agent_id)
            (insert-Unique id (rescheduled env now state) s.registry u))
  ]

  pub registry-dispatch_all-Unique :
      (now : ℕ) (s : Scheduler C) (tasks : Tasks C) (ids : List ℕ)
      → Unique s.registry
      → Unique (dispatch_all env now s tasks ids).0.registry
  unfolding dispatch_all
  registry-dispatch_all-Unique now s tasks [] u = u
  registry-dispatch_all-Unique now s tasks (id ∷ ids) u =
      let next = dispatch_one env now s tasks id in
      registry-dispatch_all-Unique now next.0 next.1 ids
        (registry-dispatch_one-Unique now s tasks id u)

-- The same of a resync, and of a result.
sync_one-Unique :
    (now : ℕ) (registry : Dict MonitorState) (quarantined : List ℕ) (m : Monitor)
    → Unique registry
    → Unique (sync_one now (registry, quarantined) m).0
unfolding sync_one
sync_one-Unique now registry quarantined m u =
    ground (arith, insert-Unique m.id (upserted m now (lookup m.id registry)) registry u)

sync_all-Unique :
    (now : ℕ) (registry : Dict MonitorState) (quarantined : List ℕ) (ms : List Monitor)
    → Unique registry
    → Unique (sync_all now (registry, quarantined) ms).0
unfolding sync_all
sync_all-Unique now registry quarantined [] u = u
sync_all-Unique now registry quarantined (m ∷ ms) u =
    let next = sync_one now (registry, quarantined) m in
    sync_all-Unique now next.0 next.1 ms (sync_one-Unique now registry quarantined m u)

module _ {C : Type 0} where
  pub resync-Unique :
      (s : Scheduler C) (listed : Option (List Monitor)) (now : ℕ)
      → Unique s.registry
      → Unique (resync s listed now).registry
  unfolding resync
  resync-Unique s none now u = u
  resync-Unique s (some ms) now u =
      sync_all-Unique now (retain (λ id. elem id (seen_of ms)) s.registry) [] ms
        (retain-Unique (λ id. elem id (seen_of ms)) s.registry u)

  apply_result-Unique :
      (s : Scheduler C) (now_secs id : ℕ) (passed : Bool) (message : Option String) (latency : ℕ)
      → Unique s.registry
      → Unique (apply_result s now_secs id passed message latency).0.registry
  unfolding apply_result record_result
  apply_result-Unique s now_secs id passed message latency u =
      elim (Option-cases (lookup id s.registry)) [
        | inl e ↦ rw (e, apply_result) u
        | inr (state, e) ↦ rw (e, apply_result) (insert-Unique id _ s.registry u)
      ]

  mark_stale_and_record-Unique :
      (s : Scheduler C) (now_secs id : ℕ) (message : String)
      → Unique s.registry
      → Unique (mark_stale_and_record s now_secs id message).0.registry
  unfolding mark_stale_and_record mark_stale
  mark_stale_and_record-Unique s now_secs id message u =
      elim (Option-cases (lookup id s.registry)) [
        | inl e ↦ rw (e, mark_stale_and_record, mark_stale) u
        | inr (state, e) ↦
            let state' = (transition id state (some stale)).0 in
            rw (e, mark_stale_and_record, mark_stale)
              (ground (arith, u, insert-Unique id state' s.registry u))
      ]

  pub handle_outcome-Unique :
      (s : Scheduler C) (now_secs : ℕ) (outcome : Outcome)
      → Unique s.registry
      → Unique (handle_outcome s now_secs outcome).0.registry
  unfolding handle_outcome
  handle_outcome-Unique s now_secs (Outcome.network id (success latency)) u =
      apply_result-Unique s now_secs id true none latency u
  handle_outcome-Unique s now_secs (Outcome.network id (failure message)) u =
      apply_result-Unique s now_secs id false (some message) 0 u
  handle_outcome-Unique s now_secs (Outcome.network id (unavailable message)) u =
      mark_stale_and_record-Unique s now_secs id message u
  handle_outcome-Unique s now_secs (Outcome.collector id healthy latency) u =
      apply_result-Unique s now_secs id true none latency u
  handle_outcome-Unique s now_secs (Outcome.collector id (unhealthy reason) latency) u =
      apply_result-Unique s now_secs id false (some reason) latency u
  handle_outcome-Unique s now_secs (Outcome.collector id (unknown reason) latency) u =
      mark_stale_and_record-Unique s now_secs id reason u
