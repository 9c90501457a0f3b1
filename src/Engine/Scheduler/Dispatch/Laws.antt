-- ===== src/Engine/Scheduler/Dispatch/Laws.antt =====
-- What one pass over the due monitors does to the registry, and the deadline of the loop.
use mathlib.Core.Option
use mathlib.Core.Option.{Option}
use monitra.Base.{
  ℕ, ◌≡◌, ◌≢◌, refl, ◌∙◌, Bool, true, false, none, some, List, [], ◌∷◌, arith, leb, ◌==◌,
  if◌then◌else◌, Option-cases, inl, inr, filter, elem, map, min, ◌≤◌, ◌<◌, All, ◌⊎◌,
}
use monitra.Base.Dict.{Dict, lookup, insert, keys, values, lookup-insert, Unique}
use monitra.Models.{Monitor}
use monitra.Probe.{NetworkProbeKind, try_from}
use monitra.Engine.Deadline.{from_secs, advance_deadline}
use monitra.Engine.Scheduler.{MonitorState, Scheduler}
use monitra.Engine.Scheduler.Dispatch.{
  Env, Tasks, built, collector_of, minimum_from, earliest, next_deadline, dispatch_k8s, route,
  rescheduled, dispatch_one, dispatch_all, dispatch_due,
}

abbrev pub is_due : ℕ → MonitorState → Bool
is_due now state = leb state.next_check_at now

-- Identifiers that are all different.
abbrev pub Distinct : List ℕ → Type 0
Distinct [] = Unit {0}
Distinct (k ∷ ks) = (elem k ks ≡ false) × Distinct ks

module _ {C : Type 0} (env : Env C) where
  pub registry-route :
      (s : Scheduler C) (tasks : Tasks C) (id : ℕ) (m : Monitor) (kind : Option NetworkProbeKind)
      (agent : Option ℕ)
      → (route env s tasks id m kind agent).0.registry ≡ s.registry
  unfolding route dispatch_k8s built collector_of
  registry-route s tasks id m kind agent = ground arith

  pub lookup-dispatch_one :
      (now : ℕ) (s : Scheduler C) (tasks : Tasks C) (id k : ℕ)
      → lookup k (dispatch_one env now s tasks id).0.registry ≡ (
          if id == k
          then Option.map (rescheduled env now) (lookup k s.registry)
          else lookup k s.registry)
  unfolding dispatch_one
  lookup-dispatch_one now s tasks id k = elim (Option-cases (lookup id s.registry)) [
    | inl e ↦ rw (e, dispatch_one) (ground arith)
    | inr (state, e) ↦
        let registry = insert id (rescheduled env now state) s.registry in
        let routed =
          registry-route (record s { registry = registry }) tasks id state.monitor
            (try_from state.monitor.kind) state.monitor.agent_id in
        rw (e, dispatch_one)
          (rw routed (ground (arith, lookup-insert id k (rescheduled env now state) s.registry)))
  ]

  lookup-dispatch_all :
      (now : ℕ) (s : Scheduler C) (tasks : Tasks C) (ids : List ℕ) (k : ℕ)
      → Distinct ids
      → lookup k (dispatch_all env now s tasks ids).0.registry ≡ (
          if elem k ids
          then Option.map (rescheduled env now) (lookup k s.registry)
          else lookup k s.registry)
  unfolding dispatch_all
  lookup-dispatch_all now s tasks [] k d = refl
  lookup-dispatch_all now s tasks (id ∷ ids) k d =
      let next = dispatch_one env now s tasks id in
      ground (
        arith,
        lookup-dispatch_all now next.0 next.1 ids k d.1,
        lookup-dispatch_one now s tasks id k,
      )

abbrev pub due_at : ℕ → Option MonitorState → Bool
due_at now none = false
due_at now (some state) = is_due now state

abbrev pub due_ids : ℕ → Dict MonitorState → List ℕ
due_ids now registry = keys (filter (λ e. is_due now e.1) registry)

pub elem-due_ids :
    (now k : ℕ) (registry : Dict MonitorState)
    → Unique registry
    → elem k (due_ids now registry) ≡ due_at now (lookup k registry)
unfolding lookup
elem-due_ids now k [] u = refl
elem-due_ids now k ((j, state) ∷ m) u = ground (arith, elem-due_ids now k m u.1)

pub due_ids-Distinct :
    (now : ℕ) (registry : Dict MonitorState) → Unique registry → Distinct (due_ids now registry)
due_ids-Distinct now [] u = tt
due_ids-Distinct now ((j, state) ∷ m) u =
    ground (arith, elem-due_ids now j m u.1, due_ids-Distinct now m u.1)

-- A state after a pass at `now`, where the largest instant is `limit`.
abbrev pub after_pass : ℕ → ℕ → MonitorState → MonitorState
after_pass limit now state =
    if is_due now state
    then record state {
      next_check_at =
          advance_deadline limit state.next_check_at (from_secs state.monitor.interval_secs) now;
    }
    else state

-- Where no identifier has two entries: a pass moves the deadline of every due monitor, by
-- `advance_deadline`, and of no other; nothing else in the registry changes, and no entry comes or
-- goes.
pub lookup-dispatch_due :
    {C : Type 0} (env : Env C) (now : ℕ) (s : Scheduler C) (tasks : Tasks C) (k : ℕ)
    → Unique s.registry
    → lookup k (dispatch_due env now s tasks).0.registry
      ≡ Option.map (after_pass env.last_instant now) (lookup k s.registry)
unfolding dispatch_due
lookup-dispatch_due env now s tasks k u =
    lookup-dispatch_all env now s tasks (due_ids now s.registry) k
      (due_ids-Distinct now s.registry u)
    ∙ ground (arith, elem-due_ids now k s.registry u)

-- The deadlines of a registry's entries.
abbrev pub deadlines_of : Dict MonitorState → List ℕ
deadlines_of registry = map (λ state. state.next_check_at) (values registry)

minimum_from-le :
    (least : ℕ) (ds : List ℕ)
    → (minimum_from least ds ≤ least) × All (λ d. minimum_from least ds ≤ d) ds
unfolding minimum_from
minimum_from-le least [] = (omega arith, tt)
minimum_from-le least (d ∷ ds) =
    let (le, all) = minimum_from-le (min least d) ds in
    (omega (arith, le), (omega (arith, le), all))

minimum_from-elem :
    (least : ℕ) (ds : List ℕ)
    → (minimum_from least ds ≡ least) ⊎ (elem (minimum_from least ds) ds ≡ true)
unfolding minimum_from
minimum_from-elem least [] = inl refl
minimum_from-elem least (d ∷ ds) = ground (arith, minimum_from-elem (min least d) ds)

none_due :
    (t : ℕ) (registry : Dict MonitorState)
    → All (λ d. t < d) (deadlines_of registry)
    → due_ids t registry ≡ []
none_due t [] all = refl
none_due t ((j, state) ∷ m) all = ground (arith, none_due t m all.1)

below-All : (t least : ℕ) (ds : List ℕ) → t < least → All (λ d. least ≤ d) ds → All (λ d. t < d) ds
below-All t least [] lt all = tt
below-All t least (d ∷ ds) lt (le, all) = (omega arith, below-All t least ds lt all)

some_due :
    (t : ℕ) (registry : Dict MonitorState)
    → elem t (deadlines_of registry) ≡ true
    → due_ids t registry ≢ []
some_due t [] h = cc
some_due t ((j, state) ∷ m) h = ground (arith, some_due t m)

earliest_lem :
    (now t : ℕ) (registry : Dict MonitorState)
    → (t < earliest now (deadlines_of registry) → due_ids t registry ≡ [])
      × (registry ≢ [] → due_ids (earliest now (deadlines_of registry)) registry ≢ [])
unfolding earliest
earliest_lem now t [] = (λ h. refl, λ h. absurd (h refl))
earliest_lem now t ((j, state) ∷ m) =
    let d = state.next_check_at in
    let ds = deadlines_of m in
    let (le, all) = minimum_from-le d ds in
    (
      λ lt.
          none_due t ((j, state) ∷ m)
            (omega (arith, le), below-All t (minimum_from d ds) ds lt all),
      λ h. some_due (minimum_from d ds) ((j, state) ∷ m) (ground (arith, minimum_from-elem d ds)),
    )

-- The loop neither oversleeps nor wakes for nothing: before the deadline that it sleeps until no
-- monitor is due, and at that deadline some monitor is, if any is registered.
pub next_deadline_lem :
    {C : Type 0} (s : Scheduler C) (now t : ℕ)
    → (t < next_deadline s now → due_ids t s.registry ≡ [])
      × (s.registry ≢ [] → due_ids (next_deadline s now) s.registry ≢ [])
unfolding next_deadline earliest
next_deadline_lem s now t = earliest_lem now t s.registry
