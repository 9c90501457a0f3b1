-- ===== src/Engine/Scheduler/Resync/Laws.antt =====
-- What a resync leaves in the registry and in quarantine.
use mathlib.Core.Option
use mathlib.Core.Option.{Option}
use monitra.Base.{
  ◌||◌, ℕ, ◌≡◌, refl, Bool, false, not, ◌&&◌, none, some, List, [], ◌∷◌, length, elem,
  if◌then◌else◌, arith, is_some, ◌==◌, ◌∙◌, ap,
}
use monitra.Base.Dict.{Dict, lookup, retain, lookup-insert, lookup-retain}
use monitra.Models.{Monitor}
use monitra.Engine.Flap.{fresh}
use monitra.Engine.Scheduler.{MonitorState, Scheduler}
use monitra.Engine.Scheduler.Resync.{
  is_valid, is_eligible, upserted, sync_one, sync_all, seen_of, resync,
}

-- The last listed monitor with an identifier that may be checked: not paused, of valid interval.
abbrev pub latest : ℕ → List Monitor → Option Monitor
latest k [] = none
latest k (m ∷ ms) =
    let later = latest k ms in
    elim later [ some m' ↦ some m' | none ↦ if is_eligible m && m.id == k then some m else none ]

-- What the registry is to hold of an identifier.
abbrev pub synced : ℕ → Option MonitorState → Option Monitor → Option MonitorState
synced now old none = old
synced now old (some m) = some (upserted m now old)

lookup-sync_one :
    (now k : ℕ) (registry : Dict MonitorState) (quarantined : List ℕ) (m : Monitor)
    → lookup k (sync_one now (registry, quarantined) m).0 ≡ (
        if is_eligible m && m.id == k
        then some (upserted m now (lookup k registry))
        else lookup k registry)
unfolding sync_one
lookup-sync_one now k registry quarantined m =
    ground (arith, lookup-insert m.id k (upserted m now (lookup m.id registry)) registry)

synced_cons :
    (now k : ℕ) (m : Monitor) (ms : List Monitor) (old : Option MonitorState)
    → synced now
        (if is_eligible m && m.id == k then some (upserted m now old) else old)
        (latest k ms)
      ≡ synced now old (latest k (m ∷ ms))
synced_cons now k m ms none = ground arith
synced_cons now k m ms (some state) = ground arith

lookup-sync_all :
    (now k : ℕ) (registry : Dict MonitorState) (quarantined : List ℕ) (ms : List Monitor)
    → lookup k (sync_all now (registry, quarantined) ms).0
      ≡ synced now (lookup k registry) (latest k ms)
unfolding sync_all
lookup-sync_all now k registry quarantined [] = refl
lookup-sync_all now k registry quarantined (m ∷ ms) =
    let next = sync_one now (registry, quarantined) m in
    lookup-sync_all now k next.0 next.1 ms
    ∙ ap (λ old. synced now old (latest k ms)) (lookup-sync_one now k registry quarantined m)
    ∙ synced_cons now k m ms (lookup k registry)

elem-seen_of : (k : ℕ) (ms : List Monitor) → elem k (seen_of ms) ≡ is_some (latest k ms)
elem-seen_of k [] = refl
elem-seen_of k (m ∷ ms) = ground (arith, elem-seen_of k ms)

-- A listed monitor's entry, by the one that the registry had for its identifier.
abbrev pub as_listed : ℕ → Option MonitorState → Monitor → MonitorState
as_listed now none m = record { monitor = m; next_check_at = now; flap = fresh }
as_listed now (some old) m = record {
  monitor = m;
  next_check_at = old.next_check_at;
  flap = old.flap;
}

map-upserted :
    (now : ℕ) (old : Option MonitorState) (listed : Option Monitor)
    → Option.map (λ m. upserted m now old) listed ≡ Option.map (as_listed now old) listed
map-upserted now old none = refl
map-upserted now none (some m) = refl
map-upserted now (some state) (some m) = refl

-- After a resync the registry holds an identifier exactly if the store lists an unpaused monitor of
-- valid interval with it: that monitor as stored, under the deadline and the damping counters it
-- had, or due at once with fresh counters where it is new.
pub lookup-resync :
    {C : Type 0} (s : Scheduler C) (monitors : List Monitor) (now k : ℕ)
    → lookup k (resync s (some monitors) now).registry
      ≡ Option.map (as_listed now (lookup k s.registry)) (latest k monitors)
unfolding resync
lookup-resync s monitors now k =
    lookup-sync_all now k (retain (λ id. elem id (seen_of monitors)) s.registry) [] monitors
    ∙ ground (
      arith,
      elem-seen_of k monitors,
      lookup-retain (λ id. elem id (seen_of monitors)) k s.registry,
    )
    ∙ map-upserted now (lookup k s.registry) (latest k monitors)

-- Whether some listed monitor with an identifier has an invalid interval.
abbrev pub any_invalid : ℕ → List Monitor → Bool
any_invalid k [] = false
any_invalid k (m ∷ ms) = (not (is_valid m) && m.id == k) || any_invalid k ms

elem-sync_all :
    (now k : ℕ) (registry : Dict MonitorState) (quarantined : List ℕ) (ms : List Monitor)
    → elem k (sync_all now (registry, quarantined) ms).1 ≡ (elem k quarantined || any_invalid k ms)
unfolding sync_all
elem-sync_all now k registry quarantined [] = ground arith
elem-sync_all now k registry quarantined (m ∷ ms) =
    let next = sync_one now (registry, quarantined) m in
    elem-sync_all now k next.0 next.1 ms ∙ (unfold sync_one in ground arith)

-- Exactly the listed monitors of invalid interval are in quarantine, paused ones too; the count
-- that `/health` reads is that of their identifiers.
pub quarantined-resync :
    {C : Type 0} (s : Scheduler C) (monitors : List Monitor) (now k : ℕ)
    → let s' = resync s (some monitors) now in
      (elem k s'.quarantined ≡ any_invalid k monitors)
      × (s'.assignments.quarantined ≡ length s'.quarantined)
unfolding resync
quarantined-resync s monitors now k =
    (elem-sync_all now k (retain (λ id. elem id (seen_of monitors)) s.registry) [] monitors, refl)

-- A resync keeps the collector of every monitor that may be checked, whatever target the store lists
-- for it, and drops every other; the pending assignments stay as they are.
pub collectors-resync :
    {C : Type 0} (s : Scheduler C) (monitors : List Monitor) (now k : ℕ)
    → let s' = resync s (some monitors) now in
      (lookup k s'.k8s_collectors
        ≡ (if is_some (latest k monitors) then lookup k s.k8s_collectors else none))
      × (s'.assignments.queues ≡ s.assignments.queues)
unfolding resync
collectors-resync s monitors now k = (
  lookup-retain (λ id. elem id (seen_of monitors)) k s.k8s_collectors
      ∙ rw (elem-seen_of k monitors) refl,
  refl,
)
