-- ===== src/Engine/Scheduler/Resync.antt =====
-- `resync`: the registry is reconciled with what the store lists. `none` stands for a list that
-- failed. `now` is the instant at which the call reads the clock.
pub mod Laws
use monitra.Base.{
  ℕ, Bool, true, false, not, ◌&&◌, Option, none, some, List, [], ◌∷◌, map, length, filter, elem,
  if◌then◌else◌,
}
use monitra.Base.Dict.{Dict, lookup, insert, retain}
use monitra.Models.{Monitor, valid_interval_secs, is_paused}
use monitra.Engine.Assignments.{AssignmentHandle}
use monitra.Engine.Flap.{fresh}
use monitra.Engine.Scheduler.{MonitorState, Scheduler}

abbrev pub is_valid : Monitor → Bool
is_valid m = valid_interval_secs m.interval_secs

abbrev pub is_eligible : Monitor → Bool
is_eligible m = not (is_paused m.status) && is_valid m

-- The `match` on the entry: an old one keeps its deadline and its damping.
abbrev pub upserted : Monitor → ℕ → Option MonitorState → MonitorState
upserted m now none = record { monitor = m; next_check_at = now; flap = fresh }
upserted m now (some state) = record state { monitor = m }

-- `HashSet::insert`.
abbrev pub add : ℕ → List ℕ → List ℕ
add k ks = if elem k ks then ks else k ∷ ks

-- The body of the loop over the listed monitors.
unfoldable pub sync_one : ℕ → Dict MonitorState × List ℕ → Monitor → Dict MonitorState × List ℕ
sync_one now (registry, quarantined) m =
    if is_valid m
    then (if is_paused m.status
        then (registry, quarantined)
        else (insert m.id (upserted m now (lookup m.id registry)) registry, quarantined))
    else (registry, add m.id quarantined)

unfoldable pub sync_all : ℕ → Dict MonitorState × List ℕ → List Monitor → Dict MonitorState × List ℕ
sync_all now state [] = state
sync_all now state (m ∷ ms) = sync_all now (sync_one now state m) ms

abbrev pub seen_of : List Monitor → List ℕ
seen_of monitors = map (λ m. m.id) (filter is_eligible monitors)

module _ {C : Type 0} where
  unfoldable pub resync : Scheduler C → Option (List Monitor) → ℕ → Scheduler C
  resync s none now = s
  resync s (some monitors) now =
      let seen = seen_of monitors in
      let kept = retain (λ id. elem id seen) s.registry in
      let (registry, quarantined) = sync_all now (kept, []) monitors in
      record {
        registry = registry;
        k8s_collectors = retain (λ id. elem id seen) s.k8s_collectors;
        quarantined = quarantined;
        assignments = record s.assignments { quarantined = length quarantined };
      }
