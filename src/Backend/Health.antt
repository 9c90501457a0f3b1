-- ===== src/Backend/Health.antt =====
-- crates/backend/src/health.rs and assignments.rs: the two handlers that read what the process holds.
-- The configured cache and the sink of the notifier are parameters, with their names.
use monitra.Base.{
  ℕ, String, Bool, true, false, ◌&&◌, ◌==◌, Option, none, some, List, map, if◌then◌else◌,
}
use monitra.Models.{MonitorKind}
use monitra.Provider.Cache.{Answer, ok, err, DegradingCache, is_degraded, live}
use monitra.Provider.Notifier.{RetryingNotifier, queue_len}
use monitra.Engine.Assignments.{Assignment, AssignmentHandle, drain, quarantined_count}

pub record HealthResponse : Type 0 where
  pub status : String
  pub version : String
  pub store_name : String
  pub store_reachable : Bool
  pub cache_name : String
  pub cache_degraded : Bool
  pub notifier_name : String
  pub notifier_queue_len : ℕ
  pub k8s_clusters : List String
  pub quarantined_monitors : ℕ

abbrev pub is_ok : Answer (Unit {0}) → Bool
is_ok (ok done) = true
is_ok (err error) = false

module _ {C N : Type 0} (cache_name : C → String) (default_name : String)
    (inner_name : N → String) where
  unfoldable pub name_of : Option C → String
  name_of none = default_name
  name_of (some configured) = cache_name configured

  -- The cache that is in effect.
  unfoldable pub active_name : DegradingCache C → String
  unfolding name_of
  active_name cache = name_of (live cache.degraded cache.configured)

  unfoldable pub health :
      String
      → String
      → Answer (Unit {0})
      → AssignmentHandle
      → DegradingCache C
      → RetryingNotifier N
      → List String
      → HealthResponse
  unfolding active_name
  health version store_name health_check assignments cache notifier k8s_clusters = record {
    status = if is_ok health_check && quarantined_count assignments == 0 then "ok" else "degraded";
    version = version;
    store_name = store_name;
    store_reachable = is_ok health_check;
    cache_name = active_name cache;
    cache_degraded = is_degraded cache;
    notifier_name = inner_name notifier.inner;
    notifier_queue_len = queue_len notifier;
    k8s_clusters = k8s_clusters;
    quarantined_monitors = quarantined_count assignments;
  }

pub record AssignmentDto : Type 0 where
  pub monitor_id : ℕ
  pub target : String
  pub kind : MonitorKind

unfoldable pub assignment_dto : Assignment → AssignmentDto
assignment_dto assignment = record {
  monitor_id = assignment.monitor_id;
  target = assignment.target;
  kind = assignment.kind;
}

-- `GET /agents/{id}/assignments`.
unfoldable pub list_assignments : AssignmentHandle → ℕ → List AssignmentDto × AssignmentHandle
unfolding assignment_dto
list_assignments handle agent_id =
    let (assignments, handle') = drain handle agent_id in (map assignment_dto assignments, handle')
