-- ===== src/Models.antt =====
-- The domain vocabulary of crates/models/src: what is watched, what was observed, who pushes, and
-- which alerts went out. `u64` and `usize` values are natural numbers.
use monitra.Base.{ℕ, String, Bool, true, false, ◌&&◌, Option, leb}

-- crates/models/src/monitor.rs
pub data MonitorKind : Type 0 where
  http tcp icmp k8s_deployment k8s_stateful_set k8s_service host_agent_check : MonitorKind

pub data MonitorStatus : Type 0 where
  pending up down paused stale unknown : MonitorStatus

abbrev pub min_interval_secs : ℕ
min_interval_secs = 1

abbrev pub max_interval_secs : ℕ
max_interval_secs = 86400

abbrev pub valid_interval_secs : ℕ → Bool
valid_interval_secs value = leb min_interval_secs value && leb value max_interval_secs

pub record Monitor : Type 0 where
  pub id : ℕ
  pub name : String
  pub target : String
  pub kind : MonitorKind
  pub interval_secs : ℕ
  pub status : MonitorStatus
  pub agent_id : Option ℕ

-- crates/models/src/agent.rs
pub record Agent : Type 0 where
  pub id : ℕ
  pub name : String
  pub last_heartbeat_at : ℕ
  pub scope : String
  pub token : String
  pub region : Option String

-- crates/models/src/check_result.rs
pub record CheckResult : Type 0 where
  pub monitor_id : ℕ
  pub checked_at : ℕ
  pub success : Bool
  pub latency_ms : ℕ
  pub message : Option String

-- crates/models/src/alert_event.rs
pub record AlertEvent : Type 0 where
  pub id : ℕ
  pub monitor_id : ℕ
  pub transitioned_to : MonitorStatus
  pub occurred_at : ℕ
  pub sinks_attempted : String
  pub delivery_outcome : String

-- The derived equality of `MonitorStatus`, at the two values that the program tests for.
abbrev pub is_paused : MonitorStatus → Bool
is_paused paused = true
is_paused _ = false

abbrev pub is_stale : MonitorStatus → Bool
is_stale stale = true
is_stale _ = false
