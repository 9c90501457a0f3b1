-- ===== src/Backend/Dto.antt =====
-- The bodies of the responses, crates/backend/src/monitors.rs, agents.rs and alerts.rs.
use monitra.Base.{ℕ, String, Bool, not, Option, none, some, if◌then◌else◌}
use monitra.Models.{
  Monitor, MonitorKind, MonitorStatus, Agent, CheckResult, AlertEvent, valid_interval_secs,
}

pub record MonitorDto : Type 0 where
  pub id : ℕ
  pub name : String
  pub target : String
  pub kind : MonitorKind
  pub interval_secs : ℕ
  pub status : MonitorStatus
  pub status_reason : Option String
  pub agent_id : Option ℕ

unfoldable pub monitor_dto : Monitor → MonitorDto
monitor_dto monitor = record {
  id = monitor.id;
  name = monitor.name;
  target = monitor.target;
  kind = monitor.kind;
  interval_secs = monitor.interval_secs;
  status = monitor.status;
  status_reason =
      if not (valid_interval_secs monitor.interval_secs)
      then some "invalid stored interval"
      else none;
  agent_id = monitor.agent_id;
}

pub record CheckResultDto : Type 0 where
  pub checked_at : ℕ
  pub success : Bool
  pub latency_ms : ℕ
  pub message : Option String

unfoldable pub check_result_dto : CheckResult → CheckResultDto
check_result_dto result = record {
  checked_at = result.checked_at;
  success = result.success;
  latency_ms = result.latency_ms;
  message = result.message;
}

pub record AgentDto : Type 0 where
  pub id : ℕ
  pub name : String
  pub last_heartbeat_at : ℕ
  pub scope : String
  pub region : Option String

unfoldable pub agent_dto : Agent → AgentDto
agent_dto agent = record {
  id = agent.id;
  name = agent.name;
  last_heartbeat_at = agent.last_heartbeat_at;
  scope = agent.scope;
  region = agent.region;
}

pub record RegisterAgentResponse : Type 0 where
  pub id : ℕ
  pub name : String
  pub scope : String
  pub token : String
  pub region : Option String

unfoldable pub register_agent_response : Agent → RegisterAgentResponse
register_agent_response agent = record {
  id = agent.id;
  name = agent.name;
  scope = agent.scope;
  token = agent.token;
  region = agent.region;
}

pub record AlertEventDto : Type 0 where
  pub id : ℕ
  pub monitor_id : ℕ
  pub transitioned_to : MonitorStatus
  pub occurred_at : ℕ
  pub sinks_attempted : String
  pub delivery_outcome : String

unfoldable pub alert_event_dto : AlertEvent → AlertEventDto
alert_event_dto event = record {
  id = event.id;
  monitor_id = event.monitor_id;
  transitioned_to = event.transitioned_to;
  occurred_at = event.occurred_at;
  sinks_attempted = event.sinks_attempted;
  delivery_outcome = event.delivery_outcome;
}
