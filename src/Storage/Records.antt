-- ===== src/Storage/Records.antt =====
-- The rows of check results, agents and alert events: how crates/storage/src/codec.rs reads them, and
-- the parameters of the statements of lib.rs that write them. A row of check_results is known by its
-- place in the table, since no statement reads its id.
use monitra.Base.{String, Bool, Option}
use monitra.Models.{Agent, AlertEvent, CheckResult, MonitorStatus}
use monitra.Storage.Codec.{
  ℤ, as_i64, as_u64, Decoded, ok, corrupt_row, monitor_status_to_str, monitor_status_from_str,
}

pub record CheckResultRow : Type 0 where
  pub monitor_id : ℤ
  pub checked_at : ℤ
  pub success : Bool
  pub latency_ms : ℤ
  pub message : Option String

pub record AgentRow : Type 0 where
  pub id : ℤ
  pub name : String
  pub last_heartbeat_at : ℤ
  pub scope : String
  pub token : String
  pub region : Option String

pub record AlertEventRow : Type 0 where
  pub id : ℤ
  pub monitor_id : ℤ
  pub transitioned_to : String
  pub occurred_at : ℤ
  pub sinks_attempted : String
  pub delivery_outcome : String

unfoldable pub row_to_check_result : CheckResultRow → Decoded CheckResult
row_to_check_result row = ok (record {
  monitor_id = as_u64 row.monitor_id;
  checked_at = as_u64 row.checked_at;
  success = row.success;
  latency_ms = as_u64 row.latency_ms;
  message = row.message;
})

unfoldable pub row_to_agent : AgentRow → Decoded Agent
row_to_agent row = ok (record {
  id = as_u64 row.id;
  name = row.name;
  last_heartbeat_at = as_u64 row.last_heartbeat_at;
  scope = row.scope;
  token = row.token;
  region = row.region;
})

unfoldable pub alert_event_of : AlertEventRow → Decoded MonitorStatus → Decoded AlertEvent
alert_event_of row (corrupt_row detail) = corrupt_row detail
alert_event_of row (ok transitioned_to) = ok (record {
  id = as_u64 row.id;
  monitor_id = as_u64 row.monitor_id;
  transitioned_to = transitioned_to;
  occurred_at = as_u64 row.occurred_at;
  sinks_attempted = row.sinks_attempted;
  delivery_outcome = row.delivery_outcome;
})

unfoldable pub row_to_alert_event : (String → String) → AlertEventRow → Decoded AlertEvent
unfolding alert_event_of
row_to_alert_event debug row =
    alert_event_of row (monitor_status_from_str debug row.transitioned_to)

unfoldable pub result_row : CheckResult → CheckResultRow
result_row result = record {
  monitor_id = as_i64 result.monitor_id;
  checked_at = as_i64 result.checked_at;
  success = result.success;
  latency_ms = as_i64 result.latency_ms;
  message = result.message;
}

unfoldable pub agent_row : ℤ → Agent → AgentRow
agent_row rowid agent = record {
  id = rowid;
  name = agent.name;
  last_heartbeat_at = as_i64 agent.last_heartbeat_at;
  scope = agent.scope;
  token = agent.token;
  region = agent.region;
}

-- `UPDATE agents SET …` of a repeated registration.
unfoldable pub registered_again : Agent → AgentRow → AgentRow
registered_again agent row = record row {
  last_heartbeat_at = as_i64 agent.last_heartbeat_at;
  scope = agent.scope;
  token = agent.token;
  region = agent.region;
}

unfoldable pub alert_event_row : ℤ → AlertEvent → AlertEventRow
alert_event_row rowid event = record {
  id = rowid;
  monitor_id = as_i64 event.monitor_id;
  transitioned_to = monitor_status_to_str event.transitioned_to;
  occurred_at = as_i64 event.occurred_at;
  sinks_attempted = event.sinks_attempted;
  delivery_outcome = event.delivery_outcome;
}
