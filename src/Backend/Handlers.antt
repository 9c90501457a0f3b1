-- ===== src/Backend/Handlers.antt =====
-- The handlers of crates/backend/src/monitors.rs, agents.rs and alerts.rs, over any
-- store. A JSON value is what `Value::as_u64` tells of it, a parameter; the clock and a new token are
-- given.
pub mod OverSqlite
pub mod Pausing
mod Tests
use monitra.Base.{
  ℕ, String, Bool, true, false, not, ◌&&◌, ◌==◌, Option, none, some, List, map, if◌then◌else◌,
}
use monitra.Models.{
  Monitor, MonitorKind, MonitorStatus, Agent, CheckResult, AlertEvent, valid_interval_secs,
}
use monitra.Provider.Cache.{Answer}
use monitra.Provider.Cache
use monitra.Provider.Store.{Store}
use monitra.Engine.Assignments.{Assignment, AssignmentHandle, drain}
use monitra.Backend.Service
use monitra.Backend.Dto.{
  MonitorDto, monitor_dto, CheckResultDto, check_result_dto, AgentDto, agent_dto,
  RegisterAgentResponse, register_agent_response, AlertEventDto, alert_event_dto,
}
use monitra.Backend.Error.{
  ApiError, not_found, validation, StatusCode, ok, created, no_content, Reply, ok_with, error,
  reply,
}

abbrev pub interval_message : String
interval_message = "backend: monitor interval_secs must be 1..=86400"

-- `Result<_, ApiError>`.
pub data Parsed {ℓ} (A : Type ℓ) : Type ℓ where
  parsed : A → Parsed A
  invalid : ApiError → Parsed A

-- `parse_interval`, of the number that the JSON value is, if it is one.
unfoldable pub parse_interval : Option ℕ → Parsed ℕ
parse_interval none = invalid (validation interval_message)
parse_interval (some seconds) =
    if valid_interval_secs seconds then parsed seconds else invalid (validation interval_message)

module _ {Value : Type 0} (as_u64 : Value → Option ℕ) where
  abbrev pub and_then_u64 : Option Value → Option ℕ
  and_then_u64 none = none
  and_then_u64 (some value) = as_u64 value

  -- `.map(|value| parse_interval(Some(value))).transpose()`.
  unfoldable pub parse_edit : Option Value → Parsed (Option ℕ)
  unfolding parse_interval
  parse_edit none = parsed none
  parse_edit (some value) = elim (parse_interval (as_u64 value)) [
    | invalid e ↦ invalid e
    | parsed seconds ↦ parsed (some seconds)
  ]

  module _ {S : Type 0} (ops : Store S) where
    unfoldable pub create :
        S → String → String → MonitorKind → Option Value → Option ℕ → Reply MonitorDto × S
    unfolding parse_interval reply
    create s name target kind interval_secs agent_id =
        elim (parse_interval (and_then_u64 interval_secs)) [
          | invalid e ↦ (error e, s)
          | parsed seconds ↦
              let (answer, s') = Service.add_monitor ops s name target kind seconds agent_id in
              (reply created monitor_dto answer, s')
        ]

    unfoldable pub edit :
        S → ℕ → Option String → Option String → Option Value → Option ℕ → Reply (Unit {0}) × S
    unfolding parse_edit reply
    edit s id name target interval_secs agent_id = elim (parse_edit interval_secs) [
      | invalid e ↦ (error e, s)
      | parsed seconds ↦
          let (answer, s') = Service.edit_monitor ops s id name target seconds agent_id in
          (reply no_content (λ done. done) answer, s')
    ]

-- `.ok_or(ApiError::NotFound)?`.
unfoldable pub or_not_found : Reply (Option Monitor) → Reply MonitorDto
unfolding monitor_dto
or_not_found (ok_with status (some monitor)) = ok_with status (monitor_dto monitor)
or_not_found (ok_with status none) = error not_found
or_not_found (error e) = error e

module _ {S : Type 0} (ops : Store S) where
  unfoldable pub list : S → Reply (List MonitorDto)
  unfolding reply monitor_dto
  list s = reply ok (map monitor_dto) (Service.list_monitors ops s)

  unfoldable pub show : S → ℕ → Reply MonitorDto
  unfolding reply or_not_found
  show s id = or_not_found (reply ok (λ found. found) (Service.get_monitor ops s id))

  unfoldable pub remove : S → ℕ → Reply (Unit {0}) × S
  unfolding reply
  remove s id =
      let (answer, s') = Service.remove_monitor ops s id in
      (reply no_content (λ done. done) answer, s')

  unfoldable pub pause : S → ℕ → Reply (Unit {0}) × S
  unfolding reply
  pause s id =
      let (answer, s') = Service.pause_monitor ops s id in
      (reply no_content (λ done. done) answer, s')

  unfoldable pub resume : S → ℕ → Reply (Unit {0}) × S
  unfolding reply
  resume s id =
      let (answer, s') = Service.resume_monitor ops s id in
      (reply no_content (λ done. done) answer, s')

  unfoldable pub history : S → ℕ → ℕ → ℕ → Option ℕ → Reply (List CheckResultDto)
  unfolding reply check_result_dto
  history s retention_secs now_unix_secs id since = reply ok (map check_result_dto) (
      Service.monitor_history ops s id
        (some (Service.retained_since now_unix_secs since retention_secs)))

  unfoldable pub register :
      S → ℕ → String → String → String → Option String → Reply RegisterAgentResponse × S
  unfolding reply register_agent_response
  register s now_unix_secs token name scope region =
      let (answer, s') = Service.register_agent ops s now_unix_secs token name scope region in
      (reply created register_agent_response answer, s')

  unfoldable pub list_agents : S → Reply (List AgentDto)
  unfolding reply agent_dto
  list_agents s = reply ok (map agent_dto) (Service.list_agents ops s)

  unfoldable pub remove_agent : S → ℕ → Reply (Unit {0}) × S
  unfolding reply
  remove_agent s id =
      let (answer, s') = Service.remove_agent ops s id in
      (reply no_content (λ done. done) answer, s')

  unfoldable pub list_alerts : S → Reply (List AlertEventDto)
  unfolding reply alert_event_dto
  list_alerts s = reply ok (map alert_event_dto) (Service.list_all_alert_events ops s)
