-- ===== src/Backend/Service.antt =====
-- crates/backend/src/service.rs: the mutations and queries that the HTTP handlers and the command
-- line share, over any store. The clock and a new token are given.
use monitra.Base.{ℕ, ◌-◌, String, Option, none, some, List, max, if◌then◌else◌}
use monitra.Models.{
  Monitor, MonitorKind, pending, paused, Agent, AlertEvent, CheckResult, valid_interval_secs,
}
use monitra.Provider.Error.{ProviderError, store as store_category, operation}
use monitra.Provider.Cache.{Answer, ok, err}
use monitra.Provider.Store.{Store}

abbrev pub interval_error : ProviderError
interval_error = operation store_category "backend: monitor interval_secs must be 1..=86400"

unfoldable pub check_interval : ℕ → Answer (Unit {0})
check_interval value = if valid_interval_secs value then ok tt else err interval_error

abbrev pub unwrap_or_zero : Option ℕ → ℕ
unwrap_or_zero none = 0
unwrap_or_zero (some value) = value

unfoldable pub retained_since : ℕ → Option ℕ → ℕ → ℕ
retained_since now_unix_secs since retention_secs =
    max (unwrap_or_zero since) (now_unix_secs - retention_secs)

-- `?` before a call: where the check fails the store is not called.
unfoldable pub checked {ℓ} :
    {A : Type ℓ} {S : Type 0} → Answer (Unit {0}) → S → Answer A × S → Answer A × S
checked (err error) s call = (err error, s)
checked (ok done) s call = call

abbrev pub check_edit : Option ℕ → Answer (Unit {0})
check_edit none = ok tt
check_edit (some value) = check_interval value

module _ {S : Type 0} (ops : Store S) where
  unfoldable pub add_monitor : S → String → String → MonitorKind → ℕ → Option ℕ → Answer Monitor × S
  unfolding checked check_interval
  add_monitor s name target kind interval_secs agent_id = checked (check_interval interval_secs) s (
      ops.insert_monitor s (record {
        id = 0;
        name = name;
        target = target;
        kind = kind;
        interval_secs = interval_secs;
        status = pending;
        agent_id = agent_id;
      }))

  unfoldable pub list_monitors : S → Answer (List Monitor)
  list_monitors s = ops.list_monitors s

  unfoldable pub get_monitor : S → ℕ → Answer (Option Monitor)
  get_monitor s id = ops.get_monitor s id

  unfoldable pub edit_monitor :
      S → ℕ → Option String → Option String → Option ℕ → Option ℕ → Answer (Unit {0}) × S
  unfolding checked check_interval
  edit_monitor s id name target interval_secs agent_id =
      checked (check_edit interval_secs) s
        (ops.update_monitor s id name target interval_secs agent_id)

  unfoldable pub remove_monitor : S → ℕ → Answer (Unit {0}) × S
  remove_monitor s id = ops.delete_monitor s id

  unfoldable pub pause_monitor : S → ℕ → Answer (Unit {0}) × S
  pause_monitor s id = ops.set_monitor_status s id paused

  unfoldable pub resume_monitor : S → ℕ → Answer (Unit {0}) × S
  resume_monitor s id = ops.set_monitor_status s id pending

  unfoldable pub register_agent :
      S → ℕ → String → String → String → Option String → Answer Agent × S
  register_agent s now_unix_secs token name scope region = ops.upsert_agent s (record {
    id = 0;
    name = name;
    last_heartbeat_at = now_unix_secs;
    scope = scope;
    token = token;
    region = region;
  })

  unfoldable pub list_agents : S → Answer (List Agent)
  list_agents s = ops.list_agents s

  unfoldable pub remove_agent : S → ℕ → Answer (Unit {0}) × S
  remove_agent s id = ops.delete_agent s id

  unfoldable pub monitor_history : S → ℕ → Option ℕ → Answer (List CheckResult)
  monitor_history s id since = ops.list_check_results s id since

  unfoldable pub list_all_alert_events : S → Answer (List AlertEvent)
  list_all_alert_events s = ops.list_all_alert_events s
