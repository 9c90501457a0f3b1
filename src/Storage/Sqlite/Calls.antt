-- ===== src/Storage/Sqlite/Calls.antt =====
-- The calls of the `Store` trait that change the tables, as `SqliteStore` of
-- crates/storage/src/lib.rs takes them one after another behind its lock, each with the errors that
-- SQLite meets during it.
use monitra.Base.{ℕ, String, Option, List, [], ◌∷◌}
use monitra.Models.{Monitor, MonitorStatus, Agent, AlertEvent, CheckResult}
use monitra.Storage.Codec.{ℤ}
use monitra.Storage.Sqlite.{Db, Fault, Faults}
use monitra.Storage.Sqlite.Monitors
use monitra.Storage.Sqlite.Results
use monitra.Storage.Sqlite.Agents
use monitra.Storage.Sqlite.Alerts

pub data Call : Type 0 where
  insert_monitor : Fault → Monitor → Call
  update_monitor : Fault → ℕ → Option String → Option String → Option ℕ → Option ℕ → Call
  set_monitor_status : Fault → ℕ → MonitorStatus → Call
  delete_monitor : Fault → ℕ → Call
  insert_check_results : Faults → List CheckResult → Call
  prune_check_results_older_than : Fault → ℕ → ℕ → Call
  upsert_agent : Faults → Agent → Call
  heartbeat_agent : Fault → ℕ → ℕ → Call
  delete_agent : Fault → ℕ → Call
  insert_alert_event : Fault → AlertEvent → Call

module _ (rowid : List ℤ → ℤ) where
  unfoldable pub step : Db → Call → Db
  step db (insert_monitor fault monitor) = (Monitors.insert_monitor rowid fault db monitor).1
  step db (update_monitor fault id name target interval_secs agent_id) =
      (Monitors.update_monitor fault db id name target interval_secs agent_id).1
  step db (set_monitor_status fault id status) = (Monitors.set_monitor_status fault db id status).1
  step db (delete_monitor fault id) = (Monitors.delete_monitor fault db id).1
  step db (insert_check_results faults results) = (Results.insert_check_results faults db results).1
  step db (prune_check_results_older_than fault cutoff limit) =
      (Results.prune_check_results_older_than fault db cutoff limit).1
  step db (upsert_agent faults agent) = (Agents.upsert_agent rowid faults db agent).1
  step db (heartbeat_agent fault id at_unix_secs) =
      (Agents.heartbeat_agent fault db id at_unix_secs).1
  step db (delete_agent fault id) = (Agents.delete_agent fault db id).1
  step db (insert_alert_event fault event) = (Alerts.insert_alert_event rowid fault db event).1

  unfoldable pub run : Db → List Call → Db
  unfolding step
  run db [] = db
  run db (call ∷ calls) = run (step db call) calls
