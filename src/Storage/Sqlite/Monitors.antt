-- ===== src/Storage/Sqlite/Monitors.antt =====
-- The monitors of `SqliteStore`, crates/storage/src/lib.rs.
use monitra.Base.{
  ℕ, String, Bool, true, false, not, Option, none, some, List, [], ◌∷◌, ◌++◌, map, if◌then◌else◌,
}
use monitra.Models.{Monitor, MonitorStatus, valid_interval_secs}
use monitra.Storage.Codec.{
  ℤ, as_i64, as_u64, monitor_status_to_str, MonitorRow, row_to_monitor, inserted_row, updated_row,
}
use monitra.Storage.Records.{CheckResultRow, AgentRow, AlertEventRow}
use monitra.Storage.Rows.{int_Eq, has, select, update, delete, order_by}
use monitra.Storage.Error.{corrupt_row, Stored, err}
use monitra.Storage.Sqlite.{Db, Fault, execute, execute_on, query_all, query_optional}

abbrev pub interval_error : String
interval_error = "monitor interval_secs must be 1..=86400"

-- What the foreign key of `agent_id` asks.
abbrev pub links : Db → Option ℕ → Bool
links db none = true
links db (some agent_id) = has AgentRow.id (as_i64 agent_id) db.agents

-- `interval_secs.is_some_and(|value| !valid_interval_secs(value))`.
abbrev pub invalid_edit : Option ℕ → Bool
invalid_edit none = false
invalid_edit (some value) = not (valid_interval_secs value)

unfoldable pub insert_monitor : (List ℤ → ℤ) → Fault → Db → Monitor → Stored Monitor × Db
insert_monitor rowid fault db monitor =
    let id = rowid (map MonitorRow.id db.monitors) in
    if valid_interval_secs monitor.interval_secs
    then execute fault (links db monitor.agent_id) (record monitor { id = as_u64 id }) db
        (record db { monitors = db.monitors ++ inserted_row id monitor ∷ [] })
    else (err (corrupt_row interval_error), db)

module _ (debug : String → String) where
  unfoldable pub get_monitor : Fault → Db → ℕ → Stored (Option Monitor)
  get_monitor fault db id =
      query_optional fault (row_to_monitor debug) (select MonitorRow.id (as_i64 id) db.monitors)

  unfoldable pub list_monitors : Fault → Db → Stored (List Monitor)
  list_monitors fault db =
      query_all fault (row_to_monitor debug) (order_by MonitorRow.id db.monitors)

-- What an edit makes of a row.
abbrev pub edit_row : Option String → Option String → Option ℕ → Option ℕ → MonitorRow → MonitorRow
edit_row name target interval_secs agent_id row = updated_row row name target interval_secs agent_id

unfoldable pub update_monitor :
    Fault → Db → ℕ → Option String → Option String → Option ℕ → Option ℕ → Stored (Unit {0}) × Db
update_monitor fault db id name target interval_secs agent_id =
    if invalid_edit interval_secs
    then (err (corrupt_row interval_error), db)
    else execute_on fault "monitor" id (has MonitorRow.id (as_i64 id) db.monitors)
        (links db agent_id) db
        (record db {
          monitors =
              update MonitorRow.id (as_i64 id) (edit_row name target interval_secs agent_id)
                db.monitors;
        })

abbrev pub status_row : MonitorStatus → MonitorRow → MonitorRow
status_row status row = record row { status = monitor_status_to_str status }

unfoldable pub set_monitor_status : Fault → Db → ℕ → MonitorStatus → Stored (Unit {0}) × Db
set_monitor_status fault db id status =
    execute_on fault "monitor" id (has MonitorRow.id (as_i64 id) db.monitors) true db
      (record db { monitors = update MonitorRow.id (as_i64 id) (status_row status) db.monitors })

-- The foreign keys of check_results and alert_events cascade.
unfoldable pub delete_monitor : Fault → Db → ℕ → Stored (Unit {0}) × Db
delete_monitor fault db id =
    execute_on fault "monitor" id (has MonitorRow.id (as_i64 id) db.monitors) true db (record db {
      monitors = delete MonitorRow.id (as_i64 id) db.monitors;
      check_results = delete CheckResultRow.monitor_id (as_i64 id) db.check_results;
      alert_events = delete AlertEventRow.monitor_id (as_i64 id) db.alert_events;
    })
