-- ===== src/Storage/Sqlite/Removal.antt =====
-- What the removal of a monitor leaves: its own rows go, with the results and the alert events that
-- refer to it, and no other's.
use monitra.Base.{ℕ, ◌≡◌, refl, Bool, true, false, none, [], if◌then◌else◌}
use monitra.Storage.Codec.{ℤ, as_i64, MonitorRow}
use monitra.Storage.Records.{CheckResultRow, AlertEventRow}
use monitra.Storage.Rows.{int_Eq, int_eq, has, select, select_all, delete}
use monitra.Storage.Rows.Selection.{select-delete, select_all-delete}
use monitra.Storage.Error.{Stored, ok, err, not_found}
use monitra.Storage.Sqlite.{Db, execute_on}
use monitra.Storage.Sqlite.Monitors.{delete_monitor}

-- The rows of a key, or none where it was removed.
abbrev pub Removed : ℤ → Db → Db → Type 0
Removed id before after =
    (k : ℤ)
    → (select MonitorRow.id k after.monitors
        ≡ (if int_eq id k then none else select MonitorRow.id k before.monitors))
      × (select_all CheckResultRow.monitor_id k after.check_results ≡ (
          if int_eq id k then [] else select_all CheckResultRow.monitor_id k before.check_results))
      × (select_all AlertEventRow.monitor_id k after.alert_events
          ≡ (if int_eq id k then [] else select_all AlertEventRow.monitor_id k before.alert_events))

-- Whether the monitor was there: the removal of one that was not is an error and changes nothing.
abbrev pub Deleted : Db → ℕ → Bool → Stored (Unit {0}) × Db → Type 0
Deleted db id true ended = (ended.0 ≡ ok tt) × Removed (as_i64 id) db ended.1
Deleted db id false ended = ended ≡ (err (not_found "monitor" id), db)

abbrev removed_from : Db → ℤ → Db
removed_from db id = record db {
  monitors = delete MonitorRow.id id db.monitors;
  check_results = delete CheckResultRow.monitor_id id db.check_results;
  alert_events = delete AlertEventRow.monitor_id id db.alert_events;
}

execute_on-Deleted :
    (db : Db) (id : ℕ) (found : Bool)
    → Deleted db id found (execute_on none "monitor" id found true db (removed_from db (as_i64 id)))
unfolding execute_on
execute_on-Deleted db id false = refl
execute_on-Deleted db id true = (
  refl,
  λ k. (
    select-delete MonitorRow.id (as_i64 id) k db.monitors,
    select_all-delete CheckResultRow.monitor_id (as_i64 id) k db.check_results,
    select_all-delete AlertEventRow.monitor_id (as_i64 id) k db.alert_events,
  ),
)

-- A removal where SQLite meets no error of its own: a monitor that is not there is an error, and
-- nothing changes; one that is there goes with its results and its alert events, and the rows of
-- every other monitor stay as they are.
pub delete_monitor_lem :
    (db : Db) (id : ℕ)
    → Deleted db id (has MonitorRow.id (as_i64 id) db.monitors) (delete_monitor none db id)
unfolding delete_monitor
delete_monitor_lem db id = execute_on-Deleted db id (has MonitorRow.id (as_i64 id) db.monitors)
