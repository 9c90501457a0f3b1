-- ===== src/Storage/Sqlite/Alerts.antt =====
-- The alert events of `SqliteStore`, crates/storage/src/lib.rs.
use monitra.Base.{ℕ, String, List, [], ◌∷◌, ◌++◌, map}
use mathlib.Core.List.{reverse}
use monitra.Models.{AlertEvent}
use monitra.Storage.Codec.{ℤ, as_i64, as_u64, MonitorRow}
use monitra.Storage.Records.{AlertEventRow, alert_event_row, row_to_alert_event}
use monitra.Storage.Rows.{int_Eq, has, select_all, order_by}
use monitra.Storage.Error.{Stored}
use monitra.Storage.Sqlite.{Db, Fault, execute, query_all}

unfoldable pub insert_alert_event : (List ℤ → ℤ) → Fault → Db → AlertEvent → Stored AlertEvent × Db
insert_alert_event rowid fault db event =
    let id = rowid (map AlertEventRow.id db.alert_events) in
    execute fault (has MonitorRow.id (as_i64 event.monitor_id) db.monitors)
      (record event { id = as_u64 id }) db
      (record db { alert_events = db.alert_events ++ alert_event_row id event ∷ [] })

module _ (debug : String → String) where
  unfoldable pub list_alert_events : Fault → Db → ℕ → Stored (List AlertEvent)
  list_alert_events fault db monitor_id = query_all fault (row_to_alert_event debug) (
      order_by AlertEventRow.occurred_at
        (select_all AlertEventRow.monitor_id (as_i64 monitor_id) db.alert_events))

  -- `ORDER BY occurred_at DESC`.
  unfoldable pub list_all_alert_events : Fault → Db → Stored (List AlertEvent)
  list_all_alert_events fault db =
      query_all fault (row_to_alert_event debug)
        (reverse (order_by AlertEventRow.occurred_at db.alert_events))
