-- ===== src/Backend/Handlers/Pausing.antt =====
-- A pause and a resumption over the SQLite store.
use monitra.Base.{ℕ, ◌≡◌, refl, sym, ap, ◌∙◌, String, true, none, some, List, arith, is_some}
use monitra.Models.{Monitor, MonitorStatus, pending, paused, valid_interval_secs}
use monitra.Storage.Codec.{ℤ, as_i64, try_u64, MonitorRow, row_to_monitor, assembled, ok as decoded}
use monitra.Storage.Codec.RoundTrip.{status-from-to}
use monitra.Storage.Rows.{int_Eq, select, update}
use monitra.Storage.Rows.Laws.{UniqueKeys, select-has}
use monitra.Storage.Rows.Selection.{select_own-update}
use monitra.Storage.Sqlite.{Db, execute_on}
use monitra.Storage.Sqlite.Monitors.{set_monitor_status, status_row}
use monitra.Storage.Error.{ok as stored_ok}
use monitra.Storage.Sqlite.Provider.{sqlite, blocking}
use monitra.Storage.Sqlite.{run_blocking}
use monitra.Backend.Error.{ok, no_content, ok_with, reply}
use monitra.Backend.Service
use monitra.Backend.Dto.{monitor_dto}
use monitra.Backend.Handlers.{show, pause, resume}
use monitra.Backend.Handlers.OverSqlite.{shown}

module _ (decimal : ℕ → String) (debug : String → String) (rowid : List ℤ → ℤ) where
  status_row-read :
      (row : MonitorRow) (m : Monitor) (status : MonitorStatus)
      → row_to_monitor debug row ≡ decoded m
      → valid_interval_secs (try_u64 row.interval_secs) ≡ true
      → row_to_monitor debug (status_row status row) ≡ decoded (record m { status = status })
  unfolding row_to_monitor assembled
  status_row-read row m status e valid = ground (arith, e, valid, status-from-to debug status)

  with_status : Db → ℕ → MonitorStatus → Db
  with_status db id status = record db {
    monitors = update MonitorRow.id (as_i64 id) (status_row status) db.monitors;
  }

  set-sqlite :
      (db : Db) (id : ℕ) (status : MonitorStatus) (row : MonitorRow)
      → select MonitorRow.id (as_i64 id) db.monitors ≡ some row
      → set_monitor_status none db id status ≡ (stored_ok tt, with_status db id status)
  unfolding set_monitor_status execute_on with_status
  set-sqlite db id status row found =
      ground (arith, sym (select-has MonitorRow.id (as_i64 id) db.monitors) ∙ ap is_some found)

  shown_with_status :
      (db : Db) (id : ℕ) (status : MonitorStatus) (row : MonitorRow) (m : Monitor)
      → UniqueKeys MonitorRow.id db.monitors
      → select MonitorRow.id (as_i64 id) db.monitors ≡ some row
      → row_to_monitor debug row ≡ decoded m
      → valid_interval_secs (try_u64 row.interval_secs) ≡ true
      → show (sqlite decimal debug rowid) (with_status db id status) id
        ≡ ok_with ok (monitor_dto (record m { status = status }))
  unfolding with_status
  shown_with_status db id status row m ids found e valid =
      shown decimal debug rowid _ id (status_row status row) _
        (select_own-update MonitorRow.id (as_i64 id) (status_row status) db.monitors row (λ s. refl)
          ids found)
        (status_row-read row m status e valid)

  -- Where SQLite meets no error of its own, in a table that has no id twice: a pause and a resumption
  -- of a monitor of valid interval are answered with 204; and a request that shows it right after is
  -- answered with the body that it would have been answered with before, but for the status, which is
  -- paused, or pending, whatever it was.
  pub pause-resume-show :
      (db : Db) (id : ℕ) (row : MonitorRow) (m : Monitor)
      → UniqueKeys MonitorRow.id db.monitors
      → select MonitorRow.id (as_i64 id) db.monitors ≡ some row
      → row_to_monitor debug row ≡ decoded m
      → valid_interval_secs (try_u64 row.interval_secs) ≡ true
      → let ops = sqlite decimal debug rowid in
        let shown_before = monitor_dto m in
        (show ops db id ≡ ok_with ok shown_before)
        × ((pause ops db id).0 ≡ ok_with no_content tt)
        × (show ops (pause ops db id).1 id ≡ ok_with ok (record shown_before { status = paused }))
        × ((resume ops db id).0 ≡ ok_with no_content tt)
        × (show ops (resume ops db id).1 id ≡ ok_with ok (record shown_before { status = pending }))
  unfolding monitor_dto pause resume Service.pause_monitor Service.resume_monitor
  pause-resume-show db id row m ids found e valid = (
    shown decimal debug rowid db id row m found e,
    ap (λ ended. ended.0) paused_reply,
    ap (λ ended. show (sqlite decimal debug rowid) ended.1 id) paused_reply
        ∙ shown_with_status db id paused row m ids found e valid,
    ap (λ ended. ended.0) resumed_reply,
    ap (λ ended. show (sqlite decimal debug rowid) ended.1 id) resumed_reply
        ∙ shown_with_status db id pending row m ids found e valid,
  )
    where
      paused_reply :
          pause (sqlite decimal debug rowid) db id
          ≡ (ok_with no_content tt, with_status db id paused)
      paused_reply =
          unfold sqlite blocking run_blocking reply in rw (set-sqlite db id paused row found) refl

      resumed_reply :
          resume (sqlite decimal debug rowid) db id
          ≡ (ok_with no_content tt, with_status db id pending)
      resumed_reply =
          unfold sqlite blocking run_blocking reply in rw (set-sqlite db id pending row found) refl
