-- ===== src/Backend/Handlers/Tests.antt =====
-- Instances of the theorems on the handlers, over a store with one monitor.
use monitra.Base.{ℕ, ◌≡◌, refl, String, none, some, List, [], ◌∷◌, arith}
use monitra.Models.{Monitor, http, pending, paused, up}
use monitra.Storage.Codec.{
  ℤ, pos, MonitorRow, row_to_monitor, assembled, monitor_kind_from_str, monitor_status_from_str,
}
use monitra.Storage.Rows.{int_Eq, has, select}
use monitra.Storage.Sqlite.{Db}
use monitra.Storage.Sqlite.Provider.{sqlite}
use monitra.Backend.Error.{ok_with, status_of, not_found_404, ok, created, no_content}
use monitra.Backend.Dto.{monitor_dto}
use monitra.Backend.Handlers.{create, show, remove, pause, resume, edit}
use monitra.Backend.Handlers.OverSqlite.{Missing, fresh_body, absent-Missing, create-show}
use monitra.Backend.Handlers.Pausing.{pause-resume-show}

abbrev decimal : ℕ → String
decimal n = "n"

abbrev debug : String → String
debug s = s

abbrev rowid : List ℤ → ℤ
rowid [] = pos 1
rowid (k ∷ used) = pos 5

abbrev row : MonitorRow
row = record {
  id = pos 4;
  name = "site";
  target = "https://h";
  kind = "http";
  interval_secs = pos 60;
  status = "up";
  agent_id = none;
}

abbrev site : Monitor
site = record {
  id = 4;
  name = "site";
  target = "https://h";
  kind = http;
  interval_secs = 60;
  status = up;
  agent_id = none;
}

abbrev db : Db
db = record { monitors = row ∷ []; check_results = []; agents = []; alert_events = [] }

absent-Missing_example :
    (status_of decimal (show (sqlite decimal debug rowid) db 9) ≡ not_found_404)
    × Missing decimal debug rowid db (remove (sqlite decimal debug rowid) db 9)
    × Missing decimal debug rowid db (pause (sqlite decimal debug rowid) db 9)
    × Missing decimal debug rowid db (resume (sqlite decimal debug rowid) db 9)
    × Missing decimal debug rowid db
        (edit {Value = ℕ} some (sqlite decimal debug rowid) db 9 none (some "https://n") none none)
unfolding has
absent-Missing_example = absent-Missing decimal debug rowid db 9 none (some "https://n") none refl

create-show_example :
    let body = fresh_body "new" "https://n" http 30 none 5 in
    let made =
      create {Value = ℕ} some
        (sqlite decimal debug rowid)
        db
        "new"
        "https://n"
        http
        (some 30)
        none in
    (made.0 ≡ ok_with created body) × (show (sqlite decimal debug rowid) made.1 5 ≡ ok_with ok body)
unfolding has
create-show_example =
    create-show decimal debug rowid db "new" "https://n" http 30 none 5 refl refl tt (omega arith)
      refl refl

pause-resume-show_example :
    let ops = sqlite decimal debug rowid in
    (show ops db 4 ≡ ok_with ok (monitor_dto site))
    × ((pause ops db 4).0 ≡ ok_with no_content tt)
    × (show ops (pause ops db 4).1 4 ≡ ok_with ok (record (monitor_dto site) { status = paused }))
    × ((resume ops db 4).0 ≡ ok_with no_content tt)
    × (show ops (resume ops db 4).1 4 ≡ ok_with ok (record (monitor_dto site) { status = pending }))
unfolding has select row_to_monitor assembled monitor_kind_from_str monitor_status_from_str
pause-resume-show_example =
    pause-resume-show decimal debug rowid db 4 row site (refl, tt) refl refl refl
