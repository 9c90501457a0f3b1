-- ===== src/Storage/Sqlite/Integrity/OfRecords.antt =====
-- The constraints under the calls on check results and alert events.
use monitra.Base.{ℕ, true, List, [], ◌∷◌, All, All-append, arith, suc, zero, min}
use monitra.Models.{AlertEvent, CheckResult}
use monitra.Storage.Codec.{ℤ, as_i64}
use monitra.Storage.Records.{CheckResultRow, result_row, alert_event_row}
use monitra.Base.Eq.{string_Eq}
use monitra.Storage.Rows.{int_Eq}
use monitra.Storage.Error.{Stored, ok, err}
use monitra.Storage.Sqlite.{Db, Fault, Faults}
use monitra.Storage.Sqlite.Results
use monitra.Storage.Sqlite.Alerts
use monitra.Storage.Sqlite.Integrity.{
  IsConsistent, Owned, Fresh, execute-IsConsistent, transaction-IsConsistent,
}

module _ (rowid : List ℤ → ℤ) (fresh : Fresh rowid) where
  pub insert_alert_event-IsConsistent :
      (fault : Fault) (db : Db) (event : AlertEvent)
      → IsConsistent db
      → IsConsistent (Alerts.insert_alert_event rowid fault db event).1
  unfolding Alerts.insert_alert_event alert_event_row
  insert_alert_event-IsConsistent fault db event c =
      execute-IsConsistent fault _ _ db _ c λ allowed. record {
        monitor_ids = c.monitor_ids;
        agent_ids = c.agent_ids;
        agent_names = c.agent_names;
        linked = c.linked;
        results = c.results;
        alerts =
            All-append (λ row. Owned db.monitors row.monitor_id) db.alert_events (_ ∷ []) c.alerts
              (allowed, tt);
      }

insert_check_result-IsConsistent :
    (fault : Fault) (db : Db) (result : CheckResult)
    → IsConsistent db
    → IsConsistent (Results.insert_check_result fault db result).1
unfolding Results.insert_check_result result_row
insert_check_result-IsConsistent fault db result c =
    execute-IsConsistent fault _ _ db _ c λ allowed. record {
      monitor_ids = c.monitor_ids;
      agent_ids = c.agent_ids;
      agent_names = c.agent_names;
      linked = c.linked;
      results =
          All-append (λ row. Owned db.monitors row.monitor_id) db.check_results (_ ∷ []) c.results
            (allowed, tt);
      alerts = c.alerts;
    }

and_then-IsConsistent :
    (answer : Stored (Unit {0}) × Db) (next : Db → Stored (Unit {0}) × Db)
    → IsConsistent answer.1
    → ((db : Db) → IsConsistent db → IsConsistent (next db).1)
    → IsConsistent (Results.and_then answer next).1
unfolding Results.and_then
and_then-IsConsistent (ok _, db) next c step = step db c
and_then-IsConsistent (err error, db) next c step = c

insert_each-IsConsistent :
    (fault : ℕ → Fault) (db : Db) (results : List CheckResult)
    → IsConsistent db
    → IsConsistent (Results.insert_each fault db results).1
unfolding Results.insert_each
insert_each-IsConsistent fault db [] c = c
insert_each-IsConsistent fault db (result ∷ results) c =
    and_then-IsConsistent (Results.insert_check_result (fault 0) db result) _
      (insert_check_result-IsConsistent (fault 0) db result c)
      (λ db'. insert_each-IsConsistent (λ n. fault (suc n)) db' results)

pub insert_check_results-IsConsistent :
    (faults : Faults) (db : Db) (results : List CheckResult)
    → IsConsistent db
    → IsConsistent (Results.insert_check_results faults db results).1
unfolding Results.insert_check_results
insert_check_results-IsConsistent faults db results c =
    transaction-IsConsistent faults db _ c (insert_each-IsConsistent faults.statement db results c)

delete_older-All :
    (P : CheckResultRow → Type 0) (limit : ℕ) (cutoff : ℤ) (rows : List CheckResultRow)
    → All P rows
    → All P (Results.delete_older limit cutoff rows)
unfolding Results.delete_older
delete_older-All P zero cutoff rows h = h
delete_older-All P (suc limit) cutoff [] h = h
delete_older-All P (suc limit) cutoff (row ∷ rows) h = ground (
  arith,
  delete_older-All P limit cutoff rows h.1,
  delete_older-All P (suc limit) cutoff rows h.1,
)

pub prune-IsConsistent :
    (fault : Fault) (db : Db) (cutoff limit : ℕ)
    → IsConsistent db
    → IsConsistent (Results.prune_check_results_older_than fault db cutoff limit).1
unfolding Results.prune_check_results_older_than
prune-IsConsistent fault db cutoff limit c = execute-IsConsistent fault true _ db _ c λ allowed.
    record {
      monitor_ids = c.monitor_ids;
      agent_ids = c.agent_ids;
      agent_names = c.agent_names;
      linked = c.linked;
      results = delete_older-All _ (min limit 10000) (as_i64 cutoff) db.check_results c.results;
      alerts = c.alerts;
    }
