-- ===== src/Storage/Sqlite/Results.antt =====
-- The check results of `SqliteStore`, crates/storage/src/lib.rs.
use monitra.Base.{
  ℕ, suc, zero, Bool, true, not, Option, none, some, List, [], ◌∷◌, ◌++◌, min, length, filter,
  if◌then◌else◌,
}
use monitra.Models.{CheckResult}
use monitra.Storage.Codec.{ℤ, as_i64, MonitorRow}
use monitra.Storage.Records.{CheckResultRow, result_row, row_to_check_result}
use monitra.Storage.Rows.{int_Eq, has, select_all, order_by, int_leb}
use monitra.Storage.Error.{Stored, ok, err, query_failed}
use monitra.Storage.Sqlite.{Db, Fault, Faults, execute, transaction, query_all}

-- One `INSERT` of the batch.
unfoldable pub insert_check_result : Fault → Db → CheckResult → Stored (Unit {0}) × Db
insert_check_result fault db result =
    execute fault (has MonitorRow.id (as_i64 result.monitor_id) db.monitors) tt db
      (record db { check_results = db.check_results ++ result_row result ∷ [] })

-- `?` after a statement.
unfoldable pub and_then :
    Stored (Unit {0}) × Db → (Db → Stored (Unit {0}) × Db) → Stored (Unit {0}) × Db
and_then (ok _, db) next = next db
and_then (err error, db) next = (err error, db)

-- The loop over the batch.
unfoldable pub insert_each : (ℕ → Fault) → Db → List CheckResult → Stored (Unit {0}) × Db
unfolding insert_check_result and_then
insert_each fault db [] = (ok tt, db)
insert_each fault db (result ∷ results) =
    and_then (insert_check_result (fault 0) db result)
      (λ db'. insert_each (λ n. fault (suc n)) db' results)

unfoldable pub insert_check_results : Faults → Db → List CheckResult → Stored (Unit {0}) × Db
unfolding insert_each transaction
insert_check_results faults db results =
    transaction faults db (insert_each faults.statement db results)

abbrev pub unwrap_or_zero : Option ℕ → ℕ
unwrap_or_zero none = 0
unwrap_or_zero (some since) = since

unfoldable pub list_check_results : Fault → Db → ℕ → Option ℕ → Stored (List CheckResult)
list_check_results fault db monitor_id since = query_all fault row_to_check_result (
    order_by CheckResultRow.checked_at (
      filter (λ row. int_leb (as_i64 (unwrap_or_zero since)) row.checked_at)
        (select_all CheckResultRow.monitor_id (as_i64 monitor_id) db.check_results)))

-- `checked_at < ?1`.
abbrev pub older : ℤ → CheckResultRow → Bool
older cutoff row = not (int_leb cutoff row.checked_at)

-- The table without the first rows that the subquery selects, at most `limit`.
unfoldable pub delete_older : ℕ → ℤ → List CheckResultRow → List CheckResultRow
delete_older zero cutoff rows = rows
delete_older (suc limit) cutoff [] = []
delete_older (suc limit) cutoff (row ∷ rows) =
    let deleted = delete_older limit cutoff rows in
    let kept = delete_older (suc limit) cutoff rows in
    if older cutoff row then deleted else row ∷ kept

-- `SELECT COUNT(*)`, of those that the subquery selects.
unfoldable pub count_older : ℤ → List CheckResultRow → ℕ
count_older cutoff rows = length (filter (older cutoff) rows)

unfoldable pub prune_check_results_older_than : Fault → Db → ℕ → ℕ → Stored ℕ × Db
unfolding delete_older count_older
prune_check_results_older_than fault db cutoff limit =
    let cutoff' = as_i64 cutoff in
    let limit' = min limit 10000 in
    execute fault true (min limit' (count_older cutoff' db.check_results)) db
      (record db { check_results = delete_older limit' cutoff' db.check_results })

unfoldable pub count_prunable_check_results : Fault → Db → ℕ → ℕ → Stored ℕ
unfolding count_older
count_prunable_check_results (some source) db cutoff cap = err (query_failed source)
count_prunable_check_results none db cutoff cap =
    ok (min (min cap 1000000) (count_older (as_i64 cutoff) db.check_results))
