-- ===== src/Storage/Sqlite/Batch.antt =====
-- A batch of check results is one transaction: what is in the table after it, and after all the
-- batches of the writer of crates/engine/src/writer.rs.
use monitra.Base.{
  ℕ, suc, ◌≡◌, refl, sym, ap, ◌∙◌, ◌⊎◌, inl, inr, Bool, true, false, ◌&&◌, none, some, List, [],
  ◌∷◌, ◌++◌, map, append-nil, append_assoc, arith, if◌then◌else◌, Bool-cases,
}
use monitra.Models.{CheckResult}
use monitra.Storage.Codec.{as_i64, MonitorRow}
use monitra.Storage.Records.{result_row}
use monitra.Storage.Rows.{int_Eq, has}
use monitra.Storage.Error.{StorageError, query_failed, Stored, ok, err}
use monitra.Storage.Sqlite.{Db, Fault, Faults, execute, transaction, foreign_key_failed}
use monitra.Storage.Sqlite.Results.{
  insert_check_result, and_then, insert_each, insert_check_results,
}

-- Whether the monitor of each result is there.
abbrev pub all_owned : List MonitorRow → List CheckResult → Bool
all_owned monitors [] = true
all_owned monitors (result ∷ results) =
    has MonitorRow.id (as_i64 result.monitor_id) monitors && all_owned monitors results

-- The tables with the results added, in their order.
abbrev pub with_results : Db → List CheckResult → Db
with_results db results = record db { check_results = db.check_results ++ map result_row results }

with_results-cons :
    (db : Db) (result : CheckResult) (results : List CheckResult)
    → with_results (with_results db (result ∷ [])) results ≡ with_results db (result ∷ results)
with_results-cons db result results =
    ap (λ rows. record db { check_results = rows })
      (append_assoc db.check_results (result_row result ∷ []) (map result_row results))

abbrev pub Inserted : Db → List CheckResult → Stored (Unit {0}) × Db → Type 0
Inserted db results (ok _, after) =
    (after ≡ with_results db results) × (all_owned db.monitors results ≡ true)
Inserted db results (err _, after) = Unit

Inserted-cons :
    (db : Db) (result : CheckResult) (results : List CheckResult) (ended : Stored (Unit {0}) × Db)
    → has MonitorRow.id (as_i64 result.monitor_id) db.monitors ≡ true
    → Inserted (with_results db (result ∷ [])) results ended
    → Inserted db (result ∷ results) ended
Inserted-cons db result results (ok _, after) owned (same, all) =
    (same ∙ with_results-cons db result results, ground (arith, owned, all))
Inserted-cons db result results (err _, after) owned h = tt

insert_check_result-cases :
    (fault : Fault) (db : Db) (result : CheckResult)
    → ((has MonitorRow.id (as_i64 result.monitor_id) db.monitors ≡ true)
        × (insert_check_result fault db result ≡ (ok tt, with_results db (result ∷ []))))
      ⊎ ((error : StorageError) × (insert_check_result fault db result ≡ (err error, db)))
unfolding insert_check_result execute
insert_check_result-cases (some source) db result = inr (query_failed source, refl)
insert_check_result-cases none db result =
    elim (Bool-cases (has MonitorRow.id (as_i64 result.monitor_id) db.monitors)) [
      | inl owned ↦ inl (owned, rw owned refl)
      | inr orphan ↦ inr (query_failed foreign_key_failed, rw orphan refl)
    ]

insert_each-Inserted :
    (fault : ℕ → Fault) (db : Db) (results : List CheckResult)
    → Inserted db results (insert_each fault db results)
unfolding insert_each and_then
insert_each-Inserted fault db [] =
    (ap (λ rows. record db { check_results = rows }) (sym (append-nil db.check_results)), refl)
insert_each-Inserted fault db (result ∷ results) =
    elim (insert_check_result-cases (fault 0) db result) [
      | inl (owned, e) ↦ rw e (
          Inserted-cons db result results _ owned
            (insert_each-Inserted (λ n. fault (suc n)) (with_results db (result ∷ [])) results))
      | inr (error, e) ↦ rw e tt
    ]

-- All or nothing.
abbrev pub AllOrNothing : Db → List CheckResult → Stored (Unit {0}) × Db → Type 0
AllOrNothing db results (ok _, after) =
    (after ≡ with_results db results) × (all_owned db.monitors results ≡ true)
AllOrNothing db results (err _, after) = after ≡ db

transaction-AllOrNothing :
    (faults : Faults) (db : Db) (results : List CheckResult) (body : Stored (Unit {0}) × Db)
    → Inserted db results body
    → AllOrNothing db results (transaction faults db body)
unfolding transaction
transaction-AllOrNothing faults db results (err error, after) h = ground arith
transaction-AllOrNothing faults db results (ok done, after) h = ground (arith, h.0, h.1)

-- Whatever errors SQLite meets, and wherever: a batch that the store takes is in the table entirely,
-- in order, and the monitor of each of its results is there; and after one that it does not take
-- the tables are as they were.
pub insert_check_results-AllOrNothing :
    (faults : Faults) (db : Db) (results : List CheckResult)
    → AllOrNothing db results (insert_check_results faults db results)
unfolding insert_check_results
insert_check_results-AllOrNothing faults db results =
    transaction-AllOrNothing faults db results (insert_each faults.statement db results)
      (insert_each-Inserted faults.statement db results)

-- SQLite meets no error of its own.
abbrev pub quiet : Faults
quiet = record { begin = none; statement = λ n. none; commit = none }

insert_check_result_quiet :
    (db : Db) (result : CheckResult) (owned : Bool)
    → has MonitorRow.id (as_i64 result.monitor_id) db.monitors ≡ owned
    → insert_check_result none db result ≡ (
        if owned
        then (ok tt, with_results db (result ∷ []))
        else (err (query_failed foreign_key_failed), db))
unfolding insert_check_result execute
insert_check_result_quiet db result true e = rw e refl
insert_check_result_quiet db result false e = rw e refl

insert_each_quiet :
    (db : Db) (results : List CheckResult)
    → (insert_each (λ n. none) db results).0
      ≡ (if all_owned db.monitors results then ok tt else err (query_failed foreign_key_failed))
unfolding insert_each and_then
insert_each_quiet db [] = refl
insert_each_quiet db (result ∷ results) =
    elim (Bool-cases (has MonitorRow.id (as_i64 result.monitor_id) db.monitors)) [
      | inl owned ↦ rw (insert_check_result_quiet db result true owned) (
          insert_each_quiet (with_results db (result ∷ [])) results
          ∙ ap shown (sym (ap (λ b. b && all_owned db.monitors results) owned)))
      | inr orphan ↦
          rw (insert_check_result_quiet db result false orphan)
            (ap shown (sym (ap (λ b. b && all_owned db.monitors results) orphan)))
    ]
  where
    shown : Bool → Stored (Unit {0})
    shown b = if b then ok tt else err (query_failed foreign_key_failed)

-- What a batch comes to where SQLite meets no error: one result whose monitor is not there, and
-- nothing of the batch is kept.
abbrev pub batch_outcome : Db → List CheckResult → Stored (Unit {0}) × Db
batch_outcome db results =
    if all_owned db.monitors results
    then (ok tt, with_results db results)
    else (err (query_failed foreign_key_failed), db)

quiet-transaction :
    (db : Db) (results : List CheckResult) (body : Stored (Unit {0}) × Db)
    → Inserted db results body
    → body.0
      ≡ (if all_owned db.monitors results then ok tt else err (query_failed foreign_key_failed))
    → transaction quiet db body ≡ batch_outcome db results
unfolding transaction
quiet-transaction db results (ok _, after) (same, owned) e = ground (arith, same, owned)
quiet-transaction db results (err error, after) h e = ground (arith, e)

-- Where SQLite meets no error of its own, a batch is stored exactly if the monitor of each of its
-- results is there; otherwise nothing of it is.
pub insert_check_results-quiet :
    (db : Db) (results : List CheckResult)
    → insert_check_results quiet db results ≡ batch_outcome db results
unfolding insert_check_results
insert_check_results-quiet db results =
    quiet-transaction db results (insert_each (λ n. none) db results)
      (insert_each-Inserted (λ n. none) db results) (insert_each_quiet db results)
