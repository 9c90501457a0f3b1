-- ===== src/Storage/Sqlite.antt =====
-- `SqliteStore` of crates/storage/src/lib.rs over the tables of migrations.rs: how a statement, a
-- query and a transaction end. SQLite is a parameter where it is not told by the statement: the id
-- that a new row gets, and the errors of its own, one `Fault` for each statement. The connection is
-- behind a lock, so that one call is one step.
pub mod Monitors
pub mod Results
pub mod Agents
pub mod Alerts
pub mod Calls
pub mod Integrity
pub mod Registration
pub mod Removal
mod Tests
pub mod Provider
pub mod Pruning
pub mod Writing
pub mod Batch
pub mod History
use monitra.Base.{ℕ, ◌+◌, suc, String, Bool, true, false, Option, none, some, List, [], ◌∷◌}
use monitra.Provider.Cache.{Answer, ok as answered, err as refused}
use monitra.Storage.Codec.{MonitorRow, Decoded, ok as decoded, corrupt_row as undecoded}
use monitra.Storage.Records.{CheckResultRow, AgentRow, AlertEventRow}
use monitra.Storage.Error.{
  StorageError, query_failed, corrupt_row, not_found, Stored, ok, err, into,
}

pub record Db : Type 0 where
  pub monitors : List MonitorRow
  pub check_results : List CheckResultRow
  pub agents : List AgentRow
  pub alert_events : List AlertEventRow

-- After the migrations of a new file.
abbrev pub empty : Db
empty = record { monitors = []; check_results = []; agents = []; alert_events = [] }

-- The error of SQLite's own that a statement meets, if it meets one.
abbrev pub Fault : Type 0
Fault = Option String

abbrev pub foreign_key_failed : String
foreign_key_failed = "FOREIGN KEY constraint failed"

-- `execute`, of a statement that the foreign keys may refuse; what is refused changes nothing.
unfoldable pub execute {ℓ} : {A : Type ℓ} → Fault → Bool → A → Db → Db → Stored A × Db
execute (some source) allowed value before after = (err (query_failed source), before)
execute none false value before after = (err (query_failed foreign_key_failed), before)
execute none true value before after = (ok value, after)

-- `execute`, and an error if `changed == 0`.
unfoldable pub execute_on : Fault → String → ℕ → Bool → Bool → Db → Db → Stored (Unit {0}) × Db
execute_on (some source) entity id found allowed before after = (err (query_failed source), before)
execute_on none entity id false allowed before after = (err (not_found entity id), before)
execute_on none entity id true false before after = (err (query_failed foreign_key_failed), before)
execute_on none entity id true true before after = (ok tt, after)

-- The errors of a transaction: at its start, at each statement in it, at its commit.
pub record Faults : Type 0 where
  pub begin : Fault
  pub statement : ℕ → Fault
  pub commit : Fault

-- A transaction that is dropped is rolled back.
unfoldable pub transaction {ℓ} : {A : Type ℓ} → Faults → Db → Stored A × Db → Stored A × Db
transaction faults before (err error, after) = elim faults.begin [
  | some source ↦ (err (query_failed source), before)
  | none ↦ (err error, before)
]
transaction faults before (ok value, after) = elim faults.begin [
  | some source ↦ (err (query_failed source), before)
  | none ↦ elim faults.commit [
    | some source ↦ (err (query_failed source), before)
    | none ↦ (ok value, after)
  ]
]

unfoldable pub stored {ℓ} : {A : Type ℓ} → Decoded A → Stored A
stored (decoded value) = ok value
stored (undecoded detail) = err (corrupt_row detail)

-- The loop of `query_all`: the first row that cannot be read ends it.
unfoldable pub read_rows {ℓ κ} :
    {R : Type ℓ} {A : Type κ} → (R → Decoded A) → List R → Stored (List A)
unfolding stored
read_rows map_row [] = ok []
read_rows map_row (row ∷ rows) =
    let later = read_rows map_row rows in
    elim (stored (map_row row)) [
      | err error ↦ err error
      | ok value ↦ elim later [ err error ↦ err error | ok values ↦ ok (value ∷ values) ]
    ]

unfoldable pub query_all {ℓ κ} :
    {R : Type ℓ} {A : Type κ} → Fault → (R → Decoded A) → List R → Stored (List A)
unfolding read_rows
query_all (some source) map_row rows = err (query_failed source)
query_all none map_row rows = read_rows map_row rows

-- `.optional()` and `.transpose()`.
unfoldable pub query_optional {ℓ κ} :
    {R : Type ℓ} {A : Type κ} → Fault → (R → Decoded A) → Option R → Stored (Option A)
unfolding stored
query_optional (some source) map_row row = err (query_failed source)
query_optional none map_row none = ok none
query_optional none map_row (some row) = elim (stored (map_row row)) [
  | err error ↦ err error
  | ok value ↦ ok (some value)
]

module _ (decimal : ℕ → String) where
  -- `run_blocking`: the error becomes a provider's.
  unfoldable pub run_blocking {ℓ} : {A : Type ℓ} → Stored A → Answer A
  run_blocking (ok value) = answered value
  run_blocking (err error) = refused (into decimal error)
