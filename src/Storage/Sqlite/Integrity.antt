-- ===== src/Storage/Sqlite/Integrity.antt =====
-- The constraints that the tables of crates/storage/src/migrations.rs declare, and the unique names
-- that the code alone sees to, under the calls of the store.
pub mod OfMonitors
pub mod OfRecords
pub mod OfAgents
pub mod OfCalls
use monitra.Base.{
  ℕ, ◌≡◌, refl, sym, ◌∙◌, Bool, true, false, not, Option, none, some, List, [], ◌∷◌, ◌++◌, map, All,
  All-append, String, if◌then◌else◌, arith, Bool-cases, inl, inr,
}
use monitra.Models.{Monitor, Agent, AlertEvent, CheckResult, MonitorStatus, valid_interval_secs}
use monitra.Storage.Codec.{ℤ, as_i64, MonitorRow, updated_row, inserted_row, coalesce_null, map_i64}
use monitra.Storage.Records.{
  CheckResultRow, AgentRow, AlertEventRow, agent_row, registered_again, result_row, alert_event_row,
}
use monitra.Base.Eq.{string_Eq, same_sym}
use monitra.Storage.Rows.{int_Eq, int_eq, int_eq_iff, has, update, delete, select}
use monitra.Storage.Rows.Laws.{
  has-append, has-update, has-delete, UniqueKeys, append-UniqueKeys, update-UniqueKeys,
  delete-UniqueKeys, update-All, delete-All, All-map,
}
use monitra.Storage.Error.{Stored, ok, err}
use monitra.Storage.Sqlite.{Db, Fault, Faults, execute, execute_on, transaction}
use monitra.Storage.Sqlite.Monitors
use monitra.Storage.Sqlite.Results
use monitra.Storage.Sqlite.Agents
use monitra.Storage.Sqlite.Alerts

-- The agent that a monitor refers to is there.
abbrev pub Refers : List AgentRow → Option ℤ → Type 0
Refers agents none = Unit
Refers agents (some id) = has AgentRow.id id agents ≡ true

abbrev pub Linked : List AgentRow → MonitorRow → Type 0
Linked agents row = Refers agents row.agent_id

-- The monitor of a result, or of an alert event, is there.
abbrev pub Owned : List MonitorRow → ℤ → Type 0
Owned monitors id = has MonitorRow.id id monitors ≡ true

pub record IsConsistent (db : Db) : Type 0 where
  pub monitor_ids : UniqueKeys MonitorRow.id db.monitors
  pub agent_ids : UniqueKeys AgentRow.id db.agents
  pub agent_names : UniqueKeys AgentRow.name db.agents
  pub linked : All (Linked db.agents) db.monitors
  pub results : All (λ row. Owned db.monitors row.monitor_id) db.check_results
  pub alerts : All (λ row. Owned db.monitors row.monitor_id) db.alert_events

-- The id of a new row is none of those in use, as SQLite documents.
abbrev pub Fresh : (List ℤ → ℤ) → Type 0
Fresh rowid = (used : List ℤ) → has (λ id. id) (rowid used) used ≡ false

has-map :
    {R : Type 0} (key : R → ℤ) (k : ℤ) (rows : List R)
    → has (λ id. id) k (map key rows) ≡ has key k rows
unfolding has
has-map key k [] = refl
has-map key k (r ∷ rows) = ground (arith, has-map key k rows)

pub execute-IsConsistent {ℓ} :
    {A : Type ℓ} (fault : Fault) (allowed : Bool) (value : A) (before after : Db)
    → IsConsistent before
    → (allowed ≡ true → IsConsistent after)
    → IsConsistent (execute fault allowed value before after).1
unfolding execute
execute-IsConsistent (some source) allowed value before after c step = c
execute-IsConsistent none false value before after c step = c
execute-IsConsistent none true value before after c step = step refl

pub execute_on-IsConsistent :
    (fault : Fault) (entity : String) (id : ℕ) (found allowed : Bool) (before after : Db)
    → IsConsistent before
    → (allowed ≡ true → IsConsistent after)
    → IsConsistent (execute_on fault entity id found allowed before after).1
unfolding execute_on
execute_on-IsConsistent (some source) entity id found allowed before after c step = c
execute_on-IsConsistent none entity id false allowed before after c step = c
execute_on-IsConsistent none entity id true false before after c step = c
execute_on-IsConsistent none entity id true true before after c step = step refl

pub transaction-IsConsistent {ℓ} :
    {A : Type ℓ} (faults : Faults) (before : Db) (body : Stored A × Db)
    → IsConsistent before
    → IsConsistent body.1
    → IsConsistent (transaction faults before body).1
unfolding transaction
transaction-IsConsistent faults before (ok value, after) c s = ground arith
transaction-IsConsistent faults before (err error, after) c s = ground arith

module _ (rowid : List ℤ → ℤ) (fresh : Fresh rowid) where
  pub fresh_key :
      {R : Type 0} (key : R → ℤ) (rows : List R) → has key (rowid (map key rows)) rows ≡ false
  fresh_key key rows = sym (has-map key (rowid (map key rows)) rows) ∙ fresh (map key rows)
