-- ===== src/Storage/Sqlite/Agents.antt =====
-- The agents of `SqliteStore`, crates/storage/src/lib.rs.
use monitra.Base.{
  ℕ, Bool, true, false, not, Option, none, some, List, [], ◌∷◌, ◌++◌, map, if◌then◌else◌,
}
use monitra.Models.{Agent}
use monitra.Storage.Codec.{ℤ, as_i64, as_u64, MonitorRow}
use monitra.Storage.Records.{AgentRow, agent_row, registered_again, row_to_agent}
use monitra.Base.Eq.{string_Eq}
use monitra.Storage.Rows.{int_Eq, int_eq, has, select, update, delete, order_by}
use monitra.Storage.Error.{Stored, err, query_failed}
use monitra.Storage.Sqlite.{
  Db, Fault, Faults, execute, execute_on, transaction, query_all, query_optional,
}

-- What the transaction does once the name has been looked up.
unfoldable pub write_agent : (List ℤ → ℤ) → Fault → Db → Agent → Option AgentRow → Stored Agent × Db
write_agent rowid fault db agent (some existing) =
    execute fault true (record agent { id = as_u64 existing.id }) db
      (record db { agents = update AgentRow.id existing.id (registered_again agent) db.agents })
write_agent rowid fault db agent none =
    let id = rowid (map AgentRow.id db.agents) in
    execute fault true (record agent { id = as_u64 id }) db
      (record db { agents = db.agents ++ agent_row id agent ∷ [] })

-- The name is looked up by the statement 0, and the row written by the statement 1.
unfoldable pub look_up_and_write : (List ℤ → ℤ) → (ℕ → Fault) → Db → Agent → Stored Agent × Db
unfolding write_agent
look_up_and_write rowid fault db agent = elim (fault 0) [
  | some source ↦ (err (query_failed source), db)
  | none ↦ write_agent rowid (fault 1) db agent (select AgentRow.name agent.name db.agents)
]

unfoldable pub upsert_agent : (List ℤ → ℤ) → Faults → Db → Agent → Stored Agent × Db
unfolding look_up_and_write
upsert_agent rowid faults db agent =
    transaction faults db (look_up_and_write rowid faults.statement db agent)

abbrev pub heartbeat_row : ℕ → AgentRow → AgentRow
heartbeat_row at_unix_secs row = record row { last_heartbeat_at = as_i64 at_unix_secs }

unfoldable pub heartbeat_agent : Fault → Db → ℕ → ℕ → Stored (Unit {0}) × Db
heartbeat_agent fault db id at_unix_secs =
    execute_on fault "agent" id (has AgentRow.id (as_i64 id) db.agents) true db
      (record db { agents = update AgentRow.id (as_i64 id) (heartbeat_row at_unix_secs) db.agents })

unfoldable pub get_agent : Fault → Db → ℕ → Stored (Option Agent)
get_agent fault db id = query_optional fault row_to_agent (select AgentRow.id (as_i64 id) db.agents)

unfoldable pub list_agents : Fault → Db → Stored (List Agent)
list_agents fault db = query_all fault row_to_agent (order_by AgentRow.id db.agents)

-- Whether a monitor refers to the agent: the foreign key has no `ON DELETE`.
unfoldable pub is_referenced : ℤ → List MonitorRow → Bool
is_referenced id [] = false
is_referenced id (row ∷ rows) =
    let rest = is_referenced id rows in
    elim row.agent_id [ none ↦ rest | some agent_id ↦ if int_eq agent_id id then true else rest ]

unfoldable pub delete_agent : Fault → Db → ℕ → Stored (Unit {0}) × Db
unfolding is_referenced
delete_agent fault db id =
    execute_on fault "agent" id (has AgentRow.id (as_i64 id) db.agents)
      (not (is_referenced (as_i64 id) db.monitors)) db
      (record db { agents = delete AgentRow.id (as_i64 id) db.agents })
