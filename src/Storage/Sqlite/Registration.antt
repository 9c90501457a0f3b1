-- ===== src/Storage/Sqlite/Registration.antt =====
-- What a registration of an agent leaves in the table: by its name, and by every other.
use monitra.Base.{
  ◌≡◌, refl, sym, ap, ◌∙◌, String, Option, none, some, List, map, if◌then◌else◌, str_eq, is_some,
}
use monitra.Models.{Agent}
use monitra.Storage.Codec.{ℤ, as_u64}
use monitra.Storage.Records.{AgentRow, agent_row, registered_again}
use monitra.Base.Eq.{string_Eq}
use monitra.Storage.Rows.{int_Eq, select}
use monitra.Storage.Rows.Laws.{UniqueKeys, select-has}
use monitra.Storage.Rows.Selection.{select-append, select-update, select-key}
use monitra.Storage.Error.{Stored, ok, err}
use monitra.Storage.Sqlite.{Db, execute, transaction}
use monitra.Storage.Sqlite.Agents.{write_agent, look_up_and_write, upsert_agent}
use monitra.Storage.Sqlite.Batch.{quiet}

-- The id of the agent of that name, or the one that a new row gets.
abbrev pub registered_id : (List ℤ → ℤ) → List AgentRow → Option AgentRow → ℤ
registered_id rowid agents none = rowid (map AgentRow.id agents)
registered_id rowid agents (some row) = row.id

-- The agent is answered under that id, is the one of its name, and no other name has changed.
abbrev pub Registers : Db → Agent → ℤ → Stored Agent × Db → Type 0
Registers db agent id ended =
    (ended.0 ≡ ok (record agent { id = as_u64 id }))
    × ((name : String)
        → select AgentRow.name name ended.1.agents ≡ (
            if str_eq agent.name name
            then some (agent_row id agent)
            else select AgentRow.name name db.agents))

registered_again-eq-agent_row :
    (agent : Agent) (row : AgentRow)
    → row.name ≡ agent.name
    → registered_again agent row ≡ agent_row row.id agent
unfolding registered_again agent_row
registered_again-eq-agent_row agent row h =
    ap (λ name. record (agent_row row.id agent) { name = name }) h

module _ (rowid : List ℤ → ℤ) (db : Db) (agent : Agent)
    (ids : UniqueKeys AgentRow.id db.agents) where
  write-Registers :
      (existing : Option AgentRow)
      → select AgentRow.name agent.name db.agents ≡ existing
      → Registers db agent
          (registered_id rowid db.agents existing)
          (write_agent rowid none db agent existing)
  unfolding write_agent execute
  write-Registers (some row) found = (
    refl,
    λ name.
        select-update AgentRow.id AgentRow.name agent.name name (registered_again agent) db.agents
          row (λ s. unfold registered_again in refl) ids found
        ∙ ap
            (λ written.
              if str_eq agent.name name then some written else select AgentRow.name name db.agents)
            (registered_again-eq-agent_row agent row
              (select-key AgentRow.name agent.name db.agents row found)),
  )
  write-Registers none found = (
    refl,
    λ name.
        unfold agent_row in
        select-append AgentRow.name name db.agents
          (agent_row (rowid (map AgentRow.id db.agents)) agent)
          (sym (select-has AgentRow.name agent.name db.agents) ∙ ap is_some found),
  )

  transaction-Registers :
      (id : ℤ) (body : Stored Agent × Db)
      → Registers db agent id body
      → Registers db agent id (transaction quiet db body)
  unfolding transaction
  transaction-Registers id (ok value, after) h = h
  transaction-Registers id (err error, after) h = absurd (cc)

  -- A registration where SQLite meets no error of its own, in a table that has no id twice: the agent
  -- is answered under the id of the agent of that name, or under a new one; afterwards its name
  -- finds exactly what was registered, token and region included, and every other name what it did.
  pub upsert_agent-Registers :
      Registers db agent
        (registered_id rowid db.agents (select AgentRow.name agent.name db.agents))
        (upsert_agent rowid quiet db agent)
  unfolding upsert_agent look_up_and_write
  upsert_agent-Registers =
      let existing = select AgentRow.name agent.name db.agents in
      transaction-Registers (registered_id rowid db.agents existing)
        (write_agent rowid none db agent existing) (write-Registers existing refl)
