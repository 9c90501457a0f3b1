-- ===== src/Storage/Sqlite/Integrity/OfAgents.antt =====
-- The constraints under the calls on agents.
use monitra.Base.{
  ℕ, ◌≡◌, refl, sym, ◌∙◌, true, false, Option, none, some, List, [], ◌∷◌, ◌++◌, All, arith, inl,
  inr, subst, ap, Option-cases, is_some,
}
use monitra.Models.{Agent}
use monitra.Storage.Codec.{ℤ, as_i64, MonitorRow}
use monitra.Storage.Records.{AgentRow, agent_row, registered_again}
use monitra.Base.Eq.{string_Eq, same_sym}
use monitra.Storage.Rows.{int_Eq, update, delete, select}
use monitra.Storage.Rows.Laws.{
  has-append, has-update, has-delete, append-UniqueKeys, update-UniqueKeys, delete-UniqueKeys,
  All-map, select-has,
}
use monitra.Storage.Sqlite.{Db, Fault, Faults}
use monitra.Storage.Sqlite.Agents
use monitra.Storage.Sqlite.Integrity.{
  IsConsistent, Refers, Linked, Fresh, fresh_key, execute-IsConsistent, execute_on-IsConsistent,
  transaction-IsConsistent,
}

Refers-append :
    (agents : List AgentRow) (row : AgentRow) (id : Option ℤ)
    → Refers agents id
    → Refers (agents ++ row ∷ []) id
Refers-append agents row none h = tt
Refers-append agents row (some id) h = ground (arith, h, has-append AgentRow.id id agents row)

Refers-update :
    (agents : List AgentRow) (k : ℤ) (f : AgentRow → AgentRow) (id : Option ℤ)
    → ((row : AgentRow) → (f row).id ≡ row.id)
    → Refers agents id
    → Refers (update AgentRow.id k f agents) id
Refers-update agents k f none keeps h = tt
Refers-update agents k f (some id) keeps h =
    has-update AgentRow.id AgentRow.id k id f agents keeps ∙ h

-- An agent that no monitor refers to can go.
delete-Linked :
    (agents : List AgentRow) (k : ℤ) (monitors : List MonitorRow)
    → Agents.is_referenced k monitors ≡ false
    → All (Linked agents) monitors
    → All (Linked (delete AgentRow.id k agents)) monitors
unfolding Agents.is_referenced
delete-Linked agents k [] no_one h = tt
delete-Linked agents k (row ∷ monitors) no_one h = elim (Option-cases row.agent_id) [
  | inl e ↦ (
    subst (λ o. Refers (delete AgentRow.id k agents) o) (sym e) tt,
    delete-Linked agents k monitors (ground (arith, e)) h.1,
  )
  | inr (id, e) ↦ (
    subst (λ o. Refers (delete AgentRow.id k agents) o) (sym e)
        (ground (
          arith,
          no_one,
          e,
          subst (λ o. Refers agents o) e h.0,
          has-delete AgentRow.id k id agents,
          same_sym id k,
        )),
    delete-Linked agents k monitors (ground (arith, no_one, e)) h.1,
  )
]

agents-IsConsistent :
    (db : Db) (id : ℤ) (f : AgentRow → AgentRow)
    → ((row : AgentRow) → (f row).id ≡ row.id)
    → ((row : AgentRow) → (f row).name ≡ row.name)
    → IsConsistent db
    → IsConsistent (record db { agents = update AgentRow.id id f db.agents })
agents-IsConsistent db id f keeps names c = record {
  monitor_ids = c.monitor_ids;
  agent_ids = update-UniqueKeys AgentRow.id AgentRow.id id f db.agents keeps c.agent_ids;
  agent_names = update-UniqueKeys AgentRow.name AgentRow.id id f db.agents names c.agent_names;
  linked =
      All-map (Linked db.agents) _ (λ row. Refers-update db.agents id f row.agent_id keeps)
        db.monitors c.linked;
  results = c.results;
  alerts = c.alerts;
}

module _ (rowid : List ℤ → ℤ) (fresh : Fresh rowid) where
  write_agent-IsConsistent :
      (fault : Fault) (db : Db) (agent : Agent) (existing : Option AgentRow)
      → select AgentRow.name agent.name db.agents ≡ existing
      → IsConsistent db
      → IsConsistent (Agents.write_agent rowid fault db agent existing).1
  unfolding Agents.write_agent agent_row registered_again
  write_agent-IsConsistent fault db agent (some row) e c =
      execute-IsConsistent fault true _ db _ c
        λ allowed. agents-IsConsistent db row.id _ (λ r. refl) (λ r. refl) c
  write_agent-IsConsistent fault db agent none e c =
      execute-IsConsistent fault true _ db _ c λ allowed. record {
        monitor_ids = c.monitor_ids;
        agent_ids =
            append-UniqueKeys AgentRow.id db.agents _ (fresh_key rowid fresh AgentRow.id db.agents)
              c.agent_ids;
        agent_names =
            append-UniqueKeys AgentRow.name db.agents _
              (sym (select-has AgentRow.name agent.name db.agents) ∙ ap is_some e) c.agent_names;
        linked =
            All-map (Linked db.agents) _ (λ row. Refers-append db.agents _ row.agent_id) db.monitors
              c.linked;
        results = c.results;
        alerts = c.alerts;
      }

  look_up-IsConsistent :
      (fault : ℕ → Fault) (db : Db) (agent : Agent)
      → IsConsistent db
      → IsConsistent (Agents.look_up_and_write rowid fault db agent).1
  unfolding Agents.look_up_and_write
  look_up-IsConsistent fault db agent c = ground (
    arith,
    c,
    write_agent-IsConsistent (fault 1) db agent (select AgentRow.name agent.name db.agents) refl c,
  )

  pub upsert_agent-IsConsistent :
      (faults : Faults) (db : Db) (agent : Agent)
      → IsConsistent db
      → IsConsistent (Agents.upsert_agent rowid faults db agent).1
  unfolding Agents.upsert_agent
  upsert_agent-IsConsistent faults db agent c =
      transaction-IsConsistent faults db _ c (look_up-IsConsistent faults.statement db agent c)

pub heartbeat_agent-IsConsistent :
    (fault : Fault) (db : Db) (id at_unix_secs : ℕ)
    → IsConsistent db
    → IsConsistent (Agents.heartbeat_agent fault db id at_unix_secs).1
unfolding Agents.heartbeat_agent
heartbeat_agent-IsConsistent fault db id at_unix_secs c =
    execute_on-IsConsistent fault _ id _ _ db _ c
      λ allowed. agents-IsConsistent db (as_i64 id) _ (λ r. refl) (λ r. refl) c

pub delete_agent-IsConsistent :
    (fault : Fault) (db : Db) (id : ℕ)
    → IsConsistent db
    → IsConsistent (Agents.delete_agent fault db id).1
unfolding Agents.delete_agent
delete_agent-IsConsistent fault db id c = execute_on-IsConsistent fault _ id _ _ db _ c λ allowed.
    record {
      monitor_ids = c.monitor_ids;
      agent_ids = delete-UniqueKeys AgentRow.id AgentRow.id (as_i64 id) db.agents c.agent_ids;
      agent_names = delete-UniqueKeys AgentRow.name AgentRow.id (as_i64 id) db.agents c.agent_names;
      linked = delete-Linked db.agents (as_i64 id) db.monitors (ground (arith, allowed)) c.linked;
      results = c.results;
      alerts = c.alerts;
    }
