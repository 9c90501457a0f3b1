-- ===== src/Storage/Sqlite/Integrity/OfMonitors.antt =====
-- The constraints under the calls on monitors.
use monitra.Base.{
  ℕ, ◌≡◌, refl, ◌∙◌, true, false, Option, none, some, List, [], ◌∷◌, ◌++◌, All-append, String,
  arith, Bool-cases, inl, inr,
}
use monitra.Models.{Monitor, MonitorStatus, valid_interval_secs}
use monitra.Storage.Codec.{ℤ, as_i64, MonitorRow, updated_row, inserted_row, coalesce_null, map_i64}
use monitra.Storage.Records.{CheckResultRow, AlertEventRow}
use monitra.Base.Eq.{string_Eq, same_sym}
use monitra.Storage.Rows.{int_Eq, int_eq, update, delete}
use monitra.Storage.Rows.Laws.{
  has-append, has-update, has-delete, append-UniqueKeys, update-UniqueKeys, delete-UniqueKeys,
  update-All, delete-All, All-map,
}
use monitra.Storage.Sqlite.{Db, Fault}
use monitra.Storage.Sqlite.Monitors
use monitra.Storage.Sqlite.Integrity.{
  IsConsistent, Refers, Linked, Owned, Fresh, fresh_key, execute-IsConsistent,
  execute_on-IsConsistent,
}

Owned-append :
    (monitors : List MonitorRow) (row : MonitorRow) (k : ℤ)
    → Owned monitors k
    → Owned (monitors ++ row ∷ []) k
Owned-append monitors row k h = ground (arith, h, has-append MonitorRow.id k monitors row)

Owned-update :
    (monitors : List MonitorRow) (id : ℤ) (f : MonitorRow → MonitorRow) (k : ℤ)
    → ((row : MonitorRow) → (f row).id ≡ row.id)
    → Owned monitors k
    → Owned (update MonitorRow.id id f monitors) k
Owned-update monitors id f k keeps h =
    has-update MonitorRow.id MonitorRow.id id k f monitors keeps ∙ h

Owned-delete :
    (monitors : List MonitorRow) (id k : ℤ)
    → int_eq k id ≡ false
    → Owned monitors k
    → Owned (delete MonitorRow.id id monitors) k
Owned-delete monitors id k other h =
    ground (arith, h, has-delete MonitorRow.id id k monitors, same_sym k id)

links-Refers :
    (db : Db) (agent_id : Option ℕ)
    → Monitors.links db agent_id ≡ true
    → Refers db.agents (map_i64 agent_id)
links-Refers db none h = tt
links-Refers db (some id) h = h

coalesce-Refers :
    (db : Db) (new : Option ℕ) (old : Option ℤ)
    → Monitors.links db new ≡ true
    → Refers db.agents old
    → Refers db.agents (coalesce_null (map_i64 new) old)
coalesce-Refers db none old h r = r
coalesce-Refers db (some id) old h r = h

-- An update of the monitors that keeps their ids, and links none to an agent that is not there.
monitors-IsConsistent :
    (db : Db) (id : ℤ) (f : MonitorRow → MonitorRow)
    → ((row : MonitorRow) → (f row).id ≡ row.id)
    → ((row : MonitorRow) → Linked db.agents row → Linked db.agents (f row))
    → IsConsistent db
    → IsConsistent (record db { monitors = update MonitorRow.id id f db.monitors })
monitors-IsConsistent db id f keeps links c = record {
  monitor_ids = update-UniqueKeys MonitorRow.id MonitorRow.id id f db.monitors keeps c.monitor_ids;
  agent_ids = c.agent_ids;
  agent_names = c.agent_names;
  linked =
      update-All MonitorRow.id id (Linked db.agents) (Linked db.agents) f
        (λ row h. (h, links row h)) db.monitors c.linked;
  results =
      All-map _ _ (λ row. Owned-update db.monitors id f row.monitor_id keeps) db.check_results
        c.results;
  alerts =
      All-map _ _ (λ row. Owned-update db.monitors id f row.monitor_id keeps) db.alert_events
        c.alerts;
}

module _ (rowid : List ℤ → ℤ) (fresh : Fresh rowid) where
  pub insert_monitor-IsConsistent :
      (fault : Fault) (db : Db) (m : Monitor)
      → IsConsistent db
      → IsConsistent (Monitors.insert_monitor rowid fault db m).1
  unfolding Monitors.insert_monitor inserted_row
  insert_monitor-IsConsistent fault db m c =
      elim (Bool-cases (valid_interval_secs m.interval_secs)) [
        | inl valid ↦ rw valid (
            execute-IsConsistent fault _ _ db _ c λ allowed. record {
              monitor_ids =
                  append-UniqueKeys MonitorRow.id db.monitors _
                    (fresh_key rowid fresh MonitorRow.id db.monitors) c.monitor_ids;
              agent_ids = c.agent_ids;
              agent_names = c.agent_names;
              linked =
                  All-append (Linked db.agents) db.monitors (_ ∷ []) c.linked
                    (links-Refers db m.agent_id allowed, tt);
              results =
                  All-map _ _ (λ row. Owned-append db.monitors _ row.monitor_id) db.check_results
                    c.results;
              alerts =
                  All-map _ _ (λ row. Owned-append db.monitors _ row.monitor_id) db.alert_events
                    c.alerts;
            })
        | inr invalid ↦ rw invalid c
      ]

pub update_monitor-IsConsistent :
    (fault : Fault) (db : Db) (id : ℕ) (name target : Option String)
    (interval_secs agent_id : Option ℕ)
    → IsConsistent db
    → IsConsistent (Monitors.update_monitor fault db id name target interval_secs agent_id).1
unfolding Monitors.update_monitor updated_row
update_monitor-IsConsistent fault db id name target interval_secs agent_id c =
    elim (Bool-cases (Monitors.invalid_edit interval_secs)) [
      | inl invalid ↦ rw invalid c
      | inr valid ↦ rw valid (
          execute_on-IsConsistent fault _ id _ _ db _ c λ allowed.
            monitors-IsConsistent db (as_i64 id) _ (λ row. refl)
              (λ row. coalesce-Refers db agent_id row.agent_id allowed) c)
    ]

pub set_monitor_status-IsConsistent :
    (fault : Fault) (db : Db) (id : ℕ) (status : MonitorStatus)
    → IsConsistent db
    → IsConsistent (Monitors.set_monitor_status fault db id status).1
unfolding Monitors.set_monitor_status
set_monitor_status-IsConsistent fault db id status c =
    execute_on-IsConsistent fault _ id _ _ db _ c
      λ allowed. monitors-IsConsistent db (as_i64 id) _ (λ row. refl) (λ row h. h) c

pub delete_monitor-IsConsistent :
    (fault : Fault) (db : Db) (id : ℕ)
    → IsConsistent db
    → IsConsistent (Monitors.delete_monitor fault db id).1
unfolding Monitors.delete_monitor
delete_monitor-IsConsistent fault db id c =
    let k = as_i64 id in
    execute_on-IsConsistent fault _ id _ _ db _ c λ allowed. record {
      monitor_ids = delete-UniqueKeys MonitorRow.id MonitorRow.id k db.monitors c.monitor_ids;
      agent_ids = c.agent_ids;
      agent_names = c.agent_names;
      linked =
          delete-All MonitorRow.id k (Linked db.agents) (Linked db.agents) (λ row other h. h)
            db.monitors c.linked;
      results =
          delete-All CheckResultRow.monitor_id k _ _
            (λ row. Owned-delete db.monitors k row.monitor_id) db.check_results c.results;
      alerts =
          delete-All AlertEventRow.monitor_id k _ _
            (λ row. Owned-delete db.monitors k row.monitor_id) db.alert_events c.alerts;
    }
