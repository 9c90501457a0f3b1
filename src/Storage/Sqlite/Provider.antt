-- ===== src/Storage/Sqlite/Provider.antt =====
-- `impl Store for SqliteStore` of crates/storage/src/lib.rs, where SQLite meets no error of its own:
-- each call through `run_blocking`.
use monitra.Base.{ℕ, String, none, List}
use monitra.Provider.Cache.{Answer}
use monitra.Provider.Store.{Store}
use monitra.Storage.Codec.{ℤ}
use monitra.Storage.Error.{Stored, ok}
use monitra.Storage.Sqlite.{Db, run_blocking}
use monitra.Storage.Sqlite.Monitors
use monitra.Storage.Sqlite.Results
use monitra.Storage.Sqlite.Agents
use monitra.Storage.Sqlite.Alerts
use monitra.Storage.Sqlite.Batch.{quiet}

-- The answer of a call that changes the tables.
unfoldable pub blocking {ℓ} : {A : Type ℓ} → (ℕ → String) → Stored A × Db → Answer A × Db
unfolding run_blocking
blocking decimal (ended, db) = (run_blocking decimal ended, db)

unfoldable pub sqlite : (ℕ → String) → (String → String) → (List ℤ → ℤ) → Store Db
unfolding blocking run_blocking
sqlite decimal debug rowid = record {
  name = "sqlite";
  health_check = λ db. run_blocking decimal (ok tt);
  insert_monitor = λ db monitor. blocking decimal (Monitors.insert_monitor rowid none db monitor);
  get_monitor = λ db id. run_blocking decimal (Monitors.get_monitor debug none db id);
  list_monitors = λ db. run_blocking decimal (Monitors.list_monitors debug none db);
  update_monitor = λ db id name target interval_secs agent_id.
      blocking decimal (Monitors.update_monitor none db id name target interval_secs agent_id);
  set_monitor_status =
      λ db id status. blocking decimal (Monitors.set_monitor_status none db id status);
  delete_monitor = λ db id. blocking decimal (Monitors.delete_monitor none db id);
  list_check_results = λ db monitor_id since.
      run_blocking decimal (Results.list_check_results none db monitor_id since);
  upsert_agent = λ db agent. blocking decimal (Agents.upsert_agent rowid quiet db agent);
  list_agents = λ db. run_blocking decimal (Agents.list_agents none db);
  delete_agent = λ db id. blocking decimal (Agents.delete_agent none db id);
  list_all_alert_events = λ db. run_blocking decimal (Alerts.list_all_alert_events debug none db);
}
