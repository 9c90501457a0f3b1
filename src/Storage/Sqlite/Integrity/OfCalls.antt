-- ===== src/Storage/Sqlite/Integrity/OfCalls.antt =====
-- The constraints under any sequence of calls.
use monitra.Base.{List, [], ◌∷◌}
use monitra.Storage.Codec.{ℤ}
use monitra.Storage.Sqlite.{Db, empty}
use monitra.Storage.Sqlite.Calls.{
  Call, insert_monitor, update_monitor, set_monitor_status, delete_monitor, insert_check_results,
  prune_check_results_older_than, upsert_agent, heartbeat_agent, delete_agent, insert_alert_event,
  step, run,
}
use monitra.Storage.Sqlite.Integrity.{IsConsistent, Fresh}
use monitra.Storage.Sqlite.Integrity.OfMonitors.{
  insert_monitor-IsConsistent, update_monitor-IsConsistent, set_monitor_status-IsConsistent,
  delete_monitor-IsConsistent,
}
use monitra.Storage.Sqlite.Integrity.OfRecords.{
  insert_alert_event-IsConsistent, insert_check_results-IsConsistent, prune-IsConsistent,
}
use monitra.Storage.Sqlite.Integrity.OfAgents.{
  upsert_agent-IsConsistent, heartbeat_agent-IsConsistent, delete_agent-IsConsistent,
}

module _ (rowid : List ℤ → ℤ) (fresh : Fresh rowid) where
  step-IsConsistent : (db : Db) (call : Call) → IsConsistent db → IsConsistent (step rowid db call)
  unfolding step
  step-IsConsistent db (insert_monitor fault m) c =
      insert_monitor-IsConsistent rowid fresh fault db m c
  step-IsConsistent db (update_monitor fault id name target interval_secs agent_id) c =
      update_monitor-IsConsistent fault db id name target interval_secs agent_id c
  step-IsConsistent db (set_monitor_status fault id status) c =
      set_monitor_status-IsConsistent fault db id status c
  step-IsConsistent db (delete_monitor fault id) c = delete_monitor-IsConsistent fault db id c
  step-IsConsistent db (insert_check_results faults results) c =
      insert_check_results-IsConsistent faults db results c
  step-IsConsistent db (prune_check_results_older_than fault cutoff limit) c =
      prune-IsConsistent fault db cutoff limit c
  step-IsConsistent db (upsert_agent faults agent) c =
      upsert_agent-IsConsistent rowid fresh faults db agent c
  step-IsConsistent db (heartbeat_agent fault id at_unix_secs) c =
      heartbeat_agent-IsConsistent fault db id at_unix_secs c
  step-IsConsistent db (delete_agent fault id) c = delete_agent-IsConsistent fault db id c
  step-IsConsistent db (insert_alert_event fault event) c =
      insert_alert_event-IsConsistent rowid fresh fault db event c

  run_from-IsConsistent :
      (db : Db) (calls : List Call) → IsConsistent db → IsConsistent (run rowid db calls)
  unfolding run
  run_from-IsConsistent db [] c = c
  run_from-IsConsistent db (call ∷ calls) c =
      run_from-IsConsistent (step rowid db call) calls (step-IsConsistent db call c)

  -- From the empty tables, under any calls of the store and any errors of SQLite, where a new row
  -- gets an id that is not in use: no two monitors and no two agents have one id, no two agents have
  -- one name, the agent of every monitor is there, and the monitor of every result and alert event.
  pub run-IsConsistent_from_empty : (calls : List Call) → IsConsistent (run rowid empty calls)
  run-IsConsistent_from_empty calls = run_from-IsConsistent empty calls (record {
    monitor_ids = tt;
    agent_ids = tt;
    agent_names = tt;
    linked = tt;
    results = tt;
    alerts = tt;
  })
