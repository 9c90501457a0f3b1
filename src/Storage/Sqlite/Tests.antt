-- ===== src/Storage/Sqlite/Tests.antt =====
-- A store in use, and instances of the theorems.
use monitra.Base.{
  ℕ, suc, ◌≤◌, ◌*◌, ◌≡◌, refl, true, false, none, some, List, [], ◌∷◌, arith, max, String, Bool,
  ◌==◌, if◌then◌else◌,
}
use monitra.Models.{Monitor, Agent, CheckResult, http, pending, down}
use monitra.Storage.Codec.{
  ℤ, pos, negsuc, as_i64, MonitorRow, inserted_row, monitor_kind_to_str, monitor_status_to_str,
}
use monitra.Storage.Records.{AgentRow, agent_row, result_row, registered_again}
use monitra.Base.Eq.{string_Eq}
use monitra.Storage.Rows.{int_Eq, has, select, update}
use monitra.Storage.Sqlite.{Db, empty, Fault, Faults, transaction, execute, execute_on}
use monitra.Storage.Sqlite.Agents.{upsert_agent, delete_agent}
use monitra.Storage.Sqlite.Monitors.{delete_monitor, insert_monitor}
use monitra.Storage.Sqlite.Results.{insert_check_results, count_older}
use monitra.Storage.Sqlite.Calls.{Call, run}
use monitra.Storage.Sqlite.Calls
use monitra.Storage.Sqlite.Integrity.{IsConsistent, Fresh}
use monitra.Storage.Sqlite.Integrity.OfCalls.{run-IsConsistent_from_empty}
use monitra.Storage.Sqlite.Batch.{
  quiet, with_results, AllOrNothing, insert_check_results-AllOrNothing,
}
use monitra.Storage.Sqlite.Writing.{taking, run-sqlite}
use monitra.Storage.Sqlite.Registration.{Registers, registered_id, upsert_agent-Registers}
use monitra.Storage.Sqlite.Removal.{Deleted, delete_monitor_lem}
use monitra.Storage.Sqlite.Pruning.{
  pruned_store, remaining, batch_size, backlog_estimate_cap, run_pass-sqlite,
}
use monitra.Storage.Sqlite.History.{GrewBy, after, recorded, run-recorded}
use monitra.Provider.Notifier.{new, notify_recording_outcome, enqueue}
use monitra.Engine.Alerts.{AlertRequest}
use monitra.Engine.Alerts
use monitra.Engine.Writer.{Event, received, tick, closed, run as write_all}
use monitra.Engine.Pruner.{run_pass}
use monitra.Engine.Pruner.Backlog.{Reported}

highest : List ℤ → ℕ
highest [] = 0
highest (pos n ∷ used) = max n (highest used)
highest (negsuc n ∷ used) = highest used

-- One more than the highest id in use.
next_rowid : List ℤ → ℤ
unfolding highest
next_rowid used = pos (suc (highest used))

above : (n : ℕ) (used : List ℤ) → highest used ≤ n → has (λ id. id) (pos (suc n)) used ≡ false
unfolding highest has
above n [] h = refl
above n (pos m ∷ used) h = ground (arith, above n used)
above n (negsuc m ∷ used) h = ground (arith, above n used h)

next_rowid-Fresh : Fresh next_rowid
unfolding next_rowid
next_rowid-Fresh used = above (highest used) used (omega arith)

abbrev site : Monitor
site = record {
  id = 0;
  name = "site";
  target = "https://h";
  kind = http;
  interval_secs = 60;
  status = pending;
  agent_id = some 1;
}

abbrev edge : Agent
edge = record {
  id = 0;
  name = "edge";
  last_heartbeat_at = 10;
  scope = "all";
  token = "t1";
  region = some "eu";
}

abbrev again : Agent
again = record edge { token = "t2"; region = none }

abbrev seen_at : ℕ → ℕ → CheckResult
seen_at monitor_id checked_at = record {
  monitor_id = monitor_id;
  checked_at = checked_at;
  success = true;
  latency_ms = 12;
  message = none;
}

-- An agent, a monitor of it, and a batch of which the second result has no monitor.
abbrev calls : List Call
calls =
    Calls.upsert_agent quiet edge
    ∷ Calls.insert_monitor none site
    ∷ Calls.insert_check_results quiet (seen_at 1 5 ∷ seen_at 9 6 ∷ [])
    ∷ Calls.insert_check_results quiet (seen_at 1 7 ∷ [])
    ∷ Calls.delete_agent none 1
    ∷ Calls.upsert_agent quiet again
    ∷ []

abbrev one_site : Db
one_site = record {
  monitors =
      record {
        id = pos 1;
        name = "site";
        target = "https://h";
        kind = "http";
        interval_secs = pos 60;
        status = "pending";
        agent_id = some (pos 1);
      }
      ∷ [];
  check_results = result_row (seen_at 1 7) ∷ [];
  agents = agent_row (pos 1) again ∷ [];
  alert_events = [];
}

calls_end : run next_rowid empty calls ≡ one_site
unfolding run upsert_agent transaction select delete_agent execute_on has insert_check_results
    execute insert_monitor agent_row next_rowid inserted_row monitor_kind_to_str
    monitor_status_to_str update registered_again
calls_end = refl

run-IsConsistent_from_empty_example : IsConsistent (run next_rowid empty calls)
run-IsConsistent_from_empty_example = run-IsConsistent_from_empty next_rowid next_rowid-Fresh calls

abbrev failing : Faults
failing = record { begin = none; statement = λ n. some "disk I/O error"; commit = none }

insert_check_results-AllOrNothing_example :
    AllOrNothing one_site
      (seen_at 1 8 ∷ [])
      (insert_check_results failing one_site (seen_at 1 8 ∷ []))
insert_check_results-AllOrNothing_example =
    insert_check_results-AllOrNothing failing one_site (seen_at 1 8 ∷ [])

abbrev events : List Event
events = received (seen_at 1 8) ∷ tick ∷ received (seen_at 1 9) ∷ []

run-sqlite_example :
    (write_all taking 5
      (record { store = one_site; batch = [] })
      (received (seen_at 1 8) ∷ tick ∷ received (seen_at 1 9) ∷ closed ∷ [])).store
    ≡ with_results one_site (seen_at 1 8 ∷ seen_at 1 9 ∷ [])
unfolding has
run-sqlite_example = run-sqlite 5 one_site events refl

upsert_agent-Registers_example :
    Registers one_site edge
      (registered_id next_rowid one_site.agents (select AgentRow.name "edge" one_site.agents))
      (upsert_agent next_rowid quiet one_site edge)
unfolding has
upsert_agent-Registers_example = upsert_agent-Registers next_rowid one_site edge (refl, tt)

delete_monitor_lem_example :
    Deleted one_site 1
      (has MonitorRow.id (as_i64 1) one_site.monitors)
      (delete_monitor none one_site 1)
delete_monitor_lem_example = delete_monitor_lem one_site 1

run_pass-sqlite_example :
    Reported
      (pruned_store (λ n. "n"))
      remaining
      batch_size
      backlog_estimate_cap
      100
      1
      (3 * batch_size)
      (run_pass
        (pruned_store (λ n. "n"))
        batch_size
        backlog_estimate_cap
        one_site
        700
        600
        3
        (λ left. false))
unfolding remaining count_older result_row
run_pass-sqlite_example =
    run_pass-sqlite (λ n. "n") one_site 700 600 2 (λ left. false) (omega arith) refl

-- A sink that takes every second message.
abbrev deliver : Bool → String → Bool × Bool
deliver true text = (true, false)
deliver false text = (false, true)

abbrev asked : ℕ → AlertRequest
asked monitor_id = record { monitor_id = monitor_id; monitor_name = "site"; transitioned_to = down }

-- The table is locked at one time.
abbrev locked : ℕ → Fault
locked now_secs = if now_secs == 70 then some "database is locked" else none

-- The second request is of no monitor, and the third meets the lock.
abbrev requests : List Alerts.Event
requests =
    Alerts.received (asked 1) 50
    ∷ Alerts.received (asked 9) 60
    ∷ Alerts.received (asked 1) 70
    ∷ Alerts.received (asked 1) 80
    ∷ []

run-recorded_example :
    GrewBy deliver "slack"
      (λ n. "n")
      next_rowid
      locked
      ((pos 1, "down", pos 50, "slack", "queued for retry")
        ∷ (pos 1, "down", pos 80, "slack", "sent")
        ∷ [])
      one_site
      (after deliver "slack" (λ n. "n") next_rowid locked (new false 4) one_site requests)
unfolding recorded notify_recording_outcome enqueue new has monitor_status_to_str
run-recorded_example =
    run-recorded deliver "slack" (λ n. "n") next_rowid locked (new false 4) one_site requests
