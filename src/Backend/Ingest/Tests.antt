-- ===== src/Backend/Ingest/Tests.antt =====
-- A batch with a result for another agent's monitor, and an instance of the theorem.
use monitra.Base.{ℕ, some, Option, if◌then◌else◌, ◌==◌}
use monitra.Models.{Monitor, host_agent_check, up}
use monitra.Probe.{success, failure}
use monitra.Agent.Buffer.{PendingResult}
use monitra.Provider.Cache.{Answer, ok}

abbrev monitor : ℕ → ℕ → Monitor
monitor id agent_id = record {
  id = id;
  name = "m";
  target = "disk";
  kind = host_agent_check;
  interval_secs = 30;
  status = up;
  agent_id = some agent_id;
}

-- Monitor 1 is agent 7's and any other agent 8's.
abbrev get_monitor : ℕ → Answer (Option Monitor)
get_monitor id = ok (some (monitor id (if id == 1 then 7 else 8)))

abbrev own : PendingResult
own = record { monitor_id = 1; outcome = success 3 }

abbrev foreign : PendingResult
foreign = record { monitor_id = 2; outcome = failure "down" }
