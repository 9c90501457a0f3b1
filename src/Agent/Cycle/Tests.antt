-- ===== src/Agent/Cycle/Tests.antt =====
-- A push that fails and one that is accepted, and an instance of the theorem.
use monitra.Base.{ℕ, String, true, false, none, some, [], ◌∷◌}
use monitra.Models.{http, host_agent_check}
use monitra.Probe.{ProbeOutcome, success, failure, NetworkProbeKind}
use monitra.Agent.Buffer.{PendingResult}
use monitra.Agent.Cycle.Delivery.{Inputs}

abbrev identity : ℕ → ℕ
identity n = n

abbrev run_check : ℕ → ProbeOutcome
run_check n = failure "full"

abbrev probe : NetworkProbeKind → String → ProbeOutcome
probe kind target = success 3

abbrev offline : Inputs ℕ
offline = record { defs = 1 ∷ []; pull_assignments = true; fetched = none; accepted = false }

abbrev online : Inputs ℕ
online = record {
  defs = 1 ∷ [];
  pull_assignments = true;
  fetched = some (
      record { monitor_id = 2; target = "http://h"; kind = http }
      ∷ record { monitor_id = 3; target = "x"; kind = host_agent_check }
      ∷ []);
  accepted = true;
}

abbrev local_result : PendingResult
local_result = record { monitor_id = 1; outcome = failure "full" }

abbrev remote_result : PendingResult
remote_result = record { monitor_id = 2; outcome = success 3 }
