-- ===== src/Backend/Ingest/Ownership.antt =====
-- Which results of an agent reach the scheduler.
use monitra.Base.{ℕ, Bool, false, Option, none, some}
use monitra.Models.{Monitor}
use monitra.Engine.Scheduler.{PushedResult}
use monitra.Agent.Buffer.{PendingResult}
use monitra.Provider.Cache.{Answer, ok, err}
use monitra.Backend.Ingest.{wire_outcome, PushedResultDto, is_agent}

-- What the agent's client sends of a result.
abbrev pub sent : PendingResult → PushedResultDto
sent pending = record { monitor_id = pending.monitor_id; outcome = wire_outcome pending.outcome }

abbrev pub arrives : PendingResult → PushedResult
arrives pending = record { monitor_id = pending.monitor_id; outcome = pending.outcome }

-- Whether the store holds a monitor that is linked to the agent.
abbrev pub owns_found : ℕ → Answer (Option Monitor) → Bool
owns_found agent_id (err error) = false
owns_found agent_id (ok none) = false
owns_found agent_id (ok (some monitor)) = is_agent agent_id monitor.agent_id

abbrev pub owns : (ℕ → Answer (Option Monitor)) → ℕ → PendingResult → Bool
owns get_monitor agent_id pending = owns_found agent_id (get_monitor pending.monitor_id)
