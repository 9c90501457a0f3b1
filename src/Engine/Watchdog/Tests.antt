-- ===== src/Engine/Watchdog/Tests.antt =====
-- One silent agent of two, and an instance of the theorem.
use monitra.Base.{ℕ, ◌==◌, if◌then◌else◌, Bool, true, false, none, some, List, [], ◌∷◌}
use monitra.Models.{Agent, Monitor, MonitorStatus, http, up, paused}

-- A store that keeps the calls, the newest first, and refuses them for monitor 3.
abbrev set_status : List (ℕ × MonitorStatus) → ℕ → MonitorStatus → Bool × List (ℕ × MonitorStatus)
set_status calls id status = if id == 3 then (false, calls) else (true, (id, status) ∷ calls)

abbrev agent : ℕ → ℕ → Agent
agent id heartbeat = record {
  id = id;
  name = "a";
  last_heartbeat_at = heartbeat;
  scope = "";
  token = "t";
  region = none;
}

abbrev monitor : ℕ → ℕ → MonitorStatus → Monitor
monitor id agent_id status = record {
  id = id;
  name = "m";
  target = "h";
  kind = http;
  interval_secs = 30;
  status = status;
  agent_id = some agent_id;
}

abbrev agents : List Agent
agents = agent 1 100 ∷ agent 2 400 ∷ []

abbrev monitors : List Monitor
monitors = monitor 1 1 up ∷ monitor 2 2 up ∷ monitor 3 1 up ∷ monitor 4 1 paused ∷ []
