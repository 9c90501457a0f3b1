-- ===== src/Engine/Watchdog.antt =====
-- `sweep` of crates/engine/src/watchdog.rs: the monitors of the agents that went silent are marked
-- stale. The store is a parameter: its state, and what `set_monitor_status` answers (true for `Ok`).
pub mod Sweep
mod Tests
use monitra.Base.{
  ℕ, ◌-◌, Bool, true, false, Option, none, some, List, [], ◌∷◌, ◌++◌, map, filter, elem, ltb,
  if◌then◌else◌,
}
use monitra.Models.{Agent, Monitor, MonitorStatus, pending, up, down, paused, stale, unknown}
use monitra.Engine.Alerts.{AlertRequest}

-- The statuses that a sweep leaves alone.
abbrev pub is_held : MonitorStatus → Bool
is_held paused = true
is_held stale = true
is_held unknown = true
is_held _ = false

-- `now` and the timeout are in seconds; the subtraction saturates.
abbrev pub is_silent : ℕ → ℕ → Agent → Bool
is_silent timeout now agent = ltb timeout (now - agent.last_heartbeat_at)

abbrev pub silent_ids : ℕ → ℕ → List Agent → List ℕ
silent_ids timeout now agents = map (λ a. a.id) (filter (is_silent timeout now) agents)

module _ {S : Type 0} (set_monitor_status : S → ℕ → MonitorStatus → Bool × S) where
  unfoldable pub demote : S → Monitor → S × List AlertRequest
  demote s m =
      let (written, s') = set_monitor_status s m.id stale in
      (
        s',
        if written
            then record { monitor_id = m.id; monitor_name = m.name; transitioned_to = stale } ∷ []
            else [],
      )

  -- The body of the loop over the monitors.
  unfoldable pub visit : List ℕ → S → Monitor → Option ℕ → S × List AlertRequest
  visit silent s m none = (s, [])
  visit silent s m (some agent_id) =
      if elem agent_id silent then (if is_held m.status then (s, []) else demote s m) else (s, [])

  unfoldable pub visit_all : List ℕ → S → List Monitor → S × List AlertRequest
  visit_all silent s [] = (s, [])
  visit_all silent s (m ∷ ms) =
      let (s', here) = visit silent s m m.agent_id in
      let (last, later) = visit_all silent s' ms in (last, here ++ later)

  -- Nothing is listed where no agent is silent.
  unfoldable pub sweep_silent : List ℕ → S → Option (List Monitor) → S × List AlertRequest
  sweep_silent [] s monitors = (s, [])
  sweep_silent (id ∷ ids) s none = (s, [])
  sweep_silent (id ∷ ids) s (some monitors) = visit_all (id ∷ ids) s monitors

  -- `none` stands for a list that failed.
  unfoldable pub sweep :
      ℕ → ℕ → S → Option (List Agent) → Option (List Monitor) → S × List AlertRequest
  unfolding sweep_silent
  sweep timeout now s none monitors = (s, [])
  sweep timeout now s (some agents) monitors =
      sweep_silent (silent_ids timeout now agents) s monitors
