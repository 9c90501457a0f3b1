-- ===== src/Backend/Ingest.antt =====
-- `push` of crates/backend/src/ingest.rs: which results of an agent reach the scheduler. The store is
-- what it answers to `heartbeat_agent` and `get_monitor`; `submit` is the channel's.
pub mod Ownership
mod Tests
use monitra.Base.{
  ℕ, String, Bool, true, false, Option, none, some, List, [], ◌∷◌, ◌++◌, ◌==◌, if◌then◌else◌,
}
use monitra.Models.{Monitor}
use monitra.Probe.{ProbeOutcome}
use monitra.Engine.Scheduler.{PushedResult}
use monitra.Provider.Error.{ProviderError}
use monitra.Provider.Cache.{Answer, ok, err}

-- The outcome on the wire, as the agent writes it (client.rs) and as the backend reads it.
pub data PushedOutcomeDto : Type 0 where
  success : ℕ → PushedOutcomeDto
  failure : String → PushedOutcomeDto
  unavailable : String → PushedOutcomeDto

unfoldable pub wire_outcome : ProbeOutcome → PushedOutcomeDto
wire_outcome (ProbeOutcome.success latency_ms) = success latency_ms
wire_outcome (ProbeOutcome.failure message) = failure message
wire_outcome (ProbeOutcome.unavailable message) = unavailable message

unfoldable pub probe_outcome : PushedOutcomeDto → ProbeOutcome
probe_outcome (success latency_ms) = ProbeOutcome.success latency_ms
probe_outcome (failure message) = ProbeOutcome.failure message
probe_outcome (unavailable message) = ProbeOutcome.unavailable message

pub record PushedResultDto : Type 0 where
  pub monitor_id : ℕ
  pub outcome : PushedOutcomeDto

abbrev pub is_agent : ℕ → Option ℕ → Bool
is_agent agent_id none = false
is_agent agent_id (some id) = id == agent_id

-- The `match` on the looked-up monitor: what is submitted.
unfoldable pub accept : ℕ → PushedResultDto → Answer (Option Monitor) → List PushedResult
unfolding probe_outcome
accept agent_id result (err error) = []
accept agent_id result (ok none) = []
accept agent_id result (ok (some monitor)) =
    if is_agent agent_id monitor.agent_id
    then record { monitor_id = result.monitor_id; outcome = probe_outcome result.outcome } ∷ []
    else []

unfoldable pub accept_all :
    (ℕ → Answer (Option Monitor)) → ℕ → List PushedResultDto → List PushedResult
unfolding accept
accept_all get_monitor agent_id [] = []
accept_all get_monitor agent_id (result ∷ results) =
    accept agent_id result (get_monitor result.monitor_id)
    ++ accept_all get_monitor agent_id results

-- `ok` is 202, with what was submitted; `err` is the error that the heartbeat gave.
unfoldable pub push :
    Answer (Unit {0})
    → (ℕ → Answer (Option Monitor))
    → ℕ
    → List PushedResultDto
    → Answer (List PushedResult)
unfolding accept_all
push (err error) get_monitor agent_id results = err error
push (ok done) get_monitor agent_id results = ok (accept_all get_monitor agent_id results)
