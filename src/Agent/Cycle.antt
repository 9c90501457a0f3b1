-- ===== src/Agent/Cycle.antt =====
-- `run_cycle` of crates/agent/src/lib.rs, and the token of `RunConfig`. The probes and the network
-- are parameters of a cycle: its inputs say what they answer.
pub mod Delivery
mod Tests
use monitra.Base.{
  ℕ, String, Bool, true, false, Option, none, some, List, [], ◌∷◌, ◌++◌, map, if◌then◌else◌,
}
use monitra.Base.Text.{trim, is_empty}
use monitra.Models.{MonitorKind}
use monitra.Probe.{ProbeOutcome, NetworkProbeKind, try_from}
use monitra.Agent.Buffer.{PendingResult, PushBuffer, push_back_all, drain}

-- client.rs
pub record AssignmentDto : Type 0 where
  pub monitor_id : ℕ
  pub target : String
  pub kind : MonitorKind

unfoldable pub probe_kind : AssignmentDto → Option NetworkProbeKind
probe_kind assignment = try_from assignment.kind

module _ {D : Type 0} (monitor_id_of : D → ℕ) (run_check : D → ProbeOutcome) where
  abbrev pub check : D → PendingResult
  check def = record { monitor_id = monitor_id_of def; outcome = run_check def }

  module _ (probe : NetworkProbeKind → String → ProbeOutcome) where
    -- An assignment of another kind is skipped.
    abbrev pub probed : AssignmentDto → Option NetworkProbeKind → List PendingResult
    probed assignment none = []
    probed assignment (some kind) =
        record { monitor_id = assignment.monitor_id; outcome = probe kind assignment.target } ∷ []

    unfoldable pub probe_all : List AssignmentDto → List PendingResult
    unfolding probe_kind
    probe_all [] = []
    probe_all (assignment ∷ rest) = probed assignment (probe_kind assignment) ++ probe_all rest

    -- `none` stands for a fetch that failed.
    unfoldable pub regional : Bool → Option (List AssignmentDto) → List PendingResult
    unfolding probe_all
    regional false fetched = []
    regional true none = []
    regional true (some assignments) = probe_all assignments

    -- The fresh results of a cycle.
    unfoldable pub results_of : List D → Bool → Option (List AssignmentDto) → List PendingResult
    unfolding regional
    results_of defs pull_assignments fetched = map check defs ++ regional pull_assignments fetched

    -- The batch that is pushed, and the buffer afterwards; `accepted` is whether the push is `Ok`.
    unfoldable pub run_cycle :
        List D
        → PushBuffer
        → Bool
        → Option (List AssignmentDto)
        → Bool
        → List PendingResult × PushBuffer
    unfolding results_of
    run_cycle defs buffer pull_assignments fetched accepted =
        let (old, emptied) = drain buffer in
        let batch = old ++ results_of defs pull_assignments fetched in
        (batch, if accepted then emptied else push_back_all emptied batch)

-- `AgentError`, as far as the token is concerned, and what `read_to_string` gives.
pub data TokenError : Type 0 where
  token_file_read : String → String → TokenError
  token_file_empty : String → TokenError
  missing_token : TokenError

pub data Token : Type 0 where
  ok : String → Token
  err : TokenError → Token

pub data Read : Type 0 where
  contents : String → Read
  unreadable : String → Read

unfoldable pub token_in : String → Read → Token
token_in path (unreadable source) = err (token_file_read path source)
token_in path (contents text) =
    if is_empty (trim text) then err (token_file_empty path) else ok (trim text)

unfoldable pub resolve_token : (String → Read) → Option String → Option String → Token
unfolding token_in
resolve_token read_to_string (some token) token_file = ok token
resolve_token read_to_string none (some path) = token_in path (read_to_string path)
resolve_token read_to_string none none = err missing_token
