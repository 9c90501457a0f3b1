-- ===== src/Probe.antt =====
-- crates/probe/src/lib.rs: the outcome of one probe, and the kinds that run as network probes.
-- `TryFrom` with the error `()` is an `Option`.
use monitra.Base.{ℕ, String, Option, none, some}
use monitra.Models.{MonitorKind, k8s_deployment, k8s_stateful_set, k8s_service, host_agent_check}

pub data ProbeOutcome : Type 0 where
  success : ℕ → ProbeOutcome
  failure : String → ProbeOutcome
  unavailable : String → ProbeOutcome

pub data NetworkProbeKind : Type 0 where
  http tcp icmp : NetworkProbeKind

abbrev pub try_from : MonitorKind → Option NetworkProbeKind
try_from MonitorKind.http = some NetworkProbeKind.http
try_from MonitorKind.tcp = some NetworkProbeKind.tcp
try_from MonitorKind.icmp = some NetworkProbeKind.icmp
try_from k8s_deployment = none
try_from k8s_stateful_set = none
try_from k8s_service = none
try_from host_agent_check = none
