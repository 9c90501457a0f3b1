-- ===== src/Provider/Collector.antt =====
-- `CollectorStatus` of crates/provider/src/traits.rs and `poll_collector_safely` of policy.rs.
use monitra.Base.{ℕ, String}
use monitra.Provider.Error.{ProviderError, to_string}

pub data CollectorStatus : Type 0 where
  healthy : CollectorStatus
  unhealthy : String → CollectorStatus
  unknown : String → CollectorStatus

-- What a poll answers.
pub data Polled : Type 0 where
  ok : CollectorStatus → Polled
  err : ProviderError → Polled

unfoldable pub poll_collector_safely : (ℕ → String) → Polled → CollectorStatus
poll_collector_safely decimal (ok status) = status
poll_collector_safely decimal (err error) = CollectorStatus.unknown (to_string decimal error)
