-- ===== src/Engine/Writer/Tests.antt =====
-- Three results in batches of two, and an instance of the theorem.
use monitra.Base.{ℕ, Bool, false, none, List, [], ◌∷◌}
use monitra.Models.{CheckResult}
use monitra.Engine.Writer.{Event, received, tick}

-- A store that loses every batch.
abbrev lossy : Unit {0} → List CheckResult → Bool × Unit {0}
lossy s batch = (false, s)

abbrev result : ℕ → CheckResult
result id = record {
  monitor_id = id;
  checked_at = 5;
  success = false;
  latency_ms = 0;
  message = none;
}

abbrev events : List Event
events = received (result 1) ∷ received (result 2) ∷ tick ∷ received (result 3) ∷ []

abbrev log : List (List CheckResult)
log = (result 1 ∷ result 2 ∷ []) ∷ (result 3 ∷ []) ∷ []
