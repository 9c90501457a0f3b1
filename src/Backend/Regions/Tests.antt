-- ===== src/Backend/Regions/Tests.antt =====
-- Instances of the theorems on regional aggregates.
use monitra.Base.{
  ℕ, ◌+◌, ◌*◌, ◌/◌, ◌≡◌, refl, Bool, true, false, String, none, some, List, [], ◌∷◌, arith,
}
use monitra.Base.Dict.{Dict, lookup}
use monitra.Models.{Monitor, MonitorKind, http, k8s_service, up, CheckResult}
use monitra.Provider.Cache.{ok}
use monitra.Backend.Regions.{p95_latency_ms, latencies_of, group_monitors}
use monitra.Backend.Regions.Rank.{IsP95, p95_latency_ms-IsP95}
use monitra.Backend.Regions.Groups.{IsGrouped, contributed, belongs, group_monitors-IsGrouped}

abbrev took : Bool → ℕ → CheckResult
took success latency_ms = record {
  monitor_id = 1;
  checked_at = 0;
  success = success;
  latency_ms = latency_ms;
  message = none;
}

-- What the product rounds up to, in whole numbers.
abbrev ceil_95 : ℕ → ℕ
ceil_95 n = (95 * n + 99) / 100

abbrev results : List CheckResult
results = took true 40 ∷ took false 0 ∷ took true 10 ∷ took true 30 ∷ []

p95_latency_ms-IsP95_example : IsP95 (latencies_of results) (p95_latency_ms ceil_95 results)
p95_latency_ms-IsP95_example = p95_latency_ms-IsP95 ceil_95 results (omega arith, omega arith)

abbrev watched : ℕ → MonitorKind → ℕ → Monitor
watched id kind agent_id = record {
  id = id;
  name = "m";
  target = "https://h";
  kind = kind;
  interval_secs = 60;
  status = up;
  agent_id = some agent_id;
}

abbrev monitors : List Monitor
monitors = watched 1 http 7 ∷ watched 2 k8s_service 7 ∷ watched 3 http 8 ∷ watched 4 http 7 ∷ []

abbrev regions : Dict String
regions = (7, "eu") ∷ (8, "us") ∷ []

abbrev results_of : ℕ → List CheckResult
results_of id = took true id ∷ []

-- Two of the monitors are of that key, and none of the other.
two_belong :
    (contributed results_of regions ("https://h", http, "eu") monitors
      ≡ some (2, took true 1 ∷ took true 4 ∷ []))
    × (contributed results_of regions ("https://h", k8s_service, "eu") monitors ≡ none)
unfolding contributed belongs lookup
two_belong = (refl, refl)

group_monitors-IsGrouped_example :
    IsGrouped
      (λ key. contributed results_of regions key monitors)
      (group_monitors (λ id. ok (results_of id)) regions monitors [])
group_monitors-IsGrouped_example = group_monitors-IsGrouped results_of regions monitors
