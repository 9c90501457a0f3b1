-- ===== src/Backend/Regions.antt =====
-- `region_aggregates` and `p95_latency_ms` of crates/backend/src/service.rs. The iteration order of
-- the map of groups and `(n as f64 * 0.95).ceil()` are parameters.
pub mod Rank
pub mod Keys
pub mod Groups
mod Tests
use Prim.Native.Char.{code}
use Prim.Native.String
use monitra.Base.{
  ℕ, zero, suc, ◌+◌, ◌-◌, String, Bool, true, false, not, ◌&&◌, Option, none, some, List, [], ◌∷◌,
  ◌++◌, map, filter, length, min, ltb, leb, ◌==◌, str_eq, if◌then◌else◌,
}
use monitra.Base.Dict.{Dict, lookup, insert}
use monitra.Base.Sort.{sort}
use monitra.Models.{
  Monitor, MonitorKind, http, tcp, icmp, k8s_deployment, k8s_stateful_set, k8s_service,
  host_agent_check, Agent, CheckResult,
}
use monitra.Provider.Cache.{Answer, ok, err}
use monitra.Provider.Store.{Store}

pub record RegionAggregate : Type 0 where
  pub target : String
  pub kind : MonitorKind
  pub region : String
  pub monitor_count : ℕ
  pub probe_count : ℕ
  pub failure_count : ℕ
  pub p95_latency_ms : ℕ

-- `latencies[index]`; out of range the program panics.
unfoldable pub index_of {ℓ} : {A : Type ℓ} → List A → ℕ → Option A
index_of [] i = none
index_of (x ∷ xs) zero = some x
index_of (x ∷ xs) (suc i) = index_of xs i

unfoldable pub nearest : (ℕ → ℕ) → List ℕ → Option ℕ
unfolding index_of
nearest ceil_95 [] = some 0
nearest ceil_95 (x ∷ xs) =
    let latencies = sort leb (x ∷ xs) in
    index_of latencies (min (ceil_95 (length latencies) - 1) (length latencies - 1))

abbrev pub latencies_of : List CheckResult → List ℕ
latencies_of results = map CheckResult.latency_ms (filter CheckResult.success results)

unfoldable pub p95_latency_ms : (ℕ → ℕ) → List CheckResult → Option ℕ
unfolding nearest
p95_latency_ms ceil_95 results = nearest ceil_95 (latencies_of results)

-- The kinds that are told apart as keys of the map.
abbrev pub kind_code : MonitorKind → ℕ
kind_code http = 0
kind_code tcp = 1
kind_code icmp = 2
kind_code k8s_deployment = 3
kind_code k8s_stateful_set = 4
kind_code k8s_service = 5
kind_code host_agent_check = 6

-- `matches!(monitor.kind, Http | Tcp | Icmp)`.
abbrev pub is_network : MonitorKind → Bool
is_network http = true
is_network tcp = true
is_network icmp = true
is_network _ = false

unfoldable pub region_by_agent_id : List Agent → Dict String
region_by_agent_id agents = collect [] agents
  where
    collect : Dict String → List Agent → Dict String
    collect regions [] = regions
    collect regions (agent ∷ rest) =
        collect
          (elim agent.region [ none ↦ regions | some region ↦ insert agent.id region regions ]) rest

abbrev pub Key : Type 0
Key = String × MonitorKind × String

unfoldable pub same_key : Key → Key → Bool
same_key (target, kind, region) (target', kind', region') =
    str_eq target target' && kind_code kind == kind_code kind' && str_eq region region'

-- An entry of the map: the key, the count of monitors, and their results.
pub record Group : Type 0 where
  pub key : Key
  pub monitor_count : ℕ
  pub results : List CheckResult

-- `.entry(key).or_insert_with(…)`, and the update of the entry.
unfoldable pub add_to : Key → List CheckResult → List Group → List Group
unfolding same_key
add_to key results [] = record { key = key; monitor_count = 1; results = results } ∷ []
add_to key results (group ∷ groups) =
    let rest = add_to key results groups in
    if same_key group.key key
    then record group {
      monitor_count = group.monitor_count + 1;
      results = group.results ++ results;
    }
      ∷ groups
    else group ∷ rest

abbrev pub region_of : Dict String → Option ℕ → Option String
region_of regions none = none
region_of regions (some agent_id) = lookup agent_id regions

-- The key of the group that a monitor contributes to, if it does.
unfoldable pub key_of : Dict String → Monitor → Option Key
key_of regions monitor = elim (region_of regions monitor.agent_id) [
  | none ↦ none
  | some region ↦
      if is_network monitor.kind then some (monitor.target, monitor.kind, region) else none
]

-- One round of the loop over the monitors, of the key of the monitor and what the store answers of
-- its results.
unfoldable pub group_monitor :
    Option Key → Answer (List CheckResult) → List Group → Answer (List Group)
unfolding add_to
group_monitor none answer groups = ok groups
group_monitor (some key) (err error) groups = err error
group_monitor (some key) (ok results) groups = ok (add_to key results groups)

-- `?`.
unfoldable pub and_then :
    Answer (List Group) → (List Group → Answer (List Group)) → Answer (List Group)
and_then (err error) next = err error
and_then (ok groups) next = next groups

unfoldable pub group_monitors :
    (ℕ → Answer (List CheckResult)) → Dict String → List Monitor → List Group → Answer (List Group)
unfolding key_of group_monitor and_then
group_monitors results_of regions [] groups = ok groups
group_monitors results_of regions (monitor ∷ monitors) groups =
    and_then (group_monitor (key_of regions monitor) (results_of monitor.id) groups)
      (group_monitors results_of regions monitors)

unfoldable pub aggregate : (ℕ → ℕ) → Group → Option RegionAggregate
unfolding p95_latency_ms
aggregate ceil_95 group = elim (p95_latency_ms ceil_95 group.results) [
  | none ↦ none
  | some p95 ↦ some (record {
    target = group.key.0;
    kind = group.key.1;
    region = group.key.2;
    monitor_count = group.monitor_count;
    probe_count = length group.results;
    failure_count = length (filter (λ r. not (CheckResult.success r)) group.results);
    p95_latency_ms = p95;
  })
]

-- The order of strings, by their characters.
unfoldable pub str_leb : String → String → Bool
str_leb String.[] t = true
str_leb (String.◌∷◌ c s) String.[] = false
str_leb (String.◌∷◌ c s) (String.◌∷◌ d t) =
    let rest = str_leb s t in
    if ltb (code c) (code d) then true else (if code c == code d then rest else false)

-- `(&a.target, &a.region).cmp(&(&b.target, &b.region))` is not `Greater`.
unfoldable pub before : RegionAggregate → RegionAggregate → Bool
unfolding str_leb
before a b =
    if str_eq a.target b.target then str_leb a.region b.region else str_leb a.target b.target

-- `.map(…)` over the groups, where a panic of one is a panic of all.
unfoldable pub map_all {ℓ κ} : {A : Type ℓ} {B : Type κ} → (A → Option B) → List A → Option (List B)
map_all f [] = some []
map_all f (x ∷ xs) =
    let rest = map_all f xs in
    elim (f x) [ none ↦ none | some y ↦ elim rest [ none ↦ none | some ys ↦ some (y ∷ ys) ] ]

abbrev pub sorted_all : Option (List RegionAggregate) → Option (List RegionAggregate)
sorted_all none = none
sorted_all (some aggregates) = some (sort before aggregates)

-- The outer answer is the store's; within it `none` is a panic.
module _ {S : Type 0} (ops : Store S) (ceil_95 : ℕ → ℕ) (iterate : List Group → List Group) where
  unfoldable pub region_aggregates : S → Option ℕ → Answer (Option (List RegionAggregate))
  unfolding region_by_agent_id group_monitors map_all aggregate before
  region_aggregates s since = elim (ops.list_monitors s) [
    | err error ↦ err error
    | ok monitors ↦ elim (ops.list_agents s) [
      | err error ↦ err error
      | ok agents ↦
          elim (group_monitors (λ id. ops.list_check_results s id since) (region_by_agent_id agents)
            monitors []) [
              | err error ↦ err error
              | ok groups ↦ ok (sorted_all (map_all (aggregate ceil_95) (iterate groups)))
            ]
    ]
  ]
