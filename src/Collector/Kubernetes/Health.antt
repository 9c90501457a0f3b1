-- ===== src/Collector/Kubernetes/Health.antt =====
-- `K8sApiClient` and `K8sCollector::poll`, client.rs and lib.rs of crates/collector-kubernetes/src.
pub mod Honesty
mod Tests
use monitra.Base.{
  ℕ, zero, suc, String, ◌<>◌, Bool, true, false, ◌&&◌, not, Option, none, some, List, [], ◌∷◌, ltb,
  leb, ◌==◌, if◌then◌else◌,
}
use monitra.Models.{
  MonitorKind, http, tcp, icmp, k8s_deployment, k8s_stateful_set, k8s_service, host_agent_check,
}
use monitra.Provider.Error.{ProviderError, collector, unavailable, operation}
use monitra.Provider.Collector.{CollectorStatus, healthy, unhealthy, Polled, ok, err}
use monitra.Storage.Codec.{ℤ, pos}
use monitra.Storage.Rows.{int_leb}

-- A JSON body: the integers at `spec.replicas` and `status.readyReplicas`, and for each entry of
-- `subsets` the length of its `addresses`; each if it is there and of its type.
pub record Body : Type 0 where
  pub replicas : Option ℤ
  pub ready_replicas : Option ℤ
  pub subsets : Option (List (Option ℕ))

-- What the HTTP client gives: no response, or a status with the body, if that is read as JSON.
pub data Response : Type 0 where
  no_response : String → Response
  status : ℕ → Option Body → Response

-- `Result<Option<Value>, Error>`; an error is the text that it displays as.
pub data Got : Type 0 where
  found : Body → Got
  missing : Got
  failed : String → Got

abbrev pub is_success : ℕ → Bool
is_success code = leb 200 code && ltb code 300

abbrev pub unwrap_or_zero : Option ℤ → ℤ
unwrap_or_zero none = pos 0
unwrap_or_zero (some n) = n

-- `addresses` of some subset is an array that is not empty.
unfoldable pub any_address : List (Option ℕ) → Bool
any_address [] = false
any_address (none ∷ subsets) = any_address subsets
any_address (some zero ∷ subsets) = any_address subsets
any_address (some (suc n) ∷ subsets) = true

abbrev pub has_ready_address : Option (List (Option ℕ)) → Bool
has_ready_address none = false
has_ready_address (some subsets) = any_address subsets

-- `Result<ResourceHealth, Error>`.
pub data Health : Type 0 where
  well : Health
  unwell : String → Health
  error : String → Health

unfoldable pub not_found : String → Health
not_found path = unwell (path <> " not found")

-- `decimal` prints an `i64`.
unfoldable pub replicas_of : (ℤ → String) → String → Got → Health
unfolding not_found
replicas_of decimal path (failed source) = error source
replicas_of decimal path missing = not_found path
replicas_of decimal path (found body) =
    let desired = unwrap_or_zero body.replicas in
    let ready = unwrap_or_zero body.ready_replicas in
    if int_leb desired ready
    then well
    else unwell (decimal ready <> "/" <> decimal desired <> " replicas ready")

unfoldable pub endpoints_of : String → Got → Health
unfolding not_found any_address
endpoints_of path (failed source) = error source
endpoints_of path missing = not_found path
endpoints_of path (found body) =
    if has_ready_address body.subsets
    then well
    else unwell "service has no ready endpoint addresses"

-- The last `match` of `poll`.
unfoldable pub polled : Health → Polled
polled well = ok healthy
polled (unwell reason) = ok (unhealthy reason)
polled (error source) = err (unavailable collector source)

-- The parameters display an unexpected status, an unreadable body, and an `i64`.
module _ (unexpected unreadable : String → ℕ → String) (decimal : ℤ → String)
    (respond : String → Response) where
  unfoldable pub got : String → Response → Got
  got path (no_response source) = failed source
  got path (status code body) =
      if code == 404
      then missing
      else (if is_success code
          then elim body [ none ↦ failed (unreadable path code) | some b ↦ found b ]
          else failed (unexpected path code))

  unfoldable pub get : String → Got
  unfolding got
  get path = got path (respond path)

  unfoldable pub replica_health : String → Health
  unfolding get replicas_of
  replica_health path = replicas_of decimal path (get path)

  unfoldable pub deployment_health : String → String → Health
  unfolding replica_health
  deployment_health namespace name =
      replica_health ("/apis/apps/v1/namespaces/" <> namespace <> "/deployments/" <> name)

  unfoldable pub stateful_set_health : String → String → Health
  unfolding replica_health
  stateful_set_health namespace name =
      replica_health ("/apis/apps/v1/namespaces/" <> namespace <> "/statefulsets/" <> name)

  -- The endpoints are asked for only if the service is there.
  unfoldable pub service_of : String → String → Got → Health
  unfolding not_found get endpoints_of
  service_of svc_path ep_path (failed source) = error source
  service_of svc_path ep_path missing = not_found svc_path
  service_of svc_path ep_path (found body) = endpoints_of ep_path (get ep_path)

  unfoldable pub service_health : String → String → Health
  unfolding service_of get
  service_health namespace name =
      let svc_path = "/api/v1/namespaces/" <> namespace <> "/services/" <> name in
      let ep_path = "/api/v1/namespaces/" <> namespace <> "/endpoints/" <> name in
      service_of svc_path ep_path (get svc_path)

  -- `debug` prints a kind.
  unfoldable pub poll : (MonitorKind → String) → String → String → MonitorKind → Polled
  unfolding polled deployment_health stateful_set_health service_health
  poll debug namespace name k8s_deployment = polled (deployment_health namespace name)
  poll debug namespace name k8s_stateful_set = polled (stateful_set_health namespace name)
  poll debug namespace name k8s_service = polled (service_health namespace name)
  poll debug namespace name kind =
      err
        (operation collector ("collector-kubernetes: not a Kubernetes MonitorKind: " <> debug kind))
