-- ===== src/Collector/Kubernetes/Health/Tests.antt =====
-- A poll of a cluster, and an instance of the theorem.
use monitra.Base.{ℕ, String, ◌≡◌, refl, some, none, str_eq, if◌then◌else◌, [], ◌∷◌}
use monitra.Models.{MonitorKind, k8s_deployment, k8s_stateful_set, k8s_service}
use monitra.Provider.Collector.{healthy, poll_collector_safely}
use monitra.Storage.Codec.{ℤ, pos}
use monitra.Collector.Kubernetes.Health.{
  Response, status, no_response, Body, get, got, deployment_health, poll, polled, replica_health,
  replicas_of,
}
use monitra.Collector.Kubernetes.Health.Honesty.{Said, ReplicasRead, EndpointsRead, poll-Said}

abbrev body : Body
body = record {
  replicas = some (pos 2);
  ready_replicas = some (pos 2);
  subsets = some (none ∷ some 1 ∷ []);
}

-- Deployments are there, and nothing else answers.
abbrev respond : String → Response
respond path =
    if str_eq path "/apis/apps/v1/namespaces/shop/deployments/web"
    then status 200 (some body)
    else no_response "connection refused"

abbrev shown : String → ℕ → String
shown path code = path

abbrev decimal : ℤ → String
decimal n = "n"

abbrev debug : MonitorKind → String
debug kind = "kind"

abbrev number : ℕ → String
number n = "n"

deployment_is_healthy :
    poll_collector_safely number
      (poll shown shown decimal respond debug "shop" "web" k8s_deployment)
    ≡ healthy
unfolding poll poll_collector_safely polled deployment_health replica_health replicas_of get got
deployment_is_healthy = refl

poll-Said_example :
    let told = λ (kind : MonitorKind).
      poll_collector_safely number (poll shown shown decimal respond debug "shop" "web" kind) in
    Said ReplicasRead
      (respond "/apis/apps/v1/namespaces/shop/deployments/web")
      (told k8s_deployment)
    × Said ReplicasRead
        (respond "/apis/apps/v1/namespaces/shop/statefulsets/web")
        (told k8s_stateful_set)
    × Said
        (λ service. Said EndpointsRead (respond "/api/v1/namespaces/shop/endpoints/web"))
        (respond "/api/v1/namespaces/shop/services/web")
        (told k8s_service)
poll-Said_example = poll-Said number shown shown decimal respond debug "shop" "web"
