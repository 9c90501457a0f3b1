-- ===== src/Collector/Kubernetes/Health/Honesty.antt =====
-- A status is what the cluster said: unknown exactly if it said nothing definite.
use monitra.Base.{
  ℕ, ◌+◌, ◌<◌, String, ◌<>◌, ◌≡◌, refl, sym, ◌∙◌, zero, suc, Bool, true, false, ◌&&◌, ◌==◌, leb,
  ltb, Option, none, some, List, [], ◌∷◌, Bool-cases, inl, inr, arith, if◌then◌else◌,
}
use monitra.Models.{MonitorKind, k8s_deployment, k8s_stateful_set, k8s_service}
use monitra.Provider.Collector.{CollectorStatus, healthy, unhealthy, unknown, poll_collector_safely}
use monitra.Storage.Codec.{ℤ, pos}
use monitra.Storage.Rows.{int_leb}
use monitra.Collector.Kubernetes.Health.{
  Response, no_response, status, Body, Got, found, missing, failed, unwrap_or_zero, any_address,
  has_ready_address, not_found, got, get, replicas_of, replica_health, deployment_health,
  stateful_set_health, endpoints_of, service_of, service_health, polled, poll,
}

abbrev pub IsUnknown : CollectorStatus → Type 0
IsUnknown (unknown reason) = Unit
IsUnknown _ = ⊥

abbrev pub IsUnhealthy : CollectorStatus → Type 0
IsUnhealthy (unhealthy reason) = Unit
IsUnhealthy _ = ⊥

-- Of a response that came, by whether it is a 404, whether it is one of success, and the body that
-- was read.
abbrev pub SaidBy :
    (Body → CollectorStatus → Type 0) → Bool → Bool → Option Body → CollectorStatus → Type 0
SaidBy P true success body told = IsUnhealthy told
SaidBy P false true (some body) told = P body told
SaidBy P false true none told = IsUnknown told
SaidBy P false false body told = IsUnknown told

-- What a status has to be, by a response of the HTTP client and what a body of success says:
-- unhealthy if the answer is 404; unknown if there is no answer, if its code is neither 404 nor of
-- 200 to 299, or if its body cannot be read.
abbrev pub Said : (Body → CollectorStatus → Type 0) → Response → CollectorStatus → Type 0
Said P (no_response source) told = IsUnknown told
Said P (status code body) told = SaidBy P (code == 404) (leb 200 code && ltb code 300) body told

-- A number that is not there counts as 0.
abbrev pub count_of : Option ℤ → ℤ
count_of none = pos 0
count_of (some n) = n

-- Healthy if as many replicas are ready as are desired, and otherwise unhealthy.
abbrev pub ReplicasRead : Body → CollectorStatus → Type 0
ReplicasRead body healthy = int_leb (count_of body.replicas) (count_of body.ready_replicas) ≡ true
ReplicasRead body (unhealthy reason) =
    int_leb (count_of body.replicas) (count_of body.ready_replicas) ≡ false
ReplicasRead body (unknown reason) = ⊥

-- How many addresses are ready, in all subsets.
abbrev pub addresses_in : List (Option ℕ) → ℕ
addresses_in [] = 0
addresses_in (none ∷ subsets) = addresses_in subsets
addresses_in (some n ∷ subsets) = n + addresses_in subsets

abbrev pub ready_addresses : Option (List (Option ℕ)) → ℕ
ready_addresses none = 0
ready_addresses (some subsets) = addresses_in subsets

-- Healthy if some address is ready, and otherwise unhealthy.
abbrev pub EndpointsRead : Body → CollectorStatus → Type 0
EndpointsRead body healthy = 0 < ready_addresses body.subsets
EndpointsRead body (unhealthy reason) = ready_addresses body.subsets ≡ 0
EndpointsRead body (unknown reason) = ⊥

any-addresses_in : (subsets : List (Option ℕ)) → any_address subsets ≡ ltb 0 (addresses_in subsets)
unfolding any_address
any-addresses_in [] = refl
any-addresses_in (none ∷ subsets) = any-addresses_in subsets
any-addresses_in (some zero ∷ subsets) = ground (arith, any-addresses_in subsets)
any-addresses_in (some (suc n) ∷ subsets) = ground arith

has-ready_addresses :
    (subsets : Option (List (Option ℕ)))
    → has_ready_address subsets ≡ ltb 0 (ready_addresses subsets)
has-ready_addresses none = refl
has-ready_addresses (some subsets) = any-addresses_in subsets

some_ready : (n : ℕ) → ltb 0 n ≡ true → 0 < n
some_ready n h = ground arith

none_ready : (n : ℕ) → ltb 0 n ≡ false → n ≡ 0
none_ready n h = ground arith

unwrap-count_of : (n : Option ℤ) → unwrap_or_zero n ≡ count_of n
unwrap-count_of none = refl
unwrap-count_of (some n) = refl

module _ (show : ℕ → String) where
  -- The status that is told of the health that an answer gives.
  replicas_of-Read :
      (decimal : ℤ → String) (path : String) (body : Body)
      → ReplicasRead body
          (poll_collector_safely show (polled (replicas_of decimal path (found body))))
  unfolding replicas_of polled poll_collector_safely
  replicas_of-Read decimal path body =
      elim (Bool-cases
        (int_leb (unwrap_or_zero body.replicas) (unwrap_or_zero body.ready_replicas))) [
          | inl enough ↦ rw enough (
              rw (sym (unwrap-count_of body.replicas), sym (unwrap-count_of body.ready_replicas))
                enough)
          | inr fewer ↦ rw fewer (
              rw (sym (unwrap-count_of body.replicas), sym (unwrap-count_of body.ready_replicas))
                fewer)
        ]

  endpoints_of-Read :
      (path : String) (body : Body)
      → EndpointsRead body (poll_collector_safely show (polled (endpoints_of path (found body))))
  unfolding endpoints_of polled poll_collector_safely
  endpoints_of-Read path body = elim (Bool-cases (has_ready_address body.subsets)) [
    | inl ready ↦ rw ready (some_ready _ (sym (has-ready_addresses body.subsets) ∙ ready))
    | inr idle ↦ rw idle (none_ready _ (sym (has-ready_addresses body.subsets) ∙ idle))
  ]

  module _ (unexpected unreadable : String → ℕ → String) (decimal : ℤ → String)
      (respond : String → Response) where
    -- What is made of a response, where no answer is made unknown, and a missing one unhealthy.
    got-Said :
        (P : Body → CollectorStatus → Type 0) (path : String) (told : Got → CollectorStatus)
        → ((source : String) → IsUnknown (told (failed source)))
        → IsUnhealthy (told missing)
        → ((body : Body) → P body (told (found body)))
        → (response : Response)
        → Said P response (told (got unexpected unreadable decimal respond path response))
    unfolding got
    got-Said P path told no_answer absent read (no_response source) = no_answer source
    got-Said P path told no_answer absent read (status code body) =
        by_code (code == 404) (leb 200 code && ltb code 300) body
      where
        by_code :
            (gone success : Bool) (body : Option Body)
            → SaidBy P gone success body (
                told (
                  if gone
                  then missing
                  else (if success
                      then elim body [ none ↦ failed (unreadable path code) | some b ↦ found b ]
                      else failed (unexpected path code))))
        by_code true success body = absent
        by_code false true none = no_answer _
        by_code false true (some b) = read b
        by_code false false body = no_answer _

    -- The status of a poll is what the responses of the cluster say. Of a deployment and of a stateful
    -- set: unhealthy if the answer is 404; unknown if there is none, or its code is neither that nor
    -- of 200 to 299, or its body cannot be read; and else healthy exactly if as many replicas are
    -- ready as are desired, a number that is not there counting as 0. Of a service, in the same way
    -- by its own answer, and if that can be read by the answer on its endpoints: healthy exactly if
    -- some address is ready.
    pub poll-Said :
        (debug : MonitorKind → String) (namespace name : String)
        → let told = λ (kind : MonitorKind).
          poll_collector_safely show
            (poll unexpected unreadable decimal respond debug namespace name kind) in
          Said ReplicasRead
            (respond ("/apis/apps/v1/namespaces/" <> namespace <> "/deployments/" <> name))
            (told k8s_deployment)
          × Said ReplicasRead
              (respond ("/apis/apps/v1/namespaces/" <> namespace <> "/statefulsets/" <> name))
              (told k8s_stateful_set)
          × Said
              (λ service.
                Said EndpointsRead
                  (respond ("/api/v1/namespaces/" <> namespace <> "/endpoints/" <> name)))
              (respond ("/api/v1/namespaces/" <> namespace <> "/services/" <> name))
              (told k8s_service)
    unfolding poll deployment_health stateful_set_health service_health replica_health get polled
        poll_collector_safely replicas_of endpoints_of service_of not_found
    poll-Said debug namespace name =
        let replicas = λ (path : String).
          got-Said ReplicasRead path
            (λ answer. poll_collector_safely show (polled (replicas_of decimal path answer)))
            (λ source. tt) tt (replicas_of-Read decimal path) (respond path) in
        let svc_path = "/api/v1/namespaces/" <> namespace <> "/services/" <> name in
        let ep_path = "/api/v1/namespaces/" <> namespace <> "/endpoints/" <> name in
        (
          replicas ("/apis/apps/v1/namespaces/" <> namespace <> "/deployments/" <> name),
          replicas ("/apis/apps/v1/namespaces/" <> namespace <> "/statefulsets/" <> name),
          got-Said (λ service. Said EndpointsRead (respond ep_path)) svc_path
              (λ answer.
                poll_collector_safely show (
                  polled
                    (service_of unexpected unreadable decimal respond svc_path ep_path answer)))
              (λ source. tt) tt
              (λ service.
                got-Said EndpointsRead ep_path
                  (λ answer. poll_collector_safely show (polled (endpoints_of ep_path answer)))
                  (λ source. tt) tt (endpoints_of-Read ep_path) (respond ep_path))
              (respond svc_path),
        )
