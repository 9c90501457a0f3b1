-- ===== src/Startup/Boot.antt =====
-- `boot_daemon` of src/main.rs up to the start of the engine, and the endpoints of the notifiers of
-- crates/notify-webhook and crates/notify-slack: which configurations a daemon starts with. What the
-- file system, the parser of numbers and the random generator give are parameters.
pub mod Sinks
pub mod Guards
mod Tests
use monitra.Base.{
  ℕ, ◌*◌, String, ◌<>◌, Bool, true, false, ◌&&◌, Option, none, some, List, map, leb, if◌then◌else◌,
  is_some,
}
use monitra.Base.Text.{strip_prefix}
use monitra.Provider.Config.{ResolvedConfig, K8sClusterConfig}

-- `Result<_, String>`.
pub data Outcome {ℓ} (A : Type ℓ) : Type ℓ where
  ok : A → Outcome A
  err : String → Outcome A

unfoldable pub and_then {ℓ κ} : {A : Type ℓ} {B : Type κ} → Outcome A → (A → Outcome B) → Outcome B
and_then (err error) next = err error
and_then (ok value) next = next value

abbrev pub store_error : String
store_error =
    "store: configured external store is unsupported; only embedded SQLite is available. Remove the configured value (`monitra service detach store` clears XDG config)"

abbrev pub cache_error : String
cache_error =
    "cache: configured external cache is unsupported; only the in-process cache is available. Remove the configured value (`monitra service detach cache` clears XDG config)"

-- `open_store`, of what opening the database gives.
unfoldable pub open_store {ℓ} : {D : Type ℓ} → Option String → Outcome D → Outcome D
open_store (some url) opened = err store_error
open_store none opened = opened

unfoldable pub build_cache : Option String → Outcome (Unit {0})
build_cache (some url) = err cache_error
build_cache none = ok tt

-- `webhook://host/path` to `https://host/path`, and the same for `slack://`.
unfoldable pub to_endpoint : String → String → String
to_endpoint scheme url = elim (strip_prefix scheme url) [
  | some rest ↦ "https://" <> rest
  | none ↦ url
]

-- Which sink delivers, and where to.
pub data Sink : Type 0 where
  log : Sink
  webhook slack : String → Sink

-- `slack` tells whether the build has the feature.
unfoldable pub build_slack_notifier : Bool → String → Outcome Sink
unfolding to_endpoint
build_slack_notifier true url = ok (slack (to_endpoint "slack://" url))
build_slack_notifier false url =
    err
      "notifier: 'slack://' is configured but this build does not have the 'slack' feature enabled"

unfoldable pub build_notifier : Bool → Option String → Outcome Sink
unfolding to_endpoint build_slack_notifier
build_notifier has_slack none = ok log
build_notifier has_slack (some url) =
    if is_some (strip_prefix "webhook://" url)
    then ok (webhook (to_endpoint "webhook://" url))
    else (if is_some (strip_prefix "slack://" url)
        then build_slack_notifier has_slack url
        else err (
            "notifier: '" <> url
            <> "' is not a recognized notifier URL (expected webhook:// or slack://)"))

abbrev pub unwrap_or_seven : Option String → String
unwrap_or_seven none = "7"
unwrap_or_seven (some days) = days

-- The days in seconds, of what `parse::<u64>` gives.
unfoldable pub retention_of : Outcome ℕ → Outcome ℕ
retention_of (err error) = err ("config: retention_days must be an integer in 1..=3650: " <> error)
retention_of (ok days) =
    if leb 1 days && leb days 3650
    then ok (days * 86400)
    else err "config: retention_days must be in 1..=3650"

-- The token that is configured, or the one that is generated and written.
unfoldable pub resolve_or_generate_token : Option String → Outcome String → Outcome String
resolve_or_generate_token (some token) generated = ok token
resolve_or_generate_token none generated = generated

-- What the engine and the router are started with.
pub record Settings (D : Type 0) : Type 0 where
  pub store : D
  pub retention_secs : ℕ
  pub token : String
  pub sink : Sink
  pub k8s_clusters : List String

-- What the environment of the process gives, in the order in which it is asked: the database, the
-- number of days, a token that is generated, and the store's health.
pub record Given (D : Type 0) : Type 0 where
  pub opened : Outcome D
  pub parse : String → Outcome ℕ
  pub generated : Outcome String
  pub healthy : D → Outcome (Unit {0})

-- The store was opened with the configuration `at_first`, which has no flags.
unfoldable pub boot_daemon :
    {D : Type 0} → Bool → ResolvedConfig → ResolvedConfig → Given D → Outcome (Settings D)
unfolding and_then open_store build_cache build_notifier retention_of resolve_or_generate_token
boot_daemon has_slack at_first resolved given =
    and_then (open_store at_first.store.value given.opened) λ store.
      and_then (retention_of (given.parse (unwrap_or_seven resolved.retention_days.value))) λ secs.
        and_then (build_cache resolved.cache.value) λ done.
          and_then (resolve_or_generate_token resolved.api_token.value given.generated) λ token.
            and_then (build_notifier has_slack resolved.notifier.value) λ sink.
              and_then (given.healthy store) λ well. ok (record {
                store = store;
                retention_secs = secs;
                token = token;
                sink = sink;
                k8s_clusters = map K8sClusterConfig.name resolved.k8s;
              })
