-- ===== src/Provider/Config.antt =====
-- `resolve` of crates/provider/src/config.rs: four layers of configuration over the defaults. The
-- environment is the function that looks a variable up; `decimal` is the `to_string` of `u64`.
pub mod Precedence
mod Tests
use monitra.Base.{ℕ, String, Option, none, some, List, [], ◌++◌}

pub record K8sClusterConfig : Type 0 where
  pub name : String
  pub kubeconfig : String
  pub context : Option String
  pub namespace : Option String

pub record ConfigFile : Type 0 where
  pub store : Option String
  pub cache : Option String
  pub notifier : Option String
  pub api_token : Option String
  pub retention_days : Option ℕ
  pub k8s : List K8sClusterConfig

pub data ConfigSource : Type 0 where
  default xdg project env flag : ConfigSource

pub record ResolvedField : Type 0 where
  pub value : Option String
  pub source : ConfigSource

abbrev pub default_value : ResolvedField
default_value = record { value = none; source = default }

pub record ResolvedConfig : Type 0 where
  pub store : ResolvedField
  pub cache : ResolvedField
  pub notifier : ResolvedField
  pub api_token : ResolvedField
  pub retention_days : ResolvedField
  pub k8s : List K8sClusterConfig

pub record FlagOverrides : Type 0 where
  pub store : Option String
  pub cache : Option String
  pub notifier : Option String
  pub retention_days : Option String

pub record ConfigSources : Type 0 where
  pub xdg : Option ConfigFile
  pub project : Option ConfigFile
  pub env : String → Option String
  pub flags : FlagOverrides

-- `if let Some(value)`, as it stands for a variable or a flag.
unfoldable pub overridden : ResolvedField → Option String → ConfigSource → ResolvedField
overridden current none source = current
overridden current (some value) source = record { value = some value; source = source }

-- `as_ref().and_then(pick)`.
unfoldable pub and_then : Option ConfigFile → (ConfigFile → Option String) → Option String
and_then none pick = none
and_then (some file) pick = pick file

unfoldable pub layer :
    ResolvedField → Option ConfigFile → ConfigSource → (ConfigFile → Option String) → ResolvedField
unfolding and_then overridden
layer current file source pick = overridden current (and_then file pick) source

abbrev pub clusters_of : Option ConfigFile → List K8sClusterConfig
clusters_of none = []
clusters_of (some file) = file.k8s

abbrev pub map_decimal : (ℕ → String) → Option ℕ → Option String
map_decimal decimal none = none
map_decimal decimal (some v) = some (decimal v)

-- The field is layered over the two files, in their order.
unfoldable pub layer_files : ConfigSources → (ConfigFile → Option String) → ResolvedField
unfolding layer
layer_files sources pick =
    layer (layer default_value sources.xdg xdg pick) sources.project project pick

unfoldable pub resolve : (ℕ → String) → ConfigSources → ResolvedConfig
unfolding layer_files overridden
resolve decimal sources =
    let days = layer_files sources (λ c. map_decimal decimal c.retention_days) in
    record {
      store =
          overridden
            (overridden (layer_files sources (λ c. c.store)) (sources.env "MONITRA_STORE") env)
            sources.flags.store flag;
      cache =
          overridden
            (overridden (layer_files sources (λ c. c.cache)) (sources.env "MONITRA_CACHE") env)
            sources.flags.cache flag;
      notifier =
          overridden
            (overridden (layer_files sources (λ c. c.notifier)) (sources.env "MONITRA_NOTIFIER")
              env)
            sources.flags.notifier flag;
      api_token =
          overridden (layer_files sources (λ c. c.api_token)) (sources.env "MONITRA_API_TOKEN") env;
      retention_days =
          overridden (overridden days (sources.env "MONITRA_RETENTION_DAYS") env)
            sources.flags.retention_days flag;
      k8s = clusters_of sources.xdg ++ clusters_of sources.project;
    }
