-- ===== src/Provider/Config/Precedence.antt =====
-- Which layer of the configuration wins.
use monitra.Base.{ℕ, String, ◌≡◌, Option, none, some, List, [], ◌∷◌, arith}
use monitra.Provider.Config.{
  ConfigFile, ConfigSource, xdg, project, env, flag, ResolvedField, default_value, ConfigSources,
  overridden, and_then, layer, layer_files, map_decimal, resolve,
}

-- The first of the layers that has the field, with its name.
abbrev pub first_of : List (ConfigSource × Option String) → ResolvedField
first_of [] = default_value
first_of ((source, none) ∷ layers) = first_of layers
first_of ((source, some value) ∷ layers) = record { value = some value; source = source }

-- What a field is to be: from a flag, from the environment, the project's file, or the user's.
abbrev pub highest :
    ConfigSources → (ConfigFile → Option String) → Option String → Option String → ResolvedField
highest sources pick in_env in_flag = first_of (
    (flag, in_flag)
    ∷ (env, in_env)
    ∷ (project, and_then sources.project pick)
    ∷ (xdg, and_then sources.xdg pick)
    ∷ [])

overridden-highest :
    (sources : ConfigSources) (pick : ConfigFile → Option String) (in_env in_flag : Option String)
    → overridden (overridden (layer_files sources pick) in_env env) in_flag flag
      ≡ highest sources pick in_env in_flag
unfolding overridden layer_files layer
overridden-highest sources pick in_env in_flag = ground arith

-- Every field comes from the highest layer that has it and says so: a flag, then the environment,
-- then the project's file, then the user's, then the default. The token has no flag.
pub resolve-highest :
    (decimal : ℕ → String) (sources : ConfigSources)
    → let config = resolve decimal sources in
      (config.store
        ≡ highest sources (λ c. c.store) (sources.env "MONITRA_STORE") sources.flags.store)
      × (config.cache
          ≡ highest sources (λ c. c.cache) (sources.env "MONITRA_CACHE") sources.flags.cache)
      × (config.notifier
          ≡ highest sources
              (λ c. c.notifier)
              (sources.env "MONITRA_NOTIFIER")
              sources.flags.notifier)
      × (config.api_token
          ≡ highest sources (λ c. c.api_token) (sources.env "MONITRA_API_TOKEN") none)
      × (config.retention_days
          ≡ highest sources
              (λ c. map_decimal decimal c.retention_days)
              (sources.env "MONITRA_RETENTION_DAYS")
              sources.flags.retention_days)
unfolding resolve
resolve-highest decimal sources = (
  overridden-highest sources (λ c. c.store) (sources.env "MONITRA_STORE") sources.flags.store,
  overridden-highest sources (λ c. c.cache) (sources.env "MONITRA_CACHE") sources.flags.cache,
  overridden-highest sources (λ c. c.notifier) (sources.env "MONITRA_NOTIFIER")
      sources.flags.notifier,
  overridden-highest sources (λ c. c.api_token) (sources.env "MONITRA_API_TOKEN") none,
  overridden-highest sources (λ c. map_decimal decimal c.retention_days)
      (sources.env "MONITRA_RETENTION_DAYS") sources.flags.retention_days,
)
