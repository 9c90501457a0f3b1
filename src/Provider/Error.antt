-- ===== src/Provider/Error.antt =====
-- The errors of the pluggable services, crates/provider/src/category.rs and error.rs.
use monitra.Base.{ℕ, String, ◌<>◌}

-- category.rs
pub data ProviderCategory : Type 0 where
  store cache notifier collector : ProviderCategory

pub category : ProviderCategory → String
category store = "store"
category cache = "cache"
category notifier = "notifier"
category collector = "collector"

-- error.rs; a source error of another library is the text that it displays as.
pub data ProviderError : Type 0 where
  config_read : String → String → ProviderError
  config_write : String → String → ProviderError
  config_parse : String → String → ProviderError
  config_serialize : String → String → ProviderError
  unknown_scheme : String → ProviderError
  unsupported_scheme : String → ProviderError
  unavailable : ProviderCategory → String → ProviderError
  operation : ProviderCategory → String → ProviderError
  not_found : ProviderCategory → String → ℕ → ProviderError

-- `Display`; `decimal` prints a number.
unfoldable pub to_string : (ℕ → String) → ProviderError → String
unfolding category
to_string decimal (config_read path source) =
    "provider: config: failed to read " <> path <> ": " <> source
to_string decimal (config_write path source) =
    "provider: config: failed to write " <> path <> ": " <> source
to_string decimal (config_parse path source) =
    "provider: config: " <> path <> " is not valid TOML: " <> source
to_string decimal (config_serialize path source) =
    "provider: config: failed to serialize config for " <> path <> ": " <> source
to_string decimal (unknown_scheme scheme) =
    "provider: registry: " <> scheme
    <> " is not a recognized provider scheme (supported: slack, webhook)"
to_string decimal (unsupported_scheme scheme) =
    "provider: registry: " <> scheme
    <> " is not supported yet; no provider is implemented for this scheme"
to_string decimal (unavailable c detail) = "provider: " <> category c <> ": unavailable: " <> detail
to_string decimal (operation c detail) =
    "provider: " <> category c <> ": operation failed: " <> detail
to_string decimal (not_found c entity id) =
    "provider: " <> category c <> ": " <> entity <> " " <> decimal id <> " not found"
