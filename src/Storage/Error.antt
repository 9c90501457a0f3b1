-- ===== src/Storage/Error.antt =====
-- crates/storage/src/error.rs. An error of SQLite or of the runtime is the text that it displays as.
use monitra.Base.{ℕ, String, ◌<>◌}
use monitra.Provider.Error.{ProviderError, store, operation, not_found as provider_not_found}

pub data StorageError : Type 0 where
  open_failed : String → String → StorageError
  migration_failed : String → String → StorageError
  query_failed : String → StorageError
  corrupt_row : String → StorageError
  not_found : String → ℕ → StorageError
  task_join : String → StorageError

-- `Result<_, StorageError>`.
pub data Stored {ℓ} (A : Type ℓ) : Type ℓ where
  ok : A → Stored A
  err : StorageError → Stored A

module _ (decimal : ℕ → String) where
  -- `Display`.
  unfoldable pub to_string : StorageError → String
  to_string (open_failed path source) = "storage: failed to open " <> path <> ": " <> source
  to_string (migration_failed version source) =
      "storage: migration " <> version <> " failed: " <> source
  to_string (query_failed source) = "storage: query failed: " <> source
  to_string (corrupt_row detail) = "storage: corrupt row: " <> detail
  to_string (not_found entity id) = "storage: " <> entity <> " " <> decimal id <> " not found"
  to_string (task_join source) = "storage: background task failed: " <> source

  -- `From<StorageError> for ProviderError`.
  unfoldable pub into : StorageError → ProviderError
  unfolding to_string
  into (not_found entity id) = provider_not_found store entity id
  into other = operation store (to_string other)
