-- ===== src/Provider/Registry.antt =====
-- `category_for_scheme` of crates/provider/src/registry.rs: which service a URL attaches.
pub mod Laws
mod Tests
use monitra.Base.{String, Bool, Option, none, some, ◌||◌, str_eq as ◌==◌, if◌then◌else◌}
use monitra.Base.Text.{split_once}
use monitra.Provider.Error.{
  ProviderCategory, notifier, ProviderError, unknown_scheme, unsupported_scheme,
}

pub data Category : Type 0 where
  ok : ProviderCategory → Category
  err : ProviderError → Category

-- What stands before `://`, or all of the text.
unfoldable pub scheme_of : String → Option (String × String) → String
scheme_of url none = url
scheme_of url (some (scheme, rest)) = scheme

unfoldable pub category_of : String → Category
category_of scheme =
    if scheme == "postgres" || scheme == "postgresql"
    then err (unsupported_scheme "postgres/postgresql")
    else (if scheme == "redis"
        then err (unsupported_scheme "redis")
        else (if scheme == "slack" || scheme == "webhook"
            then ok notifier
            else err (unknown_scheme scheme)))

unfoldable pub category_for_scheme : String → Category
unfolding scheme_of category_of
category_for_scheme url = category_of (scheme_of url (split_once "://" url))
