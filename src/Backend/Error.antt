-- ===== src/Backend/Error.antt =====
-- crates/backend/src/error.rs: what a handler's error is to the client. `decimal` prints a number.
use monitra.Base.{ℕ, String}
use monitra.Provider.Error.{ProviderError, unavailable, not_found as provider_not_found, to_string}
use monitra.Provider.Cache.{Answer, ok as answered, err as refused}

pub data ApiError : Type 0 where
  not_found : ApiError
  validation : String → ApiError
  provider : ProviderError → ApiError

-- The status codes that the handlers give.
pub data StatusCode : Type 0 where
  ok created no_content bad_request not_found_404 service_unavailable internal_server_error :
      StatusCode

-- `From<ProviderError>`.
unfoldable pub from : ProviderError → ApiError
from (provider_not_found category entity id) = not_found
from other = provider other

unfoldable pub into_response : (ℕ → String) → ApiError → StatusCode × String
into_response decimal not_found = (not_found_404, "not found")
into_response decimal (validation message) = (bad_request, message)
into_response decimal (provider (unavailable category detail)) = (service_unavailable, detail)
into_response decimal (provider other) = (internal_server_error, to_string decimal other)

-- What a handler returns.
pub data Reply {ℓ} (A : Type ℓ) : Type ℓ where
  ok_with : StatusCode → A → Reply A
  error : ApiError → Reply A

-- `.await?`, and then the handler's status with the body that it makes of the value.
unfoldable pub reply {ℓ κ} : {A : Type ℓ} {B : Type κ} → StatusCode → (A → B) → Answer A → Reply B
unfolding from
reply status body (answered value) = ok_with status (body value)
reply status body (refused source) = error (from source)

-- The status code of a reply, as the client sees it.
unfoldable pub status_of {ℓ} : {A : Type ℓ} → (ℕ → String) → Reply A → StatusCode
unfolding into_response
status_of decimal (ok_with status value) = status
status_of decimal (error e) = (into_response decimal e).0
