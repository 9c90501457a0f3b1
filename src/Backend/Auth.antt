-- ===== src/Backend/Auth.antt =====
-- crates/backend/src/auth.rs: which requests pass. Bytes are numbers below 256; how the HTTP library
-- reads a header as text, and the UTF-8 bytes of a text, are parameters.
pub mod Decision
mod Tests
use monitra.Base.{
  ℕ, zero, suc, ◌+◌, ◌*◌, ◌/◌, ◌%◌, String, Bool, true, false, Option, none, some, List, [], ◌∷◌,
  length, ◌==◌, if◌then◌else◌,
}
use monitra.Base.Text.{strip_prefix, split_once, trim}
use monitra.Models.{Agent}
use monitra.Provider.Cache.{Answer, ok, err}

-- `^` and `|` on integers of so many bits.
abbrev pub xor_bit : ℕ → ℕ → ℕ
xor_bit x y = if x == y then 0 else 1

abbrev pub or_bit : ℕ → ℕ → ℕ
or_bit x y = if x == 0 then y else 1

unfoldable pub xor : ℕ → ℕ → ℕ → ℕ
xor zero a b = 0
xor (suc width) a b = xor_bit (a % 2) (b % 2) + 2 * xor width (a / 2) (b / 2)

unfoldable pub or : ℕ → ℕ → ℕ → ℕ
or zero a b = 0
or (suc width) a b = or_bit (a % 2) (b % 2) + 2 * or width (a / 2) (b / 2)

-- The loop over the pairs of bytes.
unfoldable pub accumulate : ℕ → List ℕ → List ℕ → ℕ
accumulate diff [] b = diff
accumulate diff (x ∷ a) [] = diff
accumulate diff (x ∷ a) (y ∷ b) = accumulate (or 8 diff (xor 8 x y)) a b

unfoldable pub constant_time_eq : List ℕ → List ℕ → Bool
unfolding accumulate
constant_time_eq a b = if length a == length b then accumulate 0 a b == 0 else false

-- The two headers that are read, where they are present and are text.
pub record Request : Type 0 where
  pub authorization : Option String
  pub sec_websocket_protocol : Option String

unfoldable pub bearer : Option String → Option String
bearer none = none
bearer (some value) = strip_prefix "Bearer " value

unfoldable pub bearer_token : Request → Option String
unfolding bearer
bearer_token request = bearer request.authorization

-- `split(',').next()`: what stands before the first comma.
abbrev pub before_comma : String → Option (String × String) → String
before_comma value none = value
before_comma value (some (first, rest)) = first

unfoldable pub offered : Option String → Option String
offered none = none
offered (some value) = some (trim (before_comma value (split_once "," value)))

unfoldable pub ws_protocol_token : Request → Option String
unfolding offered
ws_protocol_token request = offered request.sec_websocket_protocol

module _ (as_bytes : String → List ℕ) where
  -- Whether `next` runs; else the answer is 401.
  unfoldable pub matches : Option String → String → Bool
  matches none token = false
  matches (some candidate) token = constant_time_eq (as_bytes candidate) (as_bytes token)

  unfoldable pub require_token : String → Request → Bool
  unfolding matches
  require_token token request = matches (bearer_token request) token

  abbrev pub or_else : Option String → Option String → Option String
  or_else none other = other
  or_else (some token) other = some token

  unfoldable pub require_token_ws : String → Request → Bool
  unfolding matches
  require_token_ws token request =
      matches (or_else (bearer_token request) (ws_protocol_token request)) token

  unfoldable pub matches_agent : String → Answer (Option Agent) → Bool
  matches_agent provided (err error) = false
  matches_agent provided (ok none) = false
  matches_agent provided (ok (some agent)) =
      constant_time_eq (as_bytes provided) (as_bytes agent.token)

  unfoldable pub with_agent : Option String → Answer (Option Agent) → Bool
  unfolding matches_agent
  with_agent none found = false
  with_agent (some provided) found = matches_agent provided found

  -- `get_agent` is what the store answers for an identifier.
  unfoldable pub require_agent_token : (ℕ → Answer (Option Agent)) → ℕ → Request → Bool
  unfolding with_agent
  require_agent_token get_agent id request = with_agent (bearer_token request) (get_agent id)
