-- ===== src/Backend/Auth/Tests.antt =====
-- A request with a token, and instances of the theorems.
use Prim.Native.Char.{code}
use text.Mathlib.TextEquality.{Char-path}
use monitra.Base.{
  ℕ, zero, suc, ap, sym, ◌≢◌, ◌==◌, if◌then◌else◌, String, ◌≡◌, refl, ◌↔◌, true, none, some, Option,
  List, [], ◌∷◌, arith,
}
use monitra.Models.{Agent}
use monitra.Provider.Cache.{Answer, ok}
use monitra.Backend.Auth.{Request, require_token, require_agent_token}
use monitra.Backend.Auth.Decision.{IsEncoding, AreBytes, require_token_iff, require_agent_token_iff}

abbrev ab : List ℕ
ab = 65 ∷ 66 ∷ []

abbrev ac : List ℕ
ac = 65 ∷ 67 ∷ []

-- An encoding in bytes that is easy to read back: so many zeros as the code, and a one.
abbrev unary : ℕ → List ℕ → List ℕ
unary zero rest = 1 ∷ rest
unary (suc n) rest = 0 ∷ unary n rest

unfoldable as_bytes : String → List ℕ
as_bytes String.[] = []
as_bytes (String.◌∷◌ c s) = unary (code c) (as_bytes s)

unary-AreBytes : (n : ℕ) (rest : List ℕ) → AreBytes rest → AreBytes (unary n rest)
unary-AreBytes zero rest h = (omega arith, h)
unary-AreBytes (suc n) rest h = (omega arith, unary-AreBytes n rest h)

unary_injective : (n m : ℕ) (xs ys : List ℕ) → unary n xs ≡ unary m ys → (n ≡ m) × (xs ≡ ys)
unary_injective zero zero xs ys e = (refl, ground (arith, e))
unary_injective zero (suc m) xs ys e = ground (arith, e)
unary_injective (suc n) zero xs ys e = ground (arith, e)
unary_injective (suc n) (suc m) xs ys e =
    let (same, rest) = unary_injective n m xs ys (ground (arith, e)) in (ap suc same, rest)

unary_not_nil : (n : ℕ) (xs : List ℕ) → unary n xs ≢ []
unary_not_nil zero xs e = ground (arith, e)
unary_not_nil (suc n) xs e = ground (arith, e)

as_bytes-AreBytes : (s : String) → AreBytes (as_bytes s)
unfolding as_bytes
as_bytes-AreBytes String.[] = tt
as_bytes-AreBytes (String.◌∷◌ c s) = unary-AreBytes (code c) (as_bytes s) (as_bytes-AreBytes s)

as_bytes_injective : (s t : String) → as_bytes s ≡ as_bytes t → s ≡ t
unfolding as_bytes
as_bytes_injective String.[] String.[] e = refl
as_bytes_injective String.[] (String.◌∷◌ c t) e =
    absurd (unary_not_nil (code c) (as_bytes t) (sym e))
as_bytes_injective (String.◌∷◌ c s) String.[] e = absurd (unary_not_nil (code c) (as_bytes s) e)
as_bytes_injective (String.◌∷◌ c s) (String.◌∷◌ d t) e =
    let (same, rest) = unary_injective (code c) (code d) (as_bytes s) (as_bytes t) e in
    rw (Char-path c d same) (ap (String.◌∷◌ d) (as_bytes_injective s t rest))

as_bytes-IsEncoding : IsEncoding as_bytes
as_bytes-IsEncoding = record { bytes = as_bytes-AreBytes; injective = as_bytes_injective }

abbrev request : Request
request = record { authorization = some "Bearer t0k"; sec_websocket_protocol = none }

require_token_iff_example :
    (require_token as_bytes "t0k" request ≡ true) ↔ (request.authorization ≡ some "Bearer t0k")
require_token_iff_example = require_token_iff as_bytes "t0k" request as_bytes-IsEncoding

abbrev agent : Agent
agent = record {
  id = 7;
  name = "a";
  last_heartbeat_at = 0;
  scope = "";
  token = "t0k";
  region = none;
}

abbrev get_agent : ℕ → Answer (Option Agent)
get_agent id = ok (if id == 7 then some agent else none)

require_agent_token_iff_example :
    (require_agent_token as_bytes get_agent 7 request ≡ true)
    ↔ (request.authorization ≡ some "Bearer t0k")
require_agent_token_iff_example =
    require_agent_token_iff as_bytes get_agent 7 request as_bytes-IsEncoding
