-- ===== src/Backend/Auth/Decision.antt =====
-- Which requests pass.
use monitra.Base.{
  ℕ, zero, suc, ◌*◌, ◌/◌, ◌<◌, String, ◌<>◌, ◌≡◌, refl, sym, ap, subst, ◌∙◌, true, false, Option,
  none, some, List, [], ◌∷◌, length, All, arith, ◌↔◌,
}
use monitra.Base.Text.Laws.{strip_prefix-append, strip_prefix_sound}
use monitra.Models.{Agent}
use monitra.Provider.Error.{ProviderError}
use monitra.Provider.Cache.{Answer, ok, err}
use monitra.Backend.Auth.{
  xor, or, accumulate, constant_time_eq, Request, bearer, bearer_token, matches, require_token,
  matches_agent, with_agent, require_agent_token,
}

abbrev pub pow2 : ℕ → ℕ
pow2 zero = 1
pow2 (suc width) = 2 * pow2 width

xor-zero : (width a b : ℕ) → a < pow2 width → b < pow2 width → xor width a b ≡ 0 → a ≡ b
unfolding xor
xor-zero zero a b la lb h = omega arith
xor-zero (suc width) a b la lb h =
    ground (arith, xor-zero width (a / 2) (b / 2) (omega arith) (omega arith))

xor_self : (width a : ℕ) → xor width a a ≡ 0
unfolding xor
xor_self zero a = refl
xor_self (suc width) a = ground (arith, xor_self width (a / 2))

xor-bound : (width a b : ℕ) → xor width a b < pow2 width
unfolding xor
xor-bound zero a b = omega arith
xor-bound (suc width) a b = ground (arith, xor-bound width (a / 2) (b / 2))

or-bound : (width a b : ℕ) → or width a b < pow2 width
unfolding or
or-bound zero a b = omega arith
or-bound (suc width) a b = ground (arith, or-bound width (a / 2) (b / 2))

or-zero : (width a b : ℕ) → a < pow2 width → b < pow2 width → or width a b ≡ 0 → (a ≡ 0) × (b ≡ 0)
unfolding or
or-zero zero a b la lb h = (omega arith, omega arith)
or-zero (suc width) a b la lb h =
    ground (arith, or-zero width (a / 2) (b / 2) (omega arith) (omega arith))

or-zeros : (width : ℕ) → or width 0 0 ≡ 0
unfolding or
or-zeros zero = refl
or-zeros (suc width) = ground (arith, or-zeros width)

abbrev pub AreBytes : List ℕ → Type 0
AreBytes = All (λ x. x < 256)

accumulate-zero :
    (diff : ℕ) (a b : List ℕ)
    → length a ≡ length b
    → diff < 256
    → AreBytes a
    → AreBytes b
    → accumulate diff a b ≡ 0
    → (diff ≡ 0) × (a ≡ b)
unfolding accumulate
accumulate-zero diff [] [] e ld la lb h = (h, refl)
accumulate-zero diff [] (y ∷ b) e ld la lb h = ground arith
accumulate-zero diff (x ∷ a) [] e ld la lb h = ground arith
accumulate-zero diff (x ∷ a) (y ∷ b) e ld la lb h =
    let (d, rest) =
      accumulate-zero (or 8 diff (xor 8 x y)) a b (omega arith) (or-bound 8 diff (xor 8 x y)) la.1
        lb.1 h in
    let (before, here) = or-zero 8 diff (xor 8 x y) ld (xor-bound 8 x y) d in
    (before, ground (arith, xor-zero 8 x y la.0 lb.0 here, rest))

accumulate_self : (a : List ℕ) → accumulate 0 a a ≡ 0
unfolding accumulate
accumulate_self [] = refl
accumulate_self (x ∷ a) = rw (xor_self 8 x, or-zeros 8) (accumulate_self a)

-- The comparison without early exit is equality of the bytes: no difference is lost in the
-- accumulator.
pub constant_time_eq_iff :
    (a b : List ℕ) → AreBytes a → AreBytes b → (constant_time_eq a b ≡ true) ↔ (a ≡ b)
unfolding constant_time_eq
constant_time_eq_iff a b la lb = (
  (λ h.
      let same : length a ≡ length b = ground (arith, h) in
      (accumulate-zero 0 a b same (omega arith) la lb (ground (arith, h, same))).1),
  (λ e. subst (λ c. constant_time_eq a c ≡ true) e (ground (arith, accumulate_self a))),
)

-- What is relied on of the encoding: it gives bytes, and different ones for different texts.
pub record IsEncoding (as_bytes : String → List ℕ) : Type 0 where
  pub bytes : (s : String) → AreBytes (as_bytes s)
  pub injective : (s t : String) → as_bytes s ≡ as_bytes t → s ≡ t

-- The header that a token is sent in.
abbrev pub bearer_header : String → Option String
bearer_header token = some ("Bearer " <> token)

module _ (as_bytes : String → List ℕ) where
  matches_iff :
      (candidate : Option String) (token : String)
      → IsEncoding as_bytes
      → (matches as_bytes candidate token ≡ true) ↔ (candidate ≡ some token)
  unfolding matches
  matches_iff none token enc = (λ h. cc, λ h. cc)
  matches_iff (some candidate) token enc =
      let (to, from) =
        constant_time_eq_iff (as_bytes candidate) (as_bytes token) (enc.bytes candidate)
          (enc.bytes token) in
      (
        λ h. ap some (enc.injective candidate token (to h)),
        λ h. from (ap as_bytes (ground (arith, h))),
      )

  bearer_iff :
      (header : Option String) (token : String)
      → (bearer header ≡ some token) ↔ (header ≡ bearer_header token)
  unfolding bearer
  bearer_iff none token = (λ h. cc, λ h. cc)
  bearer_iff (some value) token = (
    λ h. ap some (strip_prefix_sound "Bearer " value h),
    λ h. ground (arith, h, strip_prefix-append "Bearer " token),
  )

  -- If the encoding gives bytes and different ones for different texts, a request to a route of the
  -- API passes exactly if its `Authorization` header is `Bearer ` and the token.
  pub require_token_iff :
      (token : String) (request : Request)
      → IsEncoding as_bytes
      → (require_token as_bytes token request ≡ true)
        ↔ (request.authorization ≡ bearer_header token)
  unfolding require_token bearer_token
  require_token_iff token request enc =
      let (to, from) = matches_iff (bearer request.authorization) token enc in
      let (there, back) = bearer_iff request.authorization token in
      (λ h. there (to h), λ h. from (back h))

  -- What an agent's request is to carry, by what the store answers for its identifier.
  abbrev pub Credential : Answer (Option Agent) → Option String → Type 0
  Credential (err error) header = ⊥
  Credential (ok none) header = ⊥
  Credential (ok (some agent)) header = header ≡ bearer_header agent.token

  with_agent-matches :
      (candidate : Option String) (agent : Agent)
      → with_agent as_bytes candidate (ok (some agent)) ≡ matches as_bytes candidate agent.token
  unfolding with_agent matches_agent matches
  with_agent-matches none agent = refl
  with_agent-matches (some provided) agent = refl

  with_agent-unknown : (candidate : Option String) → with_agent as_bytes candidate (ok none) ≡ false
  unfolding with_agent matches_agent
  with_agent-unknown none = refl
  with_agent-unknown (some provided) = refl

  with_agent-err :
      (candidate : Option String) (error : ProviderError)
      → with_agent as_bytes candidate (err error) ≡ false
  unfolding with_agent matches_agent
  with_agent-err none error = refl
  with_agent-err (some provided) error = refl

  with_agent_iff :
      (header : Option String) (found : Answer (Option Agent))
      → IsEncoding as_bytes
      → (with_agent as_bytes (bearer header) found ≡ true) ↔ Credential found header
  with_agent_iff header (err error) enc =
      (λ h. cc (h, with_agent-err (bearer header) error), λ h. absurd h)
  with_agent_iff header (ok none) enc =
      (λ h. cc (h, with_agent-unknown (bearer header)), λ h. absurd h)
  with_agent_iff header (ok (some agent)) enc =
      let same = with_agent-matches (bearer header) agent in
      let (to, from) = matches_iff (bearer header) agent.token enc in
      let (there, back) = bearer_iff header agent.token in
      (λ h. there (to (sym same ∙ h)), λ h. same ∙ from (back h))

  -- If the encoding is so, an agent's request passes exactly if the store knows an agent of the identifier in the path and
  -- the header is `Bearer ` and that agent's token. An unknown agent and an error of the store are
  -- turned away like a wrong token.
  pub require_agent_token_iff :
      (get_agent : ℕ → Answer (Option Agent)) (id : ℕ) (request : Request)
      → IsEncoding as_bytes
      → (require_agent_token as_bytes get_agent id request ≡ true)
        ↔ Credential (get_agent id) request.authorization
  unfolding require_agent_token bearer_token
  require_agent_token_iff get_agent id request enc =
      with_agent_iff request.authorization (get_agent id) enc
