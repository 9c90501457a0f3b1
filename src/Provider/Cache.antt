-- ===== src/Provider/Cache.antt =====
-- `InProcessCache` of crates/provider/src/cache.rs, and `DegradingCache` of policy.rs: a configured
-- cache that gives way, for good, to the embedded one. The configured cache is a parameter: its
-- state, and what `get` and `set` answer.
pub mod Degradation
mod Tests
use monitra.Base.{
  String, Bool, true, false, Option, none, some, List, [], ◌∷◌, if◌then◌else◌, str_eq as ◌==◌,
}
use monitra.Provider.Error.{ProviderError}

-- `Result<_, ProviderError>`.
pub data Answer {ℓ} (A : Type ℓ) : Type ℓ where
  ok : A → Answer A
  err : ProviderError → Answer A

-- An entry stands once for each `insert`, the newest first.
pub record InProcessCache : Type 0 where
  pub entries : List (String × String)

unfoldable pub lookup : String → List (String × String) → Option String
lookup key [] = none
lookup key ((k, value) ∷ entries) =
    let rest = lookup key entries in if k == key then some value else rest

unfoldable pub get : InProcessCache → String → Answer (Option String)
get cache key = ok (lookup key cache.entries)

unfoldable pub set : InProcessCache → String → String → Answer (Unit {0}) × InProcessCache
set cache key value = (ok tt, record { entries = (key, value) ∷ cache.entries })

-- A cache that can be configured.
pub record Cache (C : Type 0) : Type 0 where
  pub get : C → String → Answer (Option String) × C
  pub set : C → String → String → Answer (Unit {0}) × C

pub record DegradingCache (C : Type 0) : Type 0 where
  pub configured : Option C
  pub default : InProcessCache
  pub degraded : Bool

unfoldable pub new : {C : Type 0} → Option C → InProcessCache → DegradingCache C
new configured default = record { configured = configured; default = default; degraded = false }

module _ {C : Type 0} where
  unfoldable pub note_degradation : DegradingCache C → DegradingCache C
  note_degradation cache = record cache { degraded = true }

  unfoldable pub mark_degraded_at_startup : DegradingCache C → DegradingCache C
  mark_degraded_at_startup cache = record cache { degraded = true }

  unfoldable pub is_degraded : DegradingCache C → Bool
  is_degraded cache = cache.degraded

  -- The configured cache while it is in effect.
  unfoldable pub live : Bool → Option C → Option C
  live true configured = none
  live false configured = configured

  unfoldable pub default_get : DegradingCache C → String → Answer (Option String) × DegradingCache C
  default_get cache key = (get cache.default key, cache)

  unfoldable pub default_set :
      DegradingCache C → String → String → Answer (Unit {0}) × DegradingCache C
  default_set cache key value =
      let (answer, default) = set cache.default key value in
      (answer, record cache { default = default })

module _ {C : Type 0} (ops : Cache C) where
  unfoldable pub get_live :
      DegradingCache C
      → String
      → Answer (Option String) × C
      → Answer (Option String) × DegradingCache C
  unfolding note_degradation default_get
  get_live cache key (ok value, c) = (ok value, record cache { configured = some c })
  get_live cache key (err error, c) =
      default_get (note_degradation (record cache { configured = some c })) key

  unfoldable pub get_from :
      DegradingCache C → String → Option C → Answer (Option String) × DegradingCache C
  unfolding get_live default_get
  get_from cache key none = default_get cache key
  get_from cache key (some c) = get_live cache key (ops.get c key)

  unfoldable pub get_degrading :
      DegradingCache C → String → Answer (Option String) × DegradingCache C
  unfolding get_from live
  get_degrading cache key = get_from cache key (live cache.degraded cache.configured)

  unfoldable pub set_live :
      DegradingCache C
      → String
      → String
      → Answer (Unit {0}) × C
      → Answer (Unit {0}) × DegradingCache C
  unfolding note_degradation default_set
  set_live cache key value (ok done, c) = (ok done, record cache { configured = some c })
  set_live cache key value (err error, c) =
      default_set (note_degradation (record cache { configured = some c })) key value

  unfoldable pub set_from :
      DegradingCache C → String → String → Option C → Answer (Unit {0}) × DegradingCache C
  unfolding set_live default_set
  set_from cache key value none = default_set cache key value
  set_from cache key value (some c) = set_live cache key value (ops.set c key value)

  unfoldable pub set_degrading :
      DegradingCache C → String → String → Answer (Unit {0}) × DegradingCache C
  unfolding set_from live
  set_degrading cache key value = set_from cache key value (live cache.degraded cache.configured)
