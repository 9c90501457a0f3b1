-- ===== src/Provider/Cache/Tests.antt =====
-- A configured cache that answers once, and an instance of the theorem.
use monitra.Base.{ℕ, zero, suc, String, ◌≡◌, refl, Option, none, some, [], ◌∷◌}
use monitra.Provider.Error.{ProviderError, unavailable, cache}
use monitra.Provider.Cache.{Answer, ok, err, Cache, InProcessCache, new, get, set, lookup}
use monitra.Provider.Cache.Degradation.{
  gets, sets, run, run_configured, run_default, after, run_handover,
}

abbrev down : ProviderError
down = unavailable cache "connection refused"

abbrev answer : ℕ → Answer (Option String) × ℕ
answer zero = (err down, 0)
answer (suc n) = (ok (some "remote"), 0)

-- It counts the calls that it still answers.
abbrev failing : Cache ℕ
failing = record { get = λ c key. answer c; set = λ c key value. (err down, c) }

abbrev empty : InProcessCache
empty = record { entries = [] }

run_handover_example :
    run failing (new (some 1) empty) (gets "k" ∷ sets "k" "v" ∷ gets "k" ∷ [])
    ≡ ok (some "remote") ∷ ok none ∷ ok (some "v") ∷ []
unfolding run_configured run_default get set lookup after
run_handover_example =
    run_handover failing 1 empty (gets "k" ∷ []) (sets "k" "v") (gets "k" ∷ []) (refl, tt) refl
