-- ===== src/Provider/Cache/Degradation.antt =====
-- What a caller of the cache sees of a configured cache that fails.
use monitra.Base.{
  String, ◌≡◌, refl, Bool, true, false, Option, none, some, List, [], ◌∷◌, arith, All, ◌++◌,
}
use monitra.Provider.Cache.{
  new, Answer, ok, err, InProcessCache, get, set, Cache, DegradingCache, live, default_get,
  default_set, note_degradation, get_live, get_from, get_degrading, set_live, set_from,
  set_degrading,
}

-- A call of the cache, and what it answers: the text that was found, or none where it was set.
pub data Call : Type 0 where
  gets : String → Call
  sets : String → String → Call

abbrev pub unit_answer : Answer (Unit {0}) → Answer (Option String)
unit_answer (ok done) = ok none
unit_answer (err error) = err error

abbrev pub is_ok : Answer (Option String) → Bool
is_ok (ok value) = true
is_ok (err error) = false

-- The answers of the embedded cache alone.
unfoldable pub run_default : InProcessCache → List Call → List (Answer (Option String))
run_default cache [] = []
run_default cache (gets key ∷ calls) = get cache key ∷ run_default cache calls
run_default cache (sets key value ∷ calls) =
    let (answer, next) = set cache key value in unit_answer answer ∷ run_default next calls

module _ {C : Type 0} (ops : Cache C) where
  -- The answers of the configured cache alone.
  unfoldable pub run_configured : C → List Call → List (Answer (Option String))
  run_configured c [] = []
  run_configured c (gets key ∷ calls) =
      let (answer, next) = ops.get c key in answer ∷ run_configured next calls
  run_configured c (sets key value ∷ calls) =
      let (answer, next) = ops.set c key value in unit_answer answer ∷ run_configured next calls

  unfoldable pub run : DegradingCache C → List Call → List (Answer (Option String))
  run cache [] = []
  run cache (gets key ∷ calls) =
      let (answer, next) = get_degrading ops cache key in answer ∷ run next calls
  run cache (sets key value ∷ calls) =
      let (answer, next) = set_degrading ops cache key value in unit_answer answer ∷ run next calls

  run_flag :
      (cache : DegradingCache C) (calls : List Call)
      → cache.degraded ≡ true
      → run cache calls ≡ run_default cache.default calls
  unfolding run run_default get_degrading get_from set_degrading set_from live default_get
      default_set
  run_flag cache [] h = refl
  run_flag cache (gets key ∷ calls) h = ground (arith, run_flag cache calls h)
  run_flag cache (sets key value ∷ calls) h =
      ground (arith, run_flag (default_set cache key value).1 calls h)

  -- The configured cache after calls, and whether it would answer another.
  unfoldable pub after : C → List Call → C
  after c [] = c
  after c (gets key ∷ calls) = after (ops.get c key).1 calls
  after c (sets key value ∷ calls) = after (ops.set c key value).1 calls

  abbrev pub answers : C → Call → Bool
  answers c (gets key) = is_ok (ops.get c key).0
  answers c (sets key value) = is_ok (unit_answer (ops.set c key value).0)

  -- While a configured cache answers every call, a caller sees it and nothing else.
  pub run_transparent :
      (c : C) (default : InProcessCache) (calls : List Call)
      → All (λ answer. is_ok answer ≡ true) (run_configured c calls)
      → run (new (some c) default) calls ≡ run_configured c calls
  unfolding new run run_configured get_degrading get_from get_live set_degrading set_from set_live
      live
  run_transparent c default [] h = refl
  run_transparent c default (gets key ∷ calls) h =
      ground (arith, run_transparent (ops.get c key).1 default calls)
  run_transparent c default (sets key value ∷ calls) h =
      ground (arith, run_transparent (ops.set c key value).1 default calls)

  run_default_ok :
      (cache : InProcessCache) (calls : List Call)
      → All (λ answer. is_ok answer ≡ true) (run_default cache calls)
  unfolding run_default get set
  run_default_ok cache [] = tt
  run_default_ok cache (gets key ∷ calls) = (refl, run_default_ok cache calls)
  run_default_ok cache (sets key value ∷ calls) =
      (refl, run_default_ok (set cache key value).1 calls)

  -- No call ever fails, whatever the configured cache does.
  pub run_never_fails :
      (cache : DegradingCache C) (calls : List Call)
      → All (λ answer. is_ok answer ≡ true) (run cache calls)
  unfolding run get_degrading get_from get_live set_degrading set_from set_live live default_get
      default_set get set
  run_never_fails cache [] = tt
  run_never_fails cache (gets key ∷ calls) =
      (ground arith, run_never_fails (get_degrading ops cache key).1 calls)
  run_never_fails cache (sets key value ∷ calls) =
      (ground arith, run_never_fails (set_degrading ops cache key value).1 calls)

  -- At the first call that the configured cache does not answer, and from there on, the answers are
  -- those of the embedded cache, which saw none of the calls before.
  pub run_handover :
      (c : C) (default : InProcessCache) (before : List Call) (call : Call) (later : List Call)
      → All (λ answer. is_ok answer ≡ true) (run_configured c before)
      → answers (after c before) call ≡ false
      → run (new (some c) default) (before ++ call ∷ later)
        ≡ run_configured c before ++ run_default default (call ∷ later)
  unfolding after new run run_configured run_default get_degrading get_from get_live set_degrading
      set_from set_live live note_degradation default_get default_set
  run_handover c default [] (gets key) later h e = ground (
    arith,
    run_flag (record { configured = some (ops.get c key).1; default = default; degraded = true })
        later refl,
  )
  run_handover c default [] (sets key value) later h e = ground (
    arith,
    run_flag
        (record {
          configured = some (ops.set c key value).1;
          default = (set default key value).1;
          degraded = true;
        })
        later refl,
  )
  run_handover c default (gets key ∷ before) call later h e =
      ground (arith, run_handover (ops.get c key).1 default before call later)
  run_handover c default (sets key value ∷ before) call later h e =
      ground (arith, run_handover (ops.set c key value).1 default before call later)
