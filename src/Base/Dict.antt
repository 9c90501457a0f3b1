-- ===== src/Base/Dict.antt =====
-- A hash map with numbers for keys, as an association list: the first entry of a key counts. The
-- order of the list stands for the iteration order, of which the program knows nothing.
use mathlib.Core.Path.{◌≡◌, refl}
use mathlib.Core.Option.{Option, none, some}
use mathlib.Core.Bool.{Bool}
use mathlib.Core.List.{List, [], ◌∷◌, map}
use Prim.Native.Nat.{ℕ}
use native.Mathlib.Omega.{arith}
use monitra.Base.Tests.{◌==◌, if◌then◌else◌}

abbrev pub Dict {ℓ} : Type ℓ → Type ℓ
Dict V = List (ℕ × V)

module _ {ℓ} {V : Type ℓ} where
  unfoldable pub lookup : ℕ → Dict V → Option V
  lookup k [] = none
  lookup k ((j, v) ∷ m) = let rest = lookup k m in if j == k then some v else rest

  unfoldable pub insert : ℕ → V → Dict V → Dict V
  insert k v [] = (k, v) ∷ []
  insert k v ((j, w) ∷ m) = let rest = insert k v m in if j == k then (k, v) ∷ m else (j, w) ∷ rest

  unfoldable pub remove : ℕ → Dict V → Dict V
  remove k [] = []
  remove k ((j, v) ∷ m) = let rest = remove k m in if j == k then rest else (j, v) ∷ rest

  -- Keeps the entries whose keys pass the test.
  unfoldable pub retain : (ℕ → Bool) → Dict V → Dict V
  retain p [] = []
  retain p ((j, v) ∷ m) = let rest = retain p m in if p j then (j, v) ∷ rest else rest

  abbrev pub keys : Dict V → List ℕ
  keys = map (λ e. e.0)

  abbrev pub values : Dict V → List V
  values = map (λ e. e.1)

  -- A key that has just been written shows its value, and the others show theirs.
  pub lookup-insert :
      (written read : ℕ) (v : V) (m : Dict V)
      → lookup read (insert written v m) ≡ (if written == read then some v else lookup read m)
  unfolding lookup insert
  lookup-insert written read v [] = refl
  lookup-insert written read v (entry ∷ m) = ground (arith, lookup-insert written read v m)

  pub lookup-remove :
      (k j : ℕ) (m : Dict V) → lookup j (remove k m) ≡ (if k == j then none else lookup j m)
  unfolding lookup remove
  lookup-remove k j [] = ground arith
  lookup-remove k j ((i, w) ∷ m) = ground (arith, lookup-remove k j m)

  pub lookup-retain :
      (p : ℕ → Bool) (k : ℕ) (m : Dict V)
      → lookup k (retain p m) ≡ (if p k then lookup k m else none)
  unfolding lookup retain
  lookup-retain p k [] = ground arith
  lookup-retain p k ((i, w) ∷ m) = ground (arith, lookup-retain p k m)

-- No key has two entries, as in any hash map.
module _ {ℓ} {V : Type ℓ} where
  abbrev pub Unique : Dict V → Type ℓ
  Unique [] = Unit
  Unique ((k, v) ∷ m) = (lookup k m ≡ none) × Unique m

  pub insert-Unique : (k : ℕ) (v : V) (m : Dict V) → Unique m → Unique (insert k v m)
  unfolding lookup insert
  insert-Unique k v [] u = (refl, tt)
  insert-Unique k v ((j, w) ∷ m) u = ground (arith, lookup-insert k j v m, insert-Unique k v m u.1)

  pub retain-Unique : (p : ℕ → Bool) (m : Dict V) → Unique m → Unique (retain p m)
  unfolding lookup retain
  retain-Unique p [] u = tt
  retain-Unique p ((j, w) ∷ m) u = ground (arith, lookup-retain p j m, retain-Unique p m u.1)

pub ruleset dict_laws = (lookup-insert, lookup-remove, lookup-retain)
