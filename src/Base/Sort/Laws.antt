-- ===== src/Base/Sort/Laws.antt =====
-- A sorted list holds the same entries, in order.
use monitra.Base.{
  suc, ◌≡◌, refl, Bool, true, false, List, [], ◌∷◌, All, filter, length, arith, Bool-cases, inl,
  inr,
}
use monitra.Base.Sort.{place, sort}

module _ {ℓ} {A : Type ℓ} (before : A → A → Bool) where
  length-filter-place :
      (p : A → Bool) (x : A) (xs : List A)
      → length (filter p (place before x xs)) ≡ length (filter p (x ∷ xs))
  unfolding place
  length-filter-place p x [] = refl
  length-filter-place p x (y ∷ ys) = ground (arith, length-filter-place p x ys)

  -- A test holds of as many entries after the sort as before it.
  pub length-filter-sort :
      (p : A → Bool) (xs : List A) → length (filter p (sort before xs)) ≡ length (filter p xs)
  unfolding sort
  length-filter-sort p [] = refl
  length-filter-sort p (x ∷ xs) =
      ground (arith, length-filter-place p x (sort before xs), length-filter-sort p xs)

  length-place : (x : A) (xs : List A) → length (place before x xs) ≡ suc (length xs)
  unfolding place
  length-place x [] = refl
  length-place x (y ∷ ys) = ground (arith, length-place x ys)

  pub length-sort : (xs : List A) → length (sort before xs) ≡ length xs
  unfolding sort
  length-sort [] = refl
  length-sort (x ∷ xs) = ground (arith, length-place x (sort before xs), length-sort xs)

  -- No entry comes before one that stands ahead of it.
  abbrev pub IsSorted : List A → Type ℓ
  IsSorted [] = Unit
  IsSorted (x ∷ xs) = All (λ y. before x y ≡ true) xs × IsSorted xs

  place-All {κ} :
      (P : A → Type κ) (x : A) (xs : List A) → P x → All P xs → All P (place before x xs)
  unfolding place
  place-All P x [] here h = (here, tt)
  place-All P x (y ∷ ys) here h = elim (Bool-cases (before x y)) [
    | inl e ↦ rw e (here, h)
    | inr e ↦ rw e (h.0, place-All P x ys here h.1)
  ]

  All-weaken :
      (x y : A) (xs : List A)
      → ((z : A) → before y z ≡ true → before x z ≡ true)
      → All (λ z. before y z ≡ true) xs
      → All (λ z. before x z ≡ true) xs
  All-weaken x y [] step h = tt
  All-weaken x y (z ∷ xs) step h = (step z h.0, All-weaken x y xs step h.1)

  module _ (total : (a b : A) → before a b ≡ false → before b a ≡ true)
      (trans : (a b c : A) → before a b ≡ true → before b c ≡ true → before a c ≡ true) where
    place-IsSorted : (x : A) (xs : List A) → IsSorted xs → IsSorted (place before x xs)
    unfolding place
    place-IsSorted x [] s = (tt, tt)
    place-IsSorted x (y ∷ ys) s = elim (Bool-cases (before x y)) [
      | inl e ↦ rw e ((e, All-weaken x y ys (λ z. trans x y z e) s.0), s)
      | inr e ↦ rw e (place-All _ x ys (total x y e) s.0, place-IsSorted x ys s.1)
    ]

    pub sort-IsSorted : (xs : List A) → IsSorted (sort before xs)
    unfolding sort
    sort-IsSorted [] = tt
    sort-IsSorted (x ∷ xs) = place-IsSorted x (sort before xs) (sort-IsSorted xs)
