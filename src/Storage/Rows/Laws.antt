-- ===== src/Storage/Rows/Laws.antt =====
-- What the statements on a table do to the rows of each key.
use monitra.Base.{◌≡◌, refl, true, false, List, [], ◌∷◌, ◌++◌, arith, if◌then◌else◌, All, is_some}
use monitra.Base.Eq.{Eq, same_left, same_sym}
use monitra.Storage.Rows.{has, select, update, delete}

module _ {R K : Type 0} ⦃e : Eq K⦄ (key : R → K) where
  pub has-append :
      (k : K) (rows : List R) (r : R)
      → has key k (rows ++ r ∷ []) ≡ (if e.same (key r) k then true else has key k rows)
  unfolding has
  has-append k [] r = refl
  has-append k (q ∷ rows) r = ground (arith, has-append k rows r)

  -- A column that an update leaves alone keeps its values, whatever column finds the rows.
  pub has-update :
      {J : Type 0} ⦃i : Eq J⦄ (other : R → J) (j : J) (k : K) (f : R → R) (rows : List R)
      → ((r : R) → key (f r) ≡ key r)
      → has key k (update other j f rows) ≡ has key k rows
  unfolding has update
  has-update other j k f [] keeps = refl
  has-update other j k f (r ∷ rows) keeps =
      ground (arith, keeps r, has-update other j k f rows keeps)

  pub has-delete :
      (k j : K) (rows : List R)
      → has key j (delete key k rows) ≡ (if e.same k j then false else has key j rows)
  unfolding has delete
  has-delete k j [] = ground arith
  has-delete k j (r ∷ rows) =
      ground
        (arith, has-delete k j rows, same_left (key r) k j, same_left (key r) j k, same_sym k j)

  -- What stands after a deletion stood before.
  pub has-delete_le :
      {J : Type 0} ⦃i : Eq J⦄ (other : R → J) (j : J) (k : K) (rows : List R)
      → has key k rows ≡ false
      → has key k (delete other j rows) ≡ false
  unfolding has delete
  has-delete_le other j k [] h = refl
  has-delete_le other j k (r ∷ rows) h = ground (arith, has-delete_le other j k rows)

  pub select-has : (k : K) (rows : List R) → is_some (select key k rows) ≡ has key k rows
  unfolding has select
  select-has k [] = refl
  select-has k (r ∷ rows) = ground (arith, select-has k rows)

  -- No key has two rows.
  abbrev pub UniqueKeys : List R → Type 0
  UniqueKeys [] = Unit
  UniqueKeys (r ∷ rows) = (has key (key r) rows ≡ false) × UniqueKeys rows

  pub append-UniqueKeys :
      (rows : List R) (r : R)
      → has key (key r) rows ≡ false
      → UniqueKeys rows
      → UniqueKeys (rows ++ r ∷ [])
  unfolding has
  append-UniqueKeys [] r fresh u = (refl, tt)
  append-UniqueKeys (q ∷ rows) r fresh u =
      ground (arith, has-append (key q) rows r, append-UniqueKeys rows r, same_sym (key q) (key r))

  pub update-UniqueKeys :
      {J : Type 0} ⦃i : Eq J⦄ (other : R → J) (j : J) (f : R → R) (rows : List R)
      → ((r : R) → key (f r) ≡ key r)
      → UniqueKeys rows
      → UniqueKeys (update other j f rows)
  unfolding update
  update-UniqueKeys other j f [] keeps u = tt
  update-UniqueKeys other j f (r ∷ rows) keeps u = ground (
    arith,
    keeps r,
    has-update other j (key r) f rows keeps,
    update-UniqueKeys other j f rows keeps u.1,
  )

  pub delete-UniqueKeys :
      {J : Type 0} ⦃i : Eq J⦄ (other : R → J) (j : J) (rows : List R)
      → UniqueKeys rows
      → UniqueKeys (delete other j rows)
  unfolding delete
  delete-UniqueKeys other j [] u = tt
  delete-UniqueKeys other j (r ∷ rows) u =
      ground (arith, has-delete_le other j (key r) rows u.0, delete-UniqueKeys other j rows u.1)

-- A predicate of every row, under each statement.
module _ {R K : Type 0} ⦃e : Eq K⦄ (key : R → K) (k : K) where
  pub update-All :
      (P Q : R → Type 0) (f : R → R)
      → ((r : R) → P r → Q r × Q (f r))
      → (rows : List R) → All P rows
      → All Q (update key k f rows)
  unfolding update
  update-All P Q f step [] h = tt
  update-All P Q f step (r ∷ rows) h = ground (arith, step r h.0, update-All P Q f step rows h.1)

  pub delete-All :
      (P Q : R → Type 0)
      → ((r : R) → e.same (key r) k ≡ false → P r → Q r)
      → (rows : List R) → All P rows
      → All Q (delete key k rows)
  unfolding delete
  delete-All P Q step [] h = tt
  delete-All P Q step (r ∷ rows) h = ground (arith, step r, delete-All P Q step rows h.1)

pub All-map {ℓ} :
    {R : Type ℓ} (P Q : R → Type 0)
    → ((r : R) → P r → Q r)
    → (rows : List R) → All P rows
    → All Q rows
All-map P Q step [] h = tt
All-map P Q step (r ∷ rows) h = (step r h.0, All-map P Q step rows h.1)
