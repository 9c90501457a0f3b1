-- ===== src/Storage/Rows/Selection.antt =====
-- What a query finds after an insertion, an update or a deletion.
use monitra.Base.{
  ◌≡◌, refl, sym, ap, ◌∙◌, true, false, none, some, List, [], ◌∷◌, ◌++◌, arith, if◌then◌else◌,
  Bool-cases, inl, inr, subst,
}
use monitra.Base.Eq.{Eq, same_left, same_sym, same_self}
use monitra.Storage.Rows.{has, select, select_all, update, delete}
use monitra.Storage.Rows.Laws.{UniqueKeys}

module _ {R K : Type 0} ⦃e : Eq K⦄ (key : R → K) where
  pub select-append :
      (k : K) (rows : List R) (r : R)
      → has key (key r) rows ≡ false
      → select key k (rows ++ r ∷ []) ≡ (if e.same (key r) k then some r else select key k rows)
  unfolding select has
  select-append k [] r fresh = refl
  select-append k (q ∷ rows) r fresh =
      ground (arith, select-append k rows r, same_left (key q) k (key r), same_sym (key r) k)

  pub select_all-delete :
      (k j : K) (rows : List R)
      → select_all key j (delete key k rows) ≡ (if e.same k j then [] else select_all key j rows)
  unfolding select_all delete
  select_all-delete k j [] = ground arith
  select_all-delete k j (r ∷ rows) = ground (
    arith,
    select_all-delete k j rows,
    same_left (key r) k j,
    same_left (key r) j k,
    same_sym k j,
  )

  pub select-delete :
      (k j : K) (rows : List R)
      → select key j (delete key k rows) ≡ (if e.same k j then none else select key j rows)
  unfolding select delete
  select-delete k j [] = ground arith
  select-delete k j (r ∷ rows) =
      ground
        (arith, select-delete k j rows, same_left (key r) k j, same_left (key r) j k, same_sym k j)

  -- An update of a key that no row has changes nothing.
  pub update_absent :
      (k : K) (f : R → R) (rows : List R) → has key k rows ≡ false → update key k f rows ≡ rows
  unfolding has update
  update_absent k f [] h = refl
  update_absent k f (r ∷ rows) h = ground (arith, update_absent k f rows)

module _ {R K : Type 0} ⦃e : Eq K⦄ (key : R → K) where
  distinct :
      (a b : K) (rows : List R)
      → has key a rows ≡ false
      → has key b rows ≡ true
      → e.same a b ≡ false
  distinct a b rows gone there = elim (Bool-cases (e.same a b)) [
    | inl p ↦
        absurd (ground (arith, sym gone ∙ ap (λ k. has key k rows) ((e.same_iff a b).0 p) ∙ there))
    | inr p ↦ p
  ]

  only : (r s : R) → some r ≡ some s → r ≡ s
  only r s h = cc

-- The row of a key that is found is of that key.
module _ {R K : Type 0} ⦃e : Eq K⦄ (key : R → K) where
  pub select-key : (k : K) (rows : List R) (r : R) → select key k rows ≡ some r → key r ≡ k
  unfolding select
  select-key k [] r h = cc
  select-key k (q ∷ rows) r h = elim (Bool-cases (e.same (key q) k)) [
    | inl p ↦ sym (ap key (only key q r (ground arith))) ∙ (e.same_iff (key q) k).0 p
    | inr p ↦ select-key k rows r (ground arith)
  ]

  -- An update of the row of a key is found by that key, where no other row has it.
  pub select_own-update :
      (k : K) (f : R → R) (rows : List R) (r : R)
      → ((s : R) → key (f s) ≡ key s)
      → UniqueKeys key rows
      → select key k rows ≡ some r
      → select key k (update key k f rows) ≡ some (f r)
  unfolding select update
  select_own-update k f [] r keeps u h = cc
  select_own-update k f (q ∷ rows) r keeps u h = elim (Bool-cases (e.same (key q) k)) [
    | inl p ↦ ground (arith, keeps q, ap f (only key q r (ground arith)))
    | inr p ↦ ground (arith, select_own-update k f rows r keeps u.1)
  ]

-- A row that is found by one column and updated by another, where both know it from the others.
module _ {R J K : Type 0} ⦃d : Eq J⦄ ⦃e : Eq K⦄ (id : R → J) (key : R → K) where
  select-has_other :
      (k : K) (rows : List R) (r : R) → select key k rows ≡ some r → has id (id r) rows ≡ true
  unfolding select has
  select-has_other k [] r h = cc
  select-has_other k (q ∷ rows) r h = elim (Bool-cases (e.same (key q) k)) [
    | inl p ↦ ground (arith, ap id (only key q r (ground arith)), same_self (id r))
    | inr p ↦ ground (arith, select-has_other k rows r)
  ]

  update_found :
      (k j : K) (f : R → R) (q : R) (rows : List R)
      → ((r : R) → key (f r) ≡ key r)
      → has id (id q) rows ≡ false
      → e.same (key q) k ≡ true
      → select key j (update id (id q) f (q ∷ rows))
        ≡ (if e.same k j then some (f q) else select key j (q ∷ rows))
  unfolding select update
  update_found k j f q rows keeps alone p = ground (
    arith,
    same_self (id q),
    update_absent id (id q) f rows alone,
    keeps q,
    same_left (key q) k j p,
  )

  pub select-update :
      (k j : K) (f : R → R) (rows : List R) (r : R)
      → ((s : R) → key (f s) ≡ key s)
      → UniqueKeys id rows
      → select key k rows ≡ some r
      → select key j (update id (id r) f rows)
        ≡ (if e.same k j then some (f r) else select key j rows)
  unfolding select update
  select-update k j f [] r keeps u h = cc
  select-update k j f (q ∷ rows) r keeps u h = elim (Bool-cases (e.same (key q) k)) [
    | inl p ↦
        subst
          (λ s.
            select key j (update id (id s) f (q ∷ rows))
            ≡ (if e.same k j then some (f s) else select key j (q ∷ rows)))
          (only key q r (ground arith)) (update_found k j f q rows keeps u.0 p)
    | inr p ↦
        let later : select key k rows ≡ some r = ground arith in
        ground (
          arith,
          distinct id (id q) (id r) rows u.0 (select-has_other k rows r later),
          select-update k j f rows r keeps u.1 later,
          same_left (key q) j k,
          same_sym k j,
        )
  ]
