-- ===== src/Storage/Rows.antt =====
-- The statements on one table that crates/storage/src/lib.rs is written in: a table is the list of
-- its rows, whose order stands for that of a scan, of which the program knows nothing. A row is
-- found by a column, `key`.
pub mod Laws
pub mod Selection
use monitra.Base.{
  String, ◌≡◌, refl, ap, ◌↔◌, Bool, true, false, Option, none, some, List, [], ◌∷◌, arith, leb, ltb,
  ◌==◌, ==_iff, if◌then◌else◌, str_eq, str_eq_iff,
}
use monitra.Base.Sort.{sort}
use monitra.Base.Eq.{Eq}
use monitra.Storage.Codec.{ℤ, pos, negsuc}

abbrev pub int_eq : ℤ → ℤ → Bool
int_eq (pos a) (pos b) = a == b
int_eq (pos a) (negsuc b) = false
int_eq (negsuc a) (pos b) = false
int_eq (negsuc a) (negsuc b) = a == b

pub int_eq_iff : (a b : ℤ) → (int_eq a b ≡ true) ↔ (a ≡ b)
int_eq_iff (pos a) (pos b) = ground arith
int_eq_iff (pos a) (negsuc b) = ground arith
int_eq_iff (negsuc a) (pos b) = ground arith
int_eq_iff (negsuc a) (negsuc b) = ground arith

instance abbrev pub int_Eq : Eq ℤ
int_Eq = record { same = int_eq; same_iff = int_eq_iff }

abbrev pub int_leb : ℤ → ℤ → Bool
int_leb (pos a) (pos b) = leb a b
int_leb (pos a) (negsuc b) = false
int_leb (negsuc a) (pos b) = true
int_leb (negsuc a) (negsuc b) = leb b a

module _ {R K : Type 0} ⦃e : Eq K⦄ (key : R → K) where
  -- Whether some row is of the key: what a foreign key asks, and what `changed == 0` denies.
  unfoldable pub has : K → List R → Bool
  has k [] = false
  has k (r ∷ rows) = let rest = has k rows in if e.same (key r) k then true else rest

  -- `SELECT … WHERE key = ?`, of at most one row.
  unfoldable pub select : K → List R → Option R
  select k [] = none
  select k (r ∷ rows) = let rest = select k rows in if e.same (key r) k then some r else rest

  -- `SELECT … WHERE key = ?`.
  unfoldable pub select_all : K → List R → List R
  select_all k [] = []
  select_all k (r ∷ rows) =
      let rest = select_all k rows in if e.same (key r) k then r ∷ rest else rest

  -- `UPDATE … WHERE key = ?`.
  unfoldable pub update : K → (R → R) → List R → List R
  update k f [] = []
  update k f (r ∷ rows) =
      let rest = update k f rows in if e.same (key r) k then f r ∷ rest else r ∷ rest

  -- `DELETE FROM … WHERE key = ?`, and what `ON DELETE CASCADE` does.
  unfoldable pub delete : K → List R → List R
  delete k [] = []
  delete k (r ∷ rows) = let rest = delete k rows in if e.same (key r) k then rest else r ∷ rest

-- `ORDER BY key`.
unfoldable pub order_by : {R : Type 0} → (R → ℤ) → List R → List R
unfolding sort
order_by key rows = sort (λ r q. int_leb (key r) (key q)) rows
