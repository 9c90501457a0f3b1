-- ===== src/Backend/Regions/Rank.antt =====
-- `p95_latency_ms` is the nearest-rank percentile.
use monitra.Base.{
  ℕ, zero, suc, ◌+◌, ◌-◌, ◌*◌, ◌≤◌, ◌<◌, ◌≡◌, refl, Bool, true, false, Option, none, some, List, [],
  ◌∷◌, ap, All, filter, length, min, ltb, leb, ◌==◌, arith,
}
use monitra.Base.Sort.{sort}
use monitra.Base.Sort.Laws.{IsSorted, sort-IsSorted, length-sort, length-filter-sort}
use monitra.Models.{CheckResult}
use monitra.Backend.Regions.{index_of, nearest, latencies_of, p95_latency_ms}

-- How many entries pass a test.
abbrev pub count : (ℕ → Bool) → List ℕ → ℕ
count p xs = length (filter p xs)

index_in_range : (xs : List ℕ) (i : ℕ) → i < length xs → (v : ℕ) × (index_of xs i ≡ some v)
unfolding index_of
index_in_range [] i h = absurd (omega arith)
index_in_range (x ∷ xs) zero h = (x, refl)
index_in_range (x ∷ xs) (suc i) h = index_in_range xs i (omega arith)

none_below : (x : ℕ) (xs : List ℕ) → All (λ y. leb x y ≡ true) xs → count (λ y. ltb y x) xs ≡ 0
none_below x [] h = refl
none_below x (y ∷ ys) h = ground (arith, none_below x ys h.1, h.0)

above_all :
    (x : ℕ) (xs : List ℕ) (i v : ℕ) → All (λ y. leb x y ≡ true) xs → index_of xs i ≡ some v → x ≤ v
unfolding index_of
above_all x [] i v h e = absurd (cc)
above_all x (y ∷ ys) zero v h e = ground (arith, h.0, e)
above_all x (y ∷ ys) (suc i) v h e = above_all x ys i v h.1 e

-- The entry at a place of a sorted list has that many below it at most, and more up to it.
place_counts :
    (xs : List ℕ) (i v : ℕ)
    → IsSorted leb xs
    → index_of xs i ≡ some v
    → (suc i ≤ count (λ y. leb y v) xs)
      × (count (λ y. ltb y v) xs ≤ i)
      × (1 ≤ count (λ y. y == v) xs)
unfolding index_of
place_counts [] i v s e = absurd (cc)
place_counts (x ∷ xs) zero v s e = ground (arith, e, none_below x xs s.0)
place_counts (x ∷ xs) (suc i) v s e =
    ground (arith, place_counts xs i v s.1 e, above_all x xs i v s.0 e)

-- `(n as f64 * 0.95).ceil()` is exact: what a float computes for the length of a list.
abbrev pub IsCeil : (ℕ → ℕ) → ℕ → Type 0
IsCeil ceil_95 n = (95 * n ≤ 100 * ceil_95 n) × (100 * ceil_95 n < 95 * n + 100)

-- Without latencies it is 0. Otherwise it is one of them; at least 95 of 100 are not above it, and
-- fewer than 95 of 100 are below it.
abbrev pub IsP95 : List ℕ → Option ℕ → Type 0
IsP95 latencies none = ⊥
IsP95 [] (some v) = v ≡ 0
IsP95 (x ∷ xs) (some v) =
    (1 ≤ count (λ y. y == v) (x ∷ xs))
    × (95 * length (x ∷ xs) ≤ 100 * count (λ y. leb y v) (x ∷ xs))
    × (100 * count (λ y. ltb y v) (x ∷ xs) < 95 * length (x ∷ xs))

leb_total : (a b : ℕ) → leb a b ≡ false → leb b a ≡ true
leb_total a b h = ground arith

leb_trans : (a b c : ℕ) → leb a b ≡ true → leb b c ≡ true → leb a c ≡ true
leb_trans a b c p q = ground arith

nearest-IsP95 :
    (ceil_95 : ℕ → ℕ) (xs : List ℕ) → IsCeil ceil_95 (length xs) → IsP95 xs (nearest ceil_95 xs)
unfolding nearest
nearest-IsP95 ceil_95 [] h = refl
nearest-IsP95 ceil_95 (x ∷ xs) (reaches, below) =
    let latencies = sort leb (x ∷ xs) in
    let same = length-sort leb (x ∷ xs) in
    let at = min (ceil_95 (length latencies) - 1) (length latencies - 1) in
    let ceil_same : ceil_95 (length latencies) ≡ ceil_95 (length (x ∷ xs)) = ap ceil_95 same in
    let (v, e) = index_in_range latencies at (omega (arith, same)) in
    let (up_to, under, here) =
      place_counts latencies at v (sort-IsSorted leb leb_total leb_trans (x ∷ xs)) e in
    rw e (
      omega (arith, here, length-filter-sort leb (λ y. y == v) (x ∷ xs)),
      omega (
        arith,
        up_to,
        reaches,
        below,
        same,
        ceil_same,
        length-filter-sort leb (λ y. leb y v) (x ∷ xs),
      ),
      omega (
        arith,
        under,
        reaches,
        below,
        same,
        ceil_same,
        length-filter-sort leb (λ y. ltb y v) (x ∷ xs),
      ),
    )

-- For any results `p95_latency_ms` gives the nearest-rank 95th percentile of the latencies of the
-- successful ones: one of them, with at least 95 of 100 not above it and fewer than 95 of 100 below
-- it; and 0 if there are none; where the product with 0.95 is rounded up exactly.
pub p95_latency_ms-IsP95 :
    (ceil_95 : ℕ → ℕ) (results : List CheckResult)
    → IsCeil ceil_95 (length (latencies_of results))
    → IsP95 (latencies_of results) (p95_latency_ms ceil_95 results)
unfolding p95_latency_ms
p95_latency_ms-IsP95 ceil_95 results = nearest-IsP95 ceil_95 (latencies_of results)
