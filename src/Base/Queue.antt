-- ===== src/Base/Queue.antt =====
-- A bounded queue that makes room by dropping its oldest entry: the body that
-- `AssignmentHandle::enqueue`, `RetryingNotifier::enqueue` and `PushBuffer::push_back_all` share.
use Prim.Native.Nat.{ℕ, ◌+◌, ◌-◌, ◌≤◌}
use mathlib.Core.Path.{◌≡◌, sym, ap, ◌∙◌}
use mathlib.Core.Logic.{inl, inr}
use mathlib.Core.List.{List, [], ◌∷◌, ◌++◌, append-nil, append_assoc}
use native.Mathlib.Omega.{arith}
use monitra.Base.Tests.{leb, if◌then◌else◌, leb→le, not-leb, Bool-cases}
use monitra.Base.Lists.{length, drop, length-append, length-drop, drop-append_le, drop-drop}

module _ {ℓ} {A : Type ℓ} where
  -- `VecDeque::pop_front`, for what it leaves.
  abbrev pub pop_front : List A → List A
  pop_front [] = []
  pop_front (x ∷ xs) = xs

  -- `if queue.len() >= capacity { queue.pop_front(); } queue.push_back(x);`
  unfoldable pub push_bounded : ℕ → List A → A → List A
  push_bounded capacity q x = (if leb capacity (length q) then pop_front q else q) ++ x ∷ []

  -- The newest `n` entries.
  abbrev pub last_of : ℕ → List A → List A
  last_of n xs = drop (length xs - n) xs

module _ {ℓ} {A : Type ℓ} where
  pub length-last_of : (n : ℕ) (xs : List A) → length (last_of n xs) ≤ n
  length-last_of n xs = omega (arith, length-drop (length xs - n) xs)

  pub last_of_all : (n : ℕ) (xs : List A) → length xs ≤ n → last_of n xs ≡ xs
  last_of_all n xs h = ap (λ k. drop k xs) {x = length xs - n} {y = 0} (omega arith)

  pub last_of-nil : (n : ℕ) → last_of {A = A} n [] ≡ []
  last_of-nil n = last_of_all n [] (omega arith)

  -- To keep the newest, what was dropped before does not matter.
  pub last_of-append :
      (n : ℕ) (xs ys : List A) → last_of n (last_of n xs ++ ys) ≡ last_of n (xs ++ ys)
  last_of-append n xs ys =
      let k = length xs - n in
      ap (λ zs. last_of n zs) (sym (drop-append_le k xs ys (omega arith)))
      ∙ drop-drop (length (drop k (xs ++ ys)) - n) k (xs ++ ys)
      ∙ ap (λ m. drop m (xs ++ ys))
          (omega (arith, length-drop k (xs ++ ys), length-append {ℓ} xs ys))

  -- Within its bound, a push keeps the newest entries.
  pub push_bounded-eq-last_of :
      (n : ℕ) (q : List A) (x : A)
      → 1 ≤ n
      → length q ≤ n
      → push_bounded n q x ≡ last_of n (q ++ x ∷ [])
  unfolding push_bounded
  push_bounded-eq-last_of n [] x h le = ground arith
  push_bounded-eq-last_of n (y ∷ q) x h le = elim (Bool-cases (leb n (length (y ∷ q)))) [
    | inl full ↦ rw full (
        ap (λ k. drop k (y ∷ (q ++ x ∷ []))) {x = 1} {y = length (y ∷ (q ++ x ∷ [])) - n}
          (omega (arith, length-append {ℓ} q (x ∷ []), leb→le _ _ full)))
    | inr room ↦ rw room (
        sym (
          last_of_all n (y ∷ (q ++ x ∷ []))
            (omega (arith, length-append {ℓ} q (x ∷ []), not-leb _ _ room))))
  ]

  -- With room left, a push drops nothing.
  pub push_bounded_room :
      (n : ℕ) (q : List A) (x : A) → length q + 1 ≤ n + (1 - n) → push_bounded n q x ≡ q ++ x ∷ []
  unfolding push_bounded
  push_bounded_room n [] x h = ground arith
  push_bounded_room n (y ∷ q) x h = ground arith

  pub length-push_bounded :
      (n : ℕ) (q : List A) (x : A)
      → length q ≤ n + (1 - n)
      → length (push_bounded n q x) ≤ n + (1 - n)
  unfolding push_bounded
  length-push_bounded n [] x le = ground arith
  length-push_bounded n (y ∷ q) x le =
      ground (arith, length-append {ℓ} (y ∷ q) (x ∷ []), length-append {ℓ} q (x ∷ []))

-- A batch pushed one after another.
module _ {ℓ} {A : Type ℓ} where
  unfoldable pub push_all_bounded : ℕ → List A → List A → List A
  push_all_bounded capacity q [] = q
  push_all_bounded capacity q (x ∷ xs) = push_all_bounded capacity (push_bounded capacity q x) xs

  pub push_all_bounded-eq-last_of :
      (n : ℕ) (q xs : List A) → 1 ≤ n → length q ≤ n → push_all_bounded n q xs ≡ last_of n (q ++ xs)
  unfolding push_all_bounded
  push_all_bounded-eq-last_of n q [] h le = rw append-nil (sym (last_of_all n q le))
  push_all_bounded-eq-last_of n q (x ∷ xs) h le =
      let here = push_bounded-eq-last_of n q x h le in
      push_all_bounded-eq-last_of n (push_bounded n q x) xs h
        (rw here (length-last_of n (q ++ x ∷ [])))
      ∙ ap (λ zs. last_of n (zs ++ xs)) here
      ∙ last_of-append n (q ++ x ∷ []) xs
      ∙ ap (last_of n) (append_assoc q (x ∷ []) xs)
