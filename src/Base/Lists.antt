-- ===== src/Base/Lists.antt =====
-- Lists with native lengths and Boolean tests, and `sort.Slice`.
use Prim.Native.Nat.{ℕ, zero, suc, ◌+◌, ◌-◌, ◌≤◌, ◌<◌}
use mathlib.Core.Path.{◌≡◌, refl, ap}
use mathlib.Core.Bool.{Bool}
use mathlib.Core.List.{List, [], ◌∷◌, ◌++◌}
use native.Mathlib.Omega.{arith}
use happy_server_lite.Base.Tests.{if◌then◌else◌}

module _ {ℓ} {A : Type ℓ} where
  abbrev pub length : List A → ℕ
  length [] = 0
  length (x ∷ xs) = suc (length xs)

  unfoldable pub take : ℕ → List A → List A
  take (suc n) (x ∷ xs) = x ∷ take n xs
  take _ _ = []

  unfoldable pub drop : ℕ → List A → List A
  drop (suc n) (x ∷ xs) = drop n xs
  drop zero xs = xs
  drop (suc n) [] = []

  pub take-nil : (k : ℕ) → take k [] ≡ []
  unfolding take
  take-nil zero = refl
  take-nil (suc k) = refl

  pub take-zero : (xs : List A) → take 0 xs ≡ []
  unfolding take
  take-zero [] = refl
  take-zero (x ∷ xs) = refl

  pub take-suc : (k : ℕ) (x : A) (xs : List A) → 0 < k → take k (x ∷ xs) ≡ x ∷ take (k - 1) xs
  unfolding take
  take-suc zero x xs h = absurd (omega arith)
  take-suc (suc k) x xs h = ap (λ (t : ℕ). x ∷ take t xs) (omega arith)

  pub drop-nil : (k : ℕ) → drop k [] ≡ []
  unfolding drop
  drop-nil zero = refl
  drop-nil (suc k) = refl

  pub drop-zero : (xs : List A) → drop 0 xs ≡ xs
  unfolding drop
  drop-zero xs = refl

  pub drop-suc : (k : ℕ) (x : A) (xs : List A) → 0 < k → drop k (x ∷ xs) ≡ drop (k - 1) xs
  unfolding drop
  drop-suc zero x xs h = absurd (omega arith)
  drop-suc (suc k) x xs h = ap (λ (t : ℕ). drop t xs) (omega arith)

  -- The elements that pass a test, in order: a loop with `if` and `append`.
  unfoldable pub filter : (A → Bool) → List A → List A
  filter p [] = []
  filter p (x ∷ xs) = let rest = filter p xs in if p x then x ∷ rest else rest

  abbrev pub All {κ} : (A → Type κ) → List A → Type κ
  All P [] = Unit
  All P (x ∷ xs) = P x × All P xs

  pub length-append : (xs ys : List A) → length (xs ++ ys) ≡ length xs + length ys
  length-append [] ys = omega arith
  length-append (x ∷ xs) ys = omega (arith, length-append xs ys)

  pub length-filter-le : (p : A → Bool) (xs : List A) → length (filter p xs) ≤ length xs
  unfolding filter
  length-filter-le p [] = omega arith
  length-filter-le p (x ∷ xs) = ground (arith, length-filter-le p xs)

  -- `sort.Slice(xs, less)`. Go leaves the order of equal elements open.
  unfoldable pub insert_sorted : (A → A → Bool) → A → List A → List A
  insert_sorted less x [] = x ∷ []
  insert_sorted less x (y ∷ ys) = if less y x then y ∷ insert_sorted less x ys else x ∷ y ∷ ys

  unfoldable pub sort_slice : (A → A → Bool) → List A → List A
  unfolding insert_sorted
  sort_slice less [] = []
  sort_slice less (x ∷ xs) = insert_sorted less x (sort_slice less xs)
