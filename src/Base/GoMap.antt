-- ===== src/Base/GoMap.antt =====
-- Go's `map[string]V` as a list of entries. The order of the list is the order in which a `range`
-- over the map visits it: Go leaves that order open, and theorems hold for every list.
use mathlib.Core.Path.{◌≡◌, refl}
use mathlib.Core.Logic.{◌≢◌}
use mathlib.Core.Option.{Option, none, some}
use mathlib.Core.List.{List, [], ◌∷◌, map}
use native.Mathlib.Omega.{arith}
use happy_server_lite.Base.Tests.{if◌then◌else◌}
use happy_server_lite.Base.Text.{GoString, ◌==◌, ==_iff, ==_refl}

abbrev pub Map {ℓ} : Type ℓ → Type ℓ
Map V = List (GoString × V)

module _ {ℓ} {V : Type ℓ} where
  -- `v, ok := m[k]`
  unfoldable pub lookup : GoString → Map V → Option V
  lookup k [] = none
  lookup k ((j, v) ∷ m) = if j == k then some v else lookup k m

  -- `m[k] = v`
  unfoldable pub insert : GoString → V → Map V → Map V
  insert k v [] = (k, v) ∷ []
  insert k v ((j, w) ∷ m) = if j == k then (j, v) ∷ m else (j, w) ∷ insert k v m

  -- `delete(m, k)`
  unfoldable pub delete : GoString → Map V → Map V
  delete k [] = []
  delete k ((j, w) ∷ m) = if j == k then delete k m else (j, w) ∷ delete k m

  abbrev pub values : Map V → List V
  values = map (λ e. e.1)

  -- `m[k]`, with the zero value of the type for a missing key
  abbrev pub get_or : GoString → V → Map V → V
  get_or k zero_value m = elim (lookup k m) [ some v ↦ v | none ↦ zero_value ]

  pub lookup-insert :
      (j k : GoString) (v : V) (m : Map V)
      → lookup j (insert k v m) ≡ (if k == j then some v else lookup j m)
  unfolding lookup insert
  lookup-insert j k v [] = refl
  lookup-insert j k v ((i, w) ∷ m) =
      ground (arith, ==_iff i k, ==_iff k j, ==_iff i j, lookup-insert j k v m)

  pub lookup-delete :
      (j k : GoString) (m : Map V) → lookup j (delete k m) ≡ (if k == j then none else lookup j m)
  unfolding lookup delete
  lookup-delete j k [] = ground arith
  lookup-delete j k ((i, w) ∷ m) =
      ground (arith, ==_iff i k, ==_iff k j, ==_iff i j, lookup-delete j k m)

  pub lookup-insert_self : (k : GoString) (v : V) (m : Map V) → lookup k (insert k v m) ≡ some v
  lookup-insert_self k v m = simp (lookup-insert, ==_refl)

  pub lookup-insert_ne :
      (j k : GoString) (v : V) (m : Map V) → k ≢ j → lookup j (insert k v m) ≡ lookup j m
  lookup-insert_ne j k v m h = ground (arith, lookup-insert j k v m, ==_iff k j)

  pub lookup-delete_self : (k : GoString) (m : Map V) → lookup k (delete k m) ≡ none
  lookup-delete_self k m = simp (lookup-delete, ==_refl)

pub ruleset map_laws = (lookup-insert, lookup-delete, ==_refl)
