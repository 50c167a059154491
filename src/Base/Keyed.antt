-- ===== src/Base/Keyed.antt =====
-- Maps with distinct keys whose values know their key: a value is visited exactly if a lookup finds
-- it.
use mathlib.Core.Path.{◌≡◌, refl, ap}
use mathlib.Core.Logic.{inl, inr}
use mathlib.Core.Option.{none, some}
use mathlib.Core.List.{[], ◌∷◌}
use native.Mathlib.Omega.{arith}
use happy_server_lite.Base.Tests.{Bool-cases}
use happy_server_lite.Base.Text.{GoString, ◌==◌, ==_iff}
use happy_server_lite.Base.GoMap.{Map, lookup, insert, values, lookup-insert}
use happy_server_lite.Base.Sorting.{In}

module _ {V : Type 0} where
  abbrev pub Unique : Map V → Type 0
  Unique [] = Unit {0}
  Unique ((k, v) ∷ m) = (lookup k m ≡ none) × Unique m

  abbrev pub OwnKeys : (V → GoString) → Map V → Type 0
  OwnKeys key_of [] = Unit {0}
  OwnKeys key_of ((k, v) ∷ m) = (key_of v ≡ k) × OwnKeys key_of m

  pub insert-Unique : (k : GoString) (v : V) (m : Map V) → Unique m → Unique (insert k v m)
  unfolding lookup insert
  insert-Unique k v [] u = (refl, tt)
  insert-Unique k v ((j, w) ∷ m) u =
      ground (arith, insert-Unique k v m u.1, lookup-insert j k v m, ==_iff j k, ==_iff k j)

  pub insert-OwnKeys :
      (key_of : V → GoString) (k : GoString) (v : V) (m : Map V)
      → key_of v ≡ k
      → OwnKeys key_of m
      → OwnKeys key_of (insert k v m)
  unfolding insert
  insert-OwnKeys key_of k v [] e o = (e, tt)
  insert-OwnKeys key_of k v ((j, w) ∷ m) e o =
      ground (arith, insert-OwnKeys key_of k v m e o.1, ==_iff j k)

  pub In-values_of_lookup :
      (k : GoString) (x : V) (m : Map V) → lookup k m ≡ some x → In x (values m)
  unfolding lookup
  In-values_of_lookup k x [] h = cc
  In-values_of_lookup k x ((j, w) ∷ m) h = elim (Bool-cases (j == k)) [
    | inl here ↦ inl (ground (arith, h))
    | inr there ↦ inr (In-values_of_lookup k x m (ground (arith, h)))
  ]

  pub key_of_lookup :
      (key_of : V → GoString) (k : GoString) (x : V) (m : Map V)
      → OwnKeys key_of m
      → lookup k m ≡ some x
      → key_of x ≡ k
  unfolding lookup
  key_of_lookup key_of k x [] o h = cc
  key_of_lookup key_of k x ((j, w) ∷ m) o h =
      ground (arith, key_of_lookup key_of k x m o.1, ==_iff j k)

  pub lookup_of_In-values :
      (key_of : V → GoString) (x : V) (m : Map V)
      → OwnKeys key_of m
      → Unique m
      → In x (values m)
      → lookup (key_of x) m ≡ some x
  unfolding lookup
  lookup_of_In-values key_of x [] o u i = elim i [ ]
  lookup_of_In-values key_of x ((j, w) ∷ m) o u (inl e) =
      ground (arith, ap key_of e, ==_iff j (key_of x), o.0)
  lookup_of_In-values key_of x ((j, w) ∷ m) o u (inr i) =
      let found = lookup_of_In-values key_of x m o.1 u.1 i in
      elim (Bool-cases (j == key_of x)) [
        | inl same ↦
            let e = (==_iff j (key_of x)).0 same in
            absurd (cc (ap (λ (k : GoString). lookup k m) e, u.0, found))
        | inr other ↦ rw other found
      ]
