-- ===== src/Base/Text.antt =====
-- A Go string is a sequence of bytes. Its equality test is shut: proofs go by `==_iff`.
use Prim.Native.Nat.{ℕ}
use Prim.Native.Char.{code}
use Prim.Native.String.{String}
use mathlib.Core.Path.{◌≡◌, refl}
use mathlib.Core.Logic.{◌↔◌, inl, inr}
use mathlib.Core.Bool.{Bool, true, false, ◌&&◌}
use mathlib.Core.List.{List, [], ◌∷◌}
use native.Mathlib.Omega.{arith}
use happy_server_lite.Base.Tests.{Bool-cases, eqb, ltb, if◌then◌else◌}

abbrev pub GoString : Type 0
GoString = List ℕ

-- The bytes of an ASCII literal.
abbrev pub codes : String → GoString
codes String.[] = []
codes (String.◌∷◌ c s) = code c ∷ codes s

-- `s == ""`
abbrev pub is_empty : GoString → Bool
is_empty [] = true
is_empty (c ∷ s) = false

infix 50 ◌==◌
unfoldable pub ◌==◌ : GoString → GoString → Bool
[] == [] = true
[] == (d ∷ t) = false
(c ∷ s) == [] = false
(c ∷ s) == (d ∷ t) = eqb c d && s == t

==-sound : (s t : GoString) → (s == t) ≡ true → s ≡ t
unfolding ◌==◌
==-sound [] [] h = refl
==-sound [] (d ∷ t) h = cc
==-sound (c ∷ s) [] h = cc
==-sound (c ∷ s) (d ∷ t) h = ground (arith, ==-sound s t)

pub ==_refl : (s : GoString) → (s == s) ≡ true
unfolding ◌==◌
==_refl [] = refl
==_refl (c ∷ s) = ground (arith, ==_refl s)

pub ==_iff : (s t : GoString) → ((s == t) ≡ true) ↔ (s ≡ t)
==_iff s t = (==-sound s t, λ e. rw e (==_refl t))

-- `s < t`: bytewise, a proper prefix first.
unfoldable pub str_lt : GoString → GoString → Bool
str_lt [] [] = false
str_lt [] (d ∷ t) = true
str_lt (c ∷ s) [] = false
str_lt (c ∷ s) (d ∷ t) = let rest = str_lt s t in if ltb c d then true else eqb c d && rest

pub str_lt_irrefl : (s : GoString) → str_lt s s ≡ false
unfolding str_lt
str_lt_irrefl [] = refl
str_lt_irrefl (c ∷ s) = ground (arith, str_lt_irrefl s)

pub str_lt_trans : (s t u : GoString) → str_lt s t ≡ true → str_lt t u ≡ true → str_lt s u ≡ true
unfolding str_lt
str_lt_trans [] [] u h k = cc
str_lt_trans [] (d ∷ t) [] h k = cc
str_lt_trans [] (d ∷ t) (e ∷ u) h k = refl
str_lt_trans (c ∷ s) [] u h k = cc
str_lt_trans (c ∷ s) (d ∷ t) [] h k = cc
str_lt_trans (c ∷ s) (d ∷ t) (e ∷ u) h k = ground (arith, str_lt_trans s t u)

pub str_lt_tri : (s t : GoString) → str_lt s t ≡ false → str_lt t s ≡ false → s ≡ t
unfolding str_lt
str_lt_tri [] [] h k = refl
str_lt_tri [] (d ∷ t) h k = cc
str_lt_tri (c ∷ s) [] h k = cc
str_lt_tri (c ∷ s) (d ∷ t) h k = ground (arith, str_lt_tri s t)

pub str_lt_asym : (s t : GoString) → str_lt s t ≡ true → str_lt t s ≡ false
str_lt_asym s t h = ground (arith, str_lt_trans s t s h, str_lt_irrefl s)

pub str_lt_cotrans : (s t u : GoString) → str_lt s u ≡ true → str_lt t u ≡ false → str_lt s t ≡ true
str_lt_cotrans s t u h k = elim (Bool-cases (str_lt s t)) [
  | inl below ↦ below
  | inr above ↦ elim (Bool-cases (str_lt t s)) [
    | inl back ↦ absurd (cc (str_lt_trans t s u back h, k))
    | inr level ↦ absurd (cc (str_lt_tri s t above level, h, k))
  ]
]
