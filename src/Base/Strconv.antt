-- ===== src/Base/Strconv.antt =====
-- Go's `strconv.Atoi` and `strconv.Itoa` on a 64-bit platform, and the strings functions used.
use Prim.Native.Nat.{ℕ, zero, suc, ◌+◌, ◌-◌, ◌*◌, ◌/◌, ◌%◌, ◌≤◌, ◌<◌}
use mathlib.Core.Path.{◌≡◌, refl, ◌∙◌}
use mathlib.Core.Logic.{◌≢◌, inl, inr}
use mathlib.Core.Bool.{Bool, true, ◌&&◌}
use mathlib.Core.Option.{Option, none, some}
use mathlib.Core.List.{[], ◌∷◌}
use native.Mathlib.Omega.{arith}
use happy_server_lite.Base.Tests.{Bool-cases, Option-cases, ltb, leb, eqb, if◌then◌else◌}
use happy_server_lite.Base.Text.{GoString}
use happy_server_lite.Base.Int64.{two_63, two_64, neg64}

-- `'0' <= c && c <= '9'`
unfoldable pub is_digit : ℕ → Bool
is_digit c = leb 48 c && leb c 57

-- the number that the digits spell behind `n`
unfoldable pub scan : GoString → ℕ → Option ℕ
unfolding is_digit
scan [] n = some n
scan (c ∷ s) n = let rest = scan s (n * 10 + (c - 48)) in if is_digit c then rest else none

-- `ParseInt(s, 10, 0)` on the part behind the sign: at least one digit, and no overflow
abbrev in_range : ℕ → Option ℕ → Option ℕ
in_range limit none = none
in_range limit (some n) = if leb n limit then some n else none

unfoldable pub magnitude : ℕ → GoString → Option ℕ
unfolding scan
magnitude limit [] = none
magnitude limit (c ∷ s) = in_range limit (scan (c ∷ s) 0)

abbrev negated : Option ℕ → Option ℕ
negated none = none
negated (some n) = some (neg64 n)

-- `none` is an error; a number is its two's-complement pattern.
unfoldable pub atoi : GoString → Option ℕ
unfolding magnitude
atoi [] = none
atoi (c ∷ s) =
    let minus = negated (magnitude two_63 s) in
    let plus = magnitude (two_63 - 1) s in
    let bare = magnitude (two_63 - 1) (c ∷ s) in
    if eqb c 45 then minus else if eqb c 43 then plus else bare

-- 20 digits print every 64-bit number.
abbrev pub max_digits : ℕ
max_digits = 20

abbrev pub pow_ten : ℕ → ℕ
pow_ten zero = 1
pow_ten (suc k) = 10 * pow_ten k

unfoldable pub digits : ℕ → ℕ → GoString → GoString
digits zero n out = out
digits (suc fuel) n out =
    let more = digits fuel (n / 10) ((48 + n % 10) ∷ out) in
    if eqb (n / 10) 0 then (48 + n % 10) ∷ out else more

unfoldable pub itoa : ℕ → GoString
unfolding digits
itoa n =
    let positive = digits max_digits n [] in
    let negative = 45 ∷ digits max_digits (neg64 n) [] in
    if ltb n two_63 then positive else negative

scan_last : (n : ℕ) (out : GoString) → scan ((48 + n % 10) ∷ out) (n / 10) ≡ scan out n
unfolding scan is_digit
scan_last n out = ground arith

pub scan-digits :
    (fuel n : ℕ) (out : GoString) → n < pow_ten fuel → scan (digits fuel n out) 0 ≡ scan out n
unfolding digits
scan-digits zero n out h = ground (arith, h)
scan-digits (suc fuel) n out h =
    let ih = scan-digits fuel (n / 10) ((48 + n % 10) ∷ out) (omega (arith, h)) in
    ground (arith, ih, scan_last n out)

-- every byte is a decimal digit
unfoldable pub all_digits : GoString → Bool
all_digits [] = true
all_digits (c ∷ s) = is_digit c && all_digits s

pub digits-all_digits :
    (fuel n : ℕ) (out : GoString) → all_digits out ≡ true → all_digits (digits fuel n out) ≡ true
unfolding digits all_digits is_digit
digits-all_digits zero n out h = h
digits-all_digits (suc fuel) n out h =
    ground (arith, h, digits-all_digits fuel (n / 10) ((48 + n % 10) ∷ out))

digits-ne-nil : (fuel n : ℕ) (out : GoString) → out ≢ [] → digits fuel n out ≢ []
unfolding digits
digits-ne-nil zero n out h = h
digits-ne-nil (suc fuel) n out h =
    let ih = digits-ne-nil fuel (n / 10) ((48 + n % 10) ∷ out) (cc) in ground (arith, ih)

print-ne-nil : (n : ℕ) → digits max_digits n [] ≢ []
unfolding digits
print-ne-nil n = let ih = digits-ne-nil 19 (n / 10) ((48 + n % 10) ∷ []) (cc) in ground (arith, ih)

magnitude-lem :
    (limit : ℕ) (s : GoString) (n : ℕ)
    → s ≢ []
    → scan s 0 ≡ some n
    → n ≤ limit
    → magnitude limit s ≡ some n
unfolding magnitude
magnitude-lem limit [] n h e l = absurd (h refl)
magnitude-lem limit (c ∷ s) n h e l = ground (arith, e, l)

magnitude-print :
    (limit n : ℕ) → n < two_64 → n ≤ limit → magnitude limit (digits max_digits n []) ≡ some n
unfolding scan
magnitude-print limit n h l =
    magnitude-lem limit (digits max_digits n []) n (print-ne-nil n)
      (scan-digits max_digits n [] (omega (arith, h))) l

atoi_bare : (s : GoString) → s ≢ [] → all_digits s ≡ true → atoi s ≡ magnitude (two_63 - 1) s
unfolding atoi all_digits is_digit
atoi_bare [] h d = absurd (h refl)
atoi_bare (c ∷ s) h d = ground (arith, d)

-- `strconv.Itoa` of a non-negative `int` prints digits only, at least one, ...
pub itoa-all_digits : (n : ℕ) → n < two_63 → all_digits (itoa n) ≡ true
unfolding itoa all_digits
itoa-all_digits n h = ground (arith, h, digits-all_digits max_digits n [])

pub itoa-ne-nil : (n : ℕ) → n < two_63 → itoa n ≢ []
unfolding itoa
itoa-ne-nil n h = ground (arith, h, print-ne-nil n)

-- Every 64-bit `int`, negative or not, is read back from its decimal print.
pub atoi-itoa : (n : ℕ) → n < two_64 → atoi (itoa n) ≡ some n
unfolding itoa atoi all_digits
atoi-itoa n h = elim (Bool-cases (ltb n two_63)) [
  | inl small ↦
      let bare =
        atoi_bare (digits max_digits n []) (print-ne-nil n)
          (digits-all_digits max_digits n [] refl) in
      rw small (bare ∙ magnitude-print (two_63 - 1) n h (ground (arith, small)))
  | inr large ↦
      ground
        (arith, large, magnitude-print two_63 (neg64 n) (ground (arith, h)) (ground (arith, large)))
]

magnitude-le : (limit n : ℕ) (s : GoString) → magnitude limit s ≡ some n → n ≤ limit
unfolding magnitude
magnitude-le limit n [] h = cc
magnitude-le limit n (c ∷ s) h = elim (Option-cases (scan (c ∷ s) 0)) [
  | inl e ↦ ground (arith, h, e)
  | inr (m, e) ↦ ground (arith, h, e)
]

-- What is read fits 64 bits.
pub atoi-lt : (s : GoString) (n : ℕ) → atoi s ≡ some n → n < two_64
unfolding atoi
atoi-lt [] n h = cc
atoi-lt (c ∷ s) n h = elim (Option-cases (magnitude two_63 s)) [
  | inl e ↦ ground (arith, h, e, magnitude-le (two_63 - 1) n s, magnitude-le (two_63 - 1) n (c ∷ s))
  | inr (m, e) ↦
      ground (arith, h, e, magnitude-le (two_63 - 1) n s, magnitude-le (two_63 - 1) n (c ∷ s))
]
