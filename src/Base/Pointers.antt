-- ===== src/Base/Pointers.antt =====
-- Sets of pointers, `map[*T]struct{}` in Go: a pointer is a number, a set the list of its elements in
-- the order of a visit.
use Prim.Native.Nat.{ℕ}
use mathlib.Core.Path.{◌≡◌, refl, sym, ap, ◌∙◌}
use mathlib.Core.Logic.{inl, inr}
use mathlib.Core.Bool.{Bool, true, false, not, ◌&&◌, ◌||◌}
use mathlib.Core.List.{List, [], ◌∷◌, ◌++◌}
use native.Mathlib.Omega.{arith}
use happy_server_lite.Base.Tests.{if◌then◌else◌, eqb, eqb_iff}
use happy_server_lite.Base.Lists.{filter}
use happy_server_lite.Base.Sorting.{In}

abbrev pub Pointer : Type 0
Pointer = ℕ

unfoldable pub contains : List Pointer → Pointer → Bool
contains [] p = false
contains (q ∷ qs) p = eqb q p || contains qs p

-- `set[p] = struct{}{}`
unfoldable pub add : Pointer → List Pointer → List Pointer
unfolding contains
add p qs = if contains qs p then qs else qs ++ p ∷ []

-- `delete(set, p)`
unfoldable pub remove : Pointer → List Pointer → List Pointer
unfolding filter
remove p qs = filter (λ q. not (eqb q p)) qs

unfoldable pub remove_all : List Pointer → List Pointer → List Pointer
remove_all [] qs = qs
remove_all (p ∷ ps) qs = remove_all ps (remove p qs)

filter-ext :
    (f g : Pointer → Bool) (qs : List Pointer)
    → ((q : Pointer) → In q qs → f q ≡ g q)
    → filter f qs ≡ filter g qs
unfolding filter
filter-ext f g [] h = refl
filter-ext f g (q ∷ qs) h = ground (arith, h q (inl refl), filter-ext f g qs (λ p i. h p (inr i)))

filter-filter :
    (f g : Pointer → Bool) (qs : List Pointer)
    → filter f (filter g qs) ≡ filter (λ q. g q && f q) qs
unfolding filter
filter-filter f g [] = refl
filter-filter f g (q ∷ qs) = ground (arith, filter-filter f g qs)

filter-true : (qs : List Pointer) → filter (λ q. true) qs ≡ qs
unfolding filter
filter-true [] = refl
filter-true (q ∷ qs) = ap (◌∷◌ q) (filter-true qs)

remove_all-filter : (ps qs : List Pointer) → remove_all ps qs ≡ filter (λ q. not (contains ps q)) qs
unfolding remove_all remove contains
remove_all-filter [] qs = sym (filter-true qs)
remove_all-filter (p ∷ ps) qs =
    remove_all-filter ps (remove p qs)
    ∙ filter-filter (λ q. not (contains ps q)) (λ q. not (eqb q p)) qs
    ∙ filter-ext _ _ qs (λ q i. ground arith)

contains-filter :
    (f : Pointer → Bool) (qs : List Pointer) (p : Pointer)
    → contains (filter f qs) p ≡ (f p && contains qs p)
unfolding contains filter
contains-filter f [] p = ground arith
contains-filter f (q ∷ qs) p = ground (arith, contains-filter f qs p, ap f, eqb_iff q p)

contains_of_In : (qs : List Pointer) (p : Pointer) → In p qs → contains qs p ≡ true
unfolding contains
contains_of_In [] p i = elim i [ ]
contains_of_In (q ∷ qs) p (inl e) = ground arith
contains_of_In (q ∷ qs) p (inr i) = ground (arith, contains_of_In qs p i)

-- To remove the elements that fail a test leaves those that pass it.
pub remove_all_failed :
    (f : Pointer → Bool) (qs : List Pointer)
    → remove_all (filter (λ q. not (f q)) qs) qs ≡ filter f qs
remove_all_failed f qs =
    remove_all-filter (filter (λ q. not (f q)) qs) qs
    ∙ filter-ext _ f qs
        (λ q i. ground (arith, contains-filter (λ p. not (f p)) qs q, contains_of_In qs q i))

contains-append :
    (ps qs : List Pointer) (r : Pointer) → contains (ps ++ qs) r ≡ (contains ps r || contains qs r)
unfolding contains
contains-append [] qs r = refl
contains-append (p ∷ ps) qs r = ground (arith, contains-append ps qs r)

contains_same : (p r : Pointer) (qs : List Pointer) → eqb p r ≡ true → contains qs r ≡ contains qs p
contains_same p r qs e = ap (contains qs) (ground (arith, e))

pub contains-add :
    (p : Pointer) (qs : List Pointer) (r : Pointer)
    → contains (add p qs) r ≡ (eqb p r || contains qs r)
unfolding add contains
contains-add p qs r =
    ground (arith, contains-append qs (p ∷ []) r, contains_same p r qs, eqb_iff p r)

pub contains-remove :
    (p : Pointer) (qs : List Pointer) (r : Pointer)
    → contains (remove p qs) r ≡ (not (eqb r p) && contains qs r)
unfolding remove
contains-remove p qs r = contains-filter (λ q. not (eqb q p)) qs r
