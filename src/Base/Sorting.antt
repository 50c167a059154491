-- ===== src/Base/Sorting.antt =====
-- `sort.Slice` keeps the elements, sorts them, and depends on their order only where elements compare
-- as equal; and filters, membership and keyed maps under a change of order.
use mathlib.Core.List.Permᴰ
use mathlib.Core.Path.{◌≡◌, refl, ap, ap₂, ◌∙◌}
use mathlib.Core.Logic.{◌⊎◌, inl, inr}
use mathlib.Core.Bool.{Bool, true, false}
use mathlib.Core.List.{Permᴰ, List, [], ◌∷◌}
use native.Mathlib.Omega.{arith}
use happy_server_lite.Base.Tests.{Bool-cases}
use happy_server_lite.Base.Lists.{filter, insert_sorted, sort_slice}

module _ {A : Type 0} where
  abbrev pub In : A → List A → Type 0
  In x [] = ⊥
  In x (y ∷ ys) = (x ≡ y) ⊎ In x ys

  pub In-Permᴰ : (x : A) {xs ys : List A} → Permᴰ xs ys → In x xs → In x ys
  In-Permᴰ x Permᴰ.nil h = h
  In-Permᴰ x (Permᴰ.cons e p) (inl q) = inl (q ∙ e)
  In-Permᴰ x (Permᴰ.cons e p) (inr h) = inr (In-Permᴰ x p h)
  In-Permᴰ x (Permᴰ.swap e f) (inl q) = inr (inl (q ∙ e))
  In-Permᴰ x (Permᴰ.swap e f) (inr (inl q)) = inl (q ∙ f)
  In-Permᴰ x (Permᴰ.swap e f) (inr (inr h)) = inr (inr h)
  In-Permᴰ x (Permᴰ.trans p q) h = In-Permᴰ x q (In-Permᴰ x p h)

  pub In-filter_of :
      (p : A → Bool) (x : A) (xs : List A) → In x xs → p x ≡ true → In x (filter p xs)
  unfolding filter
  In-filter_of p x [] h t = h
  In-filter_of p x (y ∷ ys) (inl e) t = rw (← e, t) (inl refl)
  In-filter_of p x (y ∷ ys) (inr h) t = elim (Bool-cases (p y)) [
    | inl keep ↦ rw keep (inr (In-filter_of p x ys h t))
    | inr out ↦ rw out (In-filter_of p x ys h t)
  ]

  pub of_In-filter :
      (p : A → Bool) (x : A) (xs : List A) → In x (filter p xs) → In x xs × (p x ≡ true)
  unfolding filter
  of_In-filter p x [] h = elim h [ ]
  of_In-filter p x (y ∷ ys) h = elim (Bool-cases (p y)) [
    | inl keep ↦ elim (rw keep at h) [
      | inl e ↦ (inl e, rw e keep)
      | inr i ↦ let (j, t) = of_In-filter p x ys i in (inr j, t)
    ]
    | inr out ↦ let (j, t) = of_In-filter p x ys (rw out at h) in (inr j, t)
  ]

  pub filter-Permᴰ :
      (p : A → Bool) {xs ys : List A} → Permᴰ xs ys → Permᴰ (filter p xs) (filter p ys)
  unfolding filter
  filter-Permᴰ p Permᴰ.nil = Permᴰ.nil
  filter-Permᴰ p (Permᴰ.cons {a = a} {l₂ = l₂} e q) =
      let rest = filter-Permᴰ p q in
      rw (← e) (elim (Bool-cases (p a)) [
        | inl keep ↦ rw keep (Permᴰ.cons refl rest)
        | inr out ↦ rw out rest
      ])
  filter-Permᴰ p (Permᴰ.swap {a = a} {b = b} {l = l} e f) =
      rw (← e, ← f)
        (elim (Bool-cases (p a)) [
          | inl ka ↦ elim (Bool-cases (p b)) [
            | inl kb ↦ rw (ka, kb) (Permᴰ.swap refl refl)
            | inr kb ↦ rw (ka, kb) (Permᴰ.refl _)
          ]
          | inr ka ↦ rw ka (Permᴰ.refl _)
        ])
  filter-Permᴰ p (Permᴰ.trans q r) = Permᴰ.trans (filter-Permᴰ p q) (filter-Permᴰ p r)

module _ {A : Type 0} (less : A → A → Bool) where
  -- Elements that compare as equal are equal.
  abbrev pub Separated : List A → Type 0
  Separated l = (x y : A) → In x l → In y l → less x y ≡ false → less y x ≡ false → x ≡ y

  -- No element is below the one before it, anywhere behind it.
  abbrev pub IsSorted : List A → Type 0
  IsSorted [] = Unit {0}
  IsSorted (x ∷ xs) = ((y : A) → In y xs → less y x ≡ false) × IsSorted xs

  insert_sorted-Permᴰ : (x : A) (l : List A) → Permᴰ (insert_sorted less x l) (x ∷ l)
  unfolding insert_sorted
  insert_sorted-Permᴰ x [] = Permᴰ.refl (x ∷ [])
  insert_sorted-Permᴰ x (y ∷ l) = elim (Bool-cases (less y x)) [
    | inl below ↦
        rw below (Permᴰ.trans (Permᴰ.cons refl (insert_sorted-Permᴰ x l)) (Permᴰ.swap refl refl))
    | inr stop ↦ rw stop (Permᴰ.refl (x ∷ y ∷ l))
  ]

  pub sort_slice-Permᴰ : (l : List A) → Permᴰ (sort_slice less l) l
  unfolding sort_slice
  sort_slice-Permᴰ [] = Permᴰ.nil
  sort_slice-Permᴰ (x ∷ l) =
      Permᴰ.trans (insert_sorted-Permᴰ x (sort_slice less l)) (Permᴰ.cons refl (sort_slice-Permᴰ l))

-- A strict weak order as a test, which is what `sort.Slice` wants of `less`.
pub record IsOrder {A : Type 0} (less : A → A → Bool) : Type 0 where
  pub asym : (x y : A) → less x y ≡ true → less y x ≡ false
  pub cotrans : (x y z : A) → less x z ≡ true → less y z ≡ false → less x y ≡ true

module _ {A : Type 0} {less : A → A → Bool} (o : IsOrder less) where
  insert_sorted_comm :
      (x y : A) (l : List A)
      → (less x y ≡ false → less y x ≡ false → x ≡ y)
      → insert_sorted less x (insert_sorted less y l)
        ≡ insert_sorted less y (insert_sorted less x l)
  unfolding insert_sorted
  insert_sorted_comm x y [] tri = ground (arith, tri, o.asym x y, o.asym y x)
  insert_sorted_comm x y (z ∷ l) tri = ground (
    arith,
    insert_sorted_comm x y l tri,
    tri,
    o.asym x y,
    o.asym y x,
    o.cotrans z x y,
    o.cotrans z y x,
  )

  -- Where elements that compare as equal are equal, a sort gives one result whatever the order.
  pub sort_slice-eq_of_Permᴰ :
      {l k : List A} → Permᴰ l k → Separated less l → sort_slice less l ≡ sort_slice less k
  unfolding sort_slice
  sort_slice-eq_of_Permᴰ Permᴰ.nil s = refl
  sort_slice-eq_of_Permᴰ (Permᴰ.cons e p) s =
      ap₂ (insert_sorted less) e (sort_slice-eq_of_Permᴰ p (λ x y i j. s x y (inr i) (inr j)))
  sort_slice-eq_of_Permᴰ (Permᴰ.swap {a = a} {b = b} {l = l} e f) s =
      insert_sorted_comm a b (sort_slice less l) (s a b (inl refl) (inr (inl refl)))
      ∙ ap₂ (insert_sorted less) f (ap (λ (t : A). insert_sorted less t (sort_slice less l)) e)
  sort_slice-eq_of_Permᴰ (Permᴰ.trans p q) s =
      sort_slice-eq_of_Permᴰ p s
      ∙ sort_slice-eq_of_Permᴰ q
          (λ x y i j. s x y (In-Permᴰ x (Permᴰ.symm p) i) (In-Permᴰ y (Permᴰ.symm p) j))

  insert_sorted-IsSorted :
      (x : A) (l : List A) → IsSorted less l → IsSorted less (insert_sorted less x l)
  unfolding insert_sorted
  insert_sorted-IsSorted x [] s = (λ y h. elim h [ ], tt)
  insert_sorted-IsSorted x (y ∷ l) s = elim (Bool-cases (less y x)) [
    | inl below ↦ rw below (
      λ z i. elim (In-Permᴰ z (insert_sorted-Permᴰ less x l) i) [
        | inl e ↦ rw e (o.asym y x below)
        | inr h ↦ s.0 z h
      ],
      insert_sorted-IsSorted x l s.1,
    )
    | inr stop ↦
        rw stop (
          λ z i. elim i [ inl e ↦ rw e stop | inr h ↦ ground (arith, o.cotrans z y x, s.0 z h) ],
          s,
        )
  ]

  pub sort_slice-IsSorted : (l : List A) → IsSorted less (sort_slice less l)
  unfolding sort_slice
  sort_slice-IsSorted [] = tt
  sort_slice-IsSorted (x ∷ l) = insert_sorted-IsSorted x (sort_slice less l) (sort_slice-IsSorted l)
