-- ===== src/Base/Sorting.antt =====
-- Insertion sort by a strict order, for `sort.Slice`, `sort.Strings` and ORDER BY; the source sorts
-- lists on which the order leaves one result, or whose order is not used.
use mathlib.Core.Logic.{inl, inr}
use mathlib.Core.Path.{◌≡◌}
use mathlib.Core.Bool.{Bool, true, false}
use mathlib.Core.List.{List, [], ◌∷◌}
use regixtry.Base.Tests.{if◌then◌else◌, Bool-cases}
use regixtry.Base.Lists.{Elem, All}

module _ {A : Type 0} (less : A → A → Bool) where
  abbrev pub sorted_insert : A → List A → List A
  sorted_insert x [] = x ∷ []
  sorted_insert x (y ∷ ys) =
      let rest = sorted_insert x ys in if less y x then y ∷ rest else x ∷ y ∷ ys

  abbrev pub sort_by : List A → List A
  sort_by [] = []
  sort_by (x ∷ xs) = sorted_insert x (sort_by xs)

  insert-Elem : (x a : A) (ys : List A) → Elem a (x ∷ ys) → Elem a (sorted_insert x ys)
  insert-Elem x a [] h = h
  insert-Elem x a (y ∷ ys) (inl e) = elim (Bool-cases (less y x)) [
    | inl q ↦ rw q (inr (insert-Elem x a ys (inl e)))
    | inr q ↦ rw q (inl e)
  ]
  insert-Elem x a (y ∷ ys) (inr (inl e)) = elim (Bool-cases (less y x)) [
    | inl q ↦ rw q (inl e)
    | inr q ↦ rw q (inr (inl e))
  ]
  insert-Elem x a (y ∷ ys) (inr (inr m)) = elim (Bool-cases (less y x)) [
    | inl q ↦ rw q (inr (insert-Elem x a ys (inr m)))
    | inr q ↦ rw q (inr (inr m))
  ]

  Elem-insert : (x a : A) (ys : List A) → Elem a (sorted_insert x ys) → Elem a (x ∷ ys)
  Elem-insert x a [] h = h
  Elem-insert x a (y ∷ ys) h = elim (Bool-cases (less y x)) [
    | inl q ↦ swap (rw q at h) (Elem-insert x a ys)
    | inr q ↦ rw q at h
  ]
    where
      swap :
          Elem a (y ∷ sorted_insert x ys)
          → (Elem a (sorted_insert x ys) → Elem a (x ∷ ys))
          → Elem a (x ∷ y ∷ ys)
      swap (inl e) f = inr (inl e)
      swap (inr m) f = elim (f m) [ inl e ↦ inl e | inr n ↦ inr (inr n) ]

  pub sort-Elem : (a : A) (xs : List A) → Elem a xs → Elem a (sort_by xs)
  sort-Elem a [] h = h
  sort-Elem a (x ∷ xs) (inl e) = insert-Elem x a (sort_by xs) (inl e)
  sort-Elem a (x ∷ xs) (inr m) = insert-Elem x a (sort_by xs) (inr (sort-Elem a xs m))

  pub Elem-sort : (a : A) (xs : List A) → Elem a (sort_by xs) → Elem a xs
  Elem-sort a [] h = h
  Elem-sort a (x ∷ xs) h = elim (Elem-insert x a (sort_by xs) h) [
    | inl e ↦ inl e
    | inr m ↦ inr (Elem-sort a xs m)
  ]

  -- No element is less than one before it.
  abbrev pub IsSorted : List A → Type 0
  IsSorted [] = Unit {0}
  IsSorted (x ∷ xs) = All (λ y. less y x ≡ false) xs × IsSorted xs

  module _ (chain : (a b c : A) → less b a ≡ false → less c b ≡ false → less c a ≡ false)
      (asym : (a b : A) → less a b ≡ true → less b a ≡ false) where
    insert-All :
        (y x : A) (xs : List A)
        → less x y ≡ false
        → All (λ z. less z y ≡ false) xs
        → All (λ z. less z y ≡ false) (sorted_insert x xs)
    insert-All y x [] h k = (h, tt)
    insert-All y x (z ∷ zs) h (k, ks) = elim (Bool-cases (less z x)) [
      | inl q ↦ rw q (k, insert-All y x zs h ks)
      | inr q ↦ rw q (h, (k, ks))
    ]

    above :
        (x y : A) (ys : List A)
        → less y x ≡ false
        → All (λ z. less z y ≡ false) ys
        → All (λ z. less z x ≡ false) ys
    above x y [] h k = tt
    above x y (z ∷ zs) h (k, ks) = (chain x y z h k, above x y zs h ks)

    insert-IsSorted : (x : A) (xs : List A) → IsSorted xs → IsSorted (sorted_insert x xs)
    insert-IsSorted x [] h = (tt, tt)
    insert-IsSorted x (y ∷ ys) (k, ks) = elim (Bool-cases (less y x)) [
      | inl q ↦ rw q (insert-All y x ys (asym y x q) k, insert-IsSorted x ys ks)
      | inr q ↦ rw q ((q, above x y ys q k), (k, ks))
    ]

    pub sort-IsSorted : (xs : List A) → IsSorted (sort_by xs)
    sort-IsSorted [] = tt
    sort-IsSorted (x ∷ xs) = insert-IsSorted x (sort_by xs) (sort-IsSorted xs)
