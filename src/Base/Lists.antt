-- ===== src/Base/Lists.antt =====
-- Lists: lengths over the native numbers, loops that search or filter, membership.
use Prim.Native.Nat.{ℕ, suc, ◌+◌}
use mathlib.Core.Path.{◌≡◌, refl, ap}
use mathlib.Core.Logic.{◌⊎◌, inl, inr}
use mathlib.Core.Bool.{Bool, true, false}
use mathlib.Core.Option.{Option, none, some}
use mathlib.Core.List.{List, [], ◌∷◌, ◌++◌, map}
use native.Mathlib.Omega.{arith}
use regixtry.Base.Tests.{if◌then◌else◌, Bool-cases}

module _ {ℓ} {A : Type ℓ} where
  abbrev pub length : List A → ℕ
  length [] = 0
  length (x ∷ xs) = suc (length xs)

  pub length-append : (xs ys : List A) → length (xs ++ ys) ≡ length xs + length ys
  length-append [] ys = omega arith
  length-append (x ∷ xs) ys = omega (arith, length-append xs ys)

  -- A `for` loop that returns true at the first element that passes.
  abbrev pub any : (A → Bool) → List A → Bool
  any p [] = false
  any p (x ∷ xs) = if p x then true else any p xs

  abbrev pub all : (A → Bool) → List A → Bool
  all p [] = true
  all p (x ∷ xs) = if p x then all p xs else false

  -- The first element that passes.
  abbrev pub find? : (A → Bool) → List A → Option A
  find? p [] = none
  find? p (x ∷ xs) = if p x then some x else find? p xs

  -- The elements that pass, in order.
  abbrev pub keep : (A → Bool) → List A → List A
  keep p [] = []
  keep p (x ∷ xs) = let rest = keep p xs in if p x then x ∷ rest else rest

-- Membership, by recursion.
abbrev pub Elem : {A : Type 0} → A → List A → Type 0
Elem a [] = ⊥
Elem a (x ∷ xs) = (a ≡ x) ⊎ Elem a xs

abbrev pub All {κ} : {A : Type 0} → (A → Type κ) → List A → Type κ
All P [] = Unit
All P (x ∷ xs) = P x × All P xs

module _ {A : Type 0} where
  pub any_of_Elem : (p : A → Bool) (a : A) (xs : List A) → Elem a xs → p a ≡ true → any p xs ≡ true
  any_of_Elem p a [] m h = absurd m
  any_of_Elem p a (x ∷ xs) (inl e) h = ground arith
  any_of_Elem p a (x ∷ xs) (inr m) h = ground (arith, any_of_Elem p a xs m h)

  pub Elem-of_any :
      (p : A → Bool) (xs : List A) → any p xs ≡ true → (a : A) × Elem a xs × (p a ≡ true)
  Elem-of_any p [] h = absurd (cc)
  Elem-of_any p (x ∷ xs) h = elim (Bool-cases (p x)) [
    | inl e ↦ (x, inl refl, e)
    | inr e ↦ let (a, m, q) = Elem-of_any p xs (rw e at h) in (a, inr m, q)
  ]

  pub All-elem {κ} : (P : A → Type κ) (a : A) (xs : List A) → All P xs → Elem a xs → P a
  All-elem P a [] h m = absurd m
  All-elem P a (x ∷ xs) h (inl e) = rw e h.0
  All-elem P a (x ∷ xs) h (inr m) = All-elem P a xs h.1 m

  pub All-of_Elem {κ} : (P : A → Type κ) (xs : List A) → ((a : A) → Elem a xs → P a) → All P xs
  All-of_Elem P [] h = tt
  All-of_Elem P (x ∷ xs) h = (h x (inl refl), All-of_Elem P xs (λ a m. h a (inr m)))

  pub All-append {κ} : (P : A → Type κ) (xs ys : List A) → All P xs → All P ys → All P (xs ++ ys)
  All-append P [] ys h k = k
  All-append P (x ∷ xs) ys h k = (h.0, All-append P xs ys h.1 k)

  pub find?-Elem :
      (p : A → Bool) (xs : List A) {a : A} → find? p xs ≡ some a → Elem a xs × (p a ≡ true)
  find?-Elem p [] h = cc
  find?-Elem p (x ∷ xs) {a} h = elim (Bool-cases (p x)) [
    | inl e ↦ ground arith
    | inr e ↦ let (m, q) = find?-Elem p xs (rw e at h) in (inr m, q)
  ]

  pub Elem-keep :
      (p : A → Bool) (xs : List A) {a : A} → Elem a (keep p xs) → Elem a xs × (p a ≡ true)
  Elem-keep p [] h = absurd h
  Elem-keep p (x ∷ xs) {a} h = elim (Bool-cases (p x)) [
    | inl e ↦
        let m : Elem a (x ∷ keep p xs) = rw e at h in
        elim m [ inl q ↦ (inl q, rw q e) | inr n ↦ let (k, r) = Elem-keep p xs n in (inr k, r) ]
    | inr e ↦ let (m, q) = Elem-keep p xs (rw e at h) in (inr m, q)
  ]

  pub keep-Elem : (p : A → Bool) (xs : List A) {a : A} → Elem a xs → p a ≡ true → Elem a (keep p xs)
  keep-Elem p [] h q = absurd h
  keep-Elem p (x ∷ xs) (inl e) q = ground arith
  keep-Elem p (x ∷ xs) (inr m) q = ground (arith, keep-Elem p xs m q)

  pub All-map {κ μ} :
      (P : A → Type κ) (Q : A → Type μ) (xs : List A) → ((a : A) → P a → Q a) → All P xs → All Q xs
  All-map P Q [] f h = tt
  All-map P Q (x ∷ xs) f h = (f x h.0, All-map P Q xs f h.1)

  pub all-All : (p : A → Bool) (xs : List A) → all p xs ≡ true → All (λ x. p x ≡ true) xs
  all-All p [] h = tt
  all-All p (x ∷ xs) h = elim (Bool-cases (p x)) [
    | inl e ↦ (e, all-All p xs (rw e at h))
    | inr e ↦ absurd (ground arith)
  ]

  pub All-all : (p : A → Bool) (xs : List A) → All (λ x. p x ≡ true) xs → all p xs ≡ true
  All-all p [] h = refl
  All-all p (x ∷ xs) h = rw h.0 (All-all p xs h.1)

module _ {A B : Type 0} (f : A → B) where
  pub All-of_map {κ} : (P : B → Type κ) (xs : List A) → All (λ x. P (f x)) xs → All P (map f xs)
  All-of_map P [] h = tt
  All-of_map P (x ∷ xs) h = (h.0, All-of_map P xs h.1)

  pub Elem-map : (b : B) (xs : List A) → Elem b (map f xs) → (a : A) × Elem a xs × (b ≡ f a)
  Elem-map b [] h = absurd h
  Elem-map b (x ∷ xs) (inl e) = (x, inl refl, e)
  Elem-map b (x ∷ xs) (inr m) = let (a, n, e) = Elem-map b xs m in (a, inr n, e)

  pub map-Elem : (a : A) (xs : List A) → Elem a xs → Elem (f a) (map f xs)
  map-Elem a [] h = absurd h
  map-Elem a (x ∷ xs) (inl e) = inl (ap f e)
  map-Elem a (x ∷ xs) (inr m) = inr (map-Elem a xs m)
