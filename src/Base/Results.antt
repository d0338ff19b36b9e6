-- ===== src/Base/Results.antt =====
-- Results of fallible code, with their bind.
use mathlib.Core.Path.{◌≡◌, refl}

pub data Result {ℓ κ} (E : Type κ) (A : Type ℓ) : Type (ℓ ⊔ κ) where
  ok : A → Result E A
  err : E → Result E A

infixl 5 ◌>>=◌ ◌>>◌
abbrev pub ◌>>=◌ : {E A B : Type 0} → Result E A → (A → Result E B) → Result E B
err x >>= k = err x
ok y >>= k = k y

abbrev pub ◌>>◌ : {E B : Type 0} → Result E (Unit {0}) → Result E B → Result E B
x >> y = x >>= λ _. y

-- A chain that ends well has a first step that ends well.
pub >>=-eq-ok :
    {E A B : Type 0} (x : Result E A) (k : A → Result E B) {b : B}
    → x >>= k ≡ ok b
    → (a : A) × (x ≡ ok a) × (k a ≡ ok b)
>>=-eq-ok (err y) k e = cc
>>=-eq-ok (ok y) k e = (y, refl, e)
