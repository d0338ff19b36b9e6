-- ===== src/Actions/Keeps.antt =====
-- Invariants of actions: one rule for each way to build one.
use regixtry.Base.{ℕ, suc, Bool, true, false, Option, ◌≡◌, refl, Result, ok, err, if◌then◌else◌}
use regixtry.Errors.{Error}
use regixtry.Actions.{
  Env, World, M, continue, pure, raise, lift, try, ◌>>=◌, reject, gets, ask, ask?, statement,
}

-- What may be said of the world at every moment: time passes, and the tables stay as they are.
pub record Lasting {S : Type 0} (P : World S → Type 0) : Type 0 where
  pub next : (w : World S) → P w → P (record w { tick = suc w.tick })

-- The action keeps the property, whether it returns or fails.
pub record Keeps {S A : Type 0} (P : World S → Type 0) (m : M S A) : Type 0 where
  pub at : (w : World S) → P w → P (m w).1

module _ {S A : Type 0} {P : World S → Type 0} where
  pub Keeps-pure : (a : A) → Keeps P (pure a)
  unfolding pure
  Keeps-pure a = record { at = λ w h. h }

  pub Keeps-raise : (e : Error) → Keeps P (raise {A = A} e)
  unfolding raise
  Keeps-raise e = record { at = λ w h. h }

  pub Keeps-try : (m : M S A) → Keeps P m → Keeps P (try m)
  unfolding try
  Keeps-try m k = record { at = λ w h. k.at w h }

  pub Keeps-lift : (r : Result Error A) → Keeps P (lift r)
  unfolding lift
  Keeps-lift r = record { at = λ w h. h }

  pub Keeps-gets : (f : S → A) → Keeps P (gets f)
  unfolding gets
  Keeps-gets f = record { at = λ w h. h }

  pub Keeps-if : (b : Bool) (m n : M S A) → Keeps P m → Keeps P n → Keeps P (if b then m else n)
  Keeps-if true m n km kn = km
  Keeps-if false m n km kn = kn

module _ {S : Type 0} {P : World S → Type 0} where
  pub Keeps-reject : (b : Bool) (e : Error) → Keeps P (reject b e)
  unfolding reject
  Keeps-reject true e = record { at = λ w h. h }
  Keeps-reject false e = record { at = λ w h. h }

module _ {S A B : Type 0} {P : World S → Type 0} where
  Keeps-continue :
      (r : Result Error A) (f : A → M S B) (w : World S)
      → P w
      → ((a : A) → r ≡ ok a → Keeps P (f a))
      → P (continue r f w).1
  Keeps-continue (ok a) f w h k = (k a refl).at w h
  Keeps-continue (err e) f w h k = h

  pub Keeps-bind :
      (m : M S A) (f : A → M S B) → Keeps P m → ((a : A) → Keeps P (f a)) → Keeps P (m >>= f)
  unfolding ◌>>=◌
  Keeps-bind m f km kf = record {
    at = λ w h. Keeps-continue (m w).0 f (m w).1 (km.at w h) (λ a _. kf a);
  }

module _ {S : Type 0} {P : World S → Type 0} (lasts : Lasting P) where
  pub Keeps-statement : (env : Env) → Keeps P (statement env)
  unfolding statement
  Keeps-statement env = record { at = lasts.next }

  pub Keeps-ask : {A : Type 0} (f : ℕ → A) → Keeps P (ask f)
  unfolding ask
  Keeps-ask f = record { at = lasts.next }

  pub Keeps-ask? : {A : Type 0} (f : ℕ → Option A) → Keeps P (ask? f)
  unfolding ask?
  Keeps-ask? f = record { at = lasts.next }

pub ruleset keeps_rules = (
  Keeps-pure, Keeps-raise, Keeps-lift, Keeps-gets, Keeps-try, Keeps-if, Keeps-reject, Keeps-bind,
  Keeps-statement, Keeps-ask, Keeps-ask?,
)
