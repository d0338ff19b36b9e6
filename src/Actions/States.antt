-- ===== src/Actions/States.antt =====
-- Invariants of the state alone, and the rules that use what a step has found out.
use regixtry.Base.{ℕ, Bool, true, false, ◌≡◌, refl, Result, ok, err, Option}
use regixtry.Errors.{Error}
use regixtry.Actions.{
  Env, World, M, continue, pure, lift, ◌>>=◌, reject, gets, puts, ask, ask?, statement, when,
}
use regixtry.Actions.Keeps.{
  Lasting, Keeps, Keeps-bind, Keeps-if, Keeps-pure, Keeps-statement, Keeps-ask, Keeps-ask?,
}

pub record Of {S : Type 0} (P : S → Type 0) (w : World S) : Type 0 where
  pub holds : P w.db

module _ {S : Type 0} {P : S → Type 0} where
  pub Of-Lasting : Lasting (Of P)
  Of-Lasting = record { next = λ w h. record { holds = h.holds } }

  pub Keeps-puts : (f : S → S) → ((s : S) → P s → P (f s)) → Keeps (Of P) (puts f)
  unfolding puts
  Keeps-puts f k = record { at = λ w h. record { holds = k w.db h.holds } }

  pub Keeps-sent : (env : Env) → Keeps (Of P) (statement env)
  Keeps-sent env = Keeps-statement Of-Lasting env

  pub Keeps-asked : {A : Type 0} (f : ℕ → A) → Keeps (Of P) (ask f)
  Keeps-asked f = Keeps-ask Of-Lasting f

  pub Keeps-asked? : {A : Type 0} (f : ℕ → Option A) → Keeps (Of P) (ask? f)
  Keeps-asked? f = Keeps-ask? Of-Lasting f

  pub Keeps-when : (b : Bool) (m : M S (Unit {0})) → Keeps (Of P) m → Keeps (Of P) (when b m)
  Keeps-when b m k = Keeps-if b m (pure tt) k (Keeps-pure tt)

  -- What is read is so of the state.
  pub Keeps-read :
      {A B : Type 0} (Q : A → Type 0) (f : S → A) (k : A → M S B)
      → ((s : S) → P s → Q (f s))
      → ((a : A) → Q a → Keeps (Of P) (k a))
      → Keeps (Of P) (gets f >>= k)
  unfolding ◌>>=◌ gets
  Keeps-read Q f k q h = record { at = λ w p. (h (f w.db) (q w.db p.holds)).at w p }

Keeps-nested :
    {S A B C : Type 0} (P : World S → Type 0) (r : Result Error A) (f : A → M S B) (k : B → M S C)
    (w : World S)
    → P (continue r (λ a. f a >>= k) w).1
    → P (continue (continue r f w).0 k (continue r f w).1).1
unfolding ◌>>=◌
Keeps-nested P (ok a) f k w h = h
Keeps-nested P (err e) f k w h = h

module _ {S : Type 0} {P : World S → Type 0} where
  Keeps-passed :
      {A B : Type 0} (r : Result Error A) (k : A → M S B) (w : World S)
      → ((a : A) → r ≡ ok a → Keeps P (k a))
      → P w
      → P (continue r k w).1
  Keeps-passed (ok a) k w h p = (h a refl).at w p
  Keeps-passed (err e) k w h p = p

  pub Keeps-assoc :
      {A B C : Type 0} (m : M S A) (f : A → M S B) (k : B → M S C)
      → Keeps P (m >>= λ a. f a >>= k)
      → Keeps P ((m >>= f) >>= k)
  unfolding ◌>>=◌
  Keeps-assoc m f k h = record { at = λ w p. Keeps-nested P (m w).0 f k (m w).1 (h.at w p) }

  -- The code goes on only after a success.
  pub Keeps-lifted :
      {A B : Type 0} (r : Result Error A) (k : A → M S B)
      → ((a : A) → r ≡ ok a → Keeps P (k a))
      → Keeps P (lift r >>= k)
  unfolding ◌>>=◌ lift
  Keeps-lifted r k h = record { at = λ w p. Keeps-passed r k w h p }

  -- The code goes on only where the test is false.
  pub Keeps-rejected :
      {B : Type 0} (b : Bool) (e : Error) (k : Unit {0} → M S B)
      → (b ≡ false → Keeps P (k tt))
      → Keeps P (reject b e >>= k)
  unfolding ◌>>=◌ reject
  Keeps-rejected true e k h = record { at = λ w p. p }
  Keeps-rejected false e k h = record { at = λ w p. (h refl).at w p }

module _ {S : Type 0} {P : S → Type 0} where
  pub after_sent :
      {B : Type 0} (env : Env) (k : Unit {0} → M S B)
      → ((a : Unit {0}) → Keeps (Of P) (k a))
      → Keeps (Of P) (statement env >>= k)
  after_sent env k h = Keeps-bind (statement env) k (Keeps-sent env) h

  pub after_asked :
      {A B : Type 0} (f : ℕ → A) (k : A → M S B)
      → ((a : A) → Keeps (Of P) (k a))
      → Keeps (Of P) (ask f >>= k)
  after_asked f k h = Keeps-bind (ask f) k (Keeps-asked f) h
