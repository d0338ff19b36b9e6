-- ===== src/Actions/Triples.antt =====
-- What an action makes true of its result and of the tables, with one claim for success and one
-- for failure.
use regixtry.Base.{ℕ, Bool, true, false, ◌≡◌, refl, sym, Result, ok, err}
use regixtry.Errors.{Error}
use regixtry.Actions.{World, M, continue, pure, lift, try, ◌>>=◌, reject, gets, puts, ask, when}
use regixtry.Actions.Keeps.{Keeps}
use regixtry.Actions.States.{Of}

abbrev pub Post :
    {S A : Type 0} → (A → World S → Type 0) → (World S → Type 0) → Result Error A × World S → Type 0
Post Q E (ok a, w) = Q a w
Post Q E (err e, w) = E w

pub record Triple {S A : Type 0} (P : World S → Type 0) (m : M S A) (Q : A → World S → Type 0)
    (E : World S → Type 0) : Type 0 where
  pub at : (w : World S) → P w → Post Q E (m w)

Post-continue :
    {S A B : Type 0} {Q : A → World S → Type 0} {R : B → World S → Type 0} {E : World S → Type 0}
    (r : Result Error A) (f : A → M S B) (w : World S)
    → Post Q E (r, w)
    → ((a : A) → Triple (Q a) (f a) R E)
    → Post R E (continue r f w)
Post-continue (ok a) f w h k = (k a).at w h
Post-continue (err e) f w h k = h

pub then_do :
    {S A B : Type 0} {P : World S → Type 0} {Q : A → World S → Type 0} {R : B → World S → Type 0}
    {E : World S → Type 0} {m : M S A} {f : A → M S B}
    → Triple P m Q E
    → ((a : A) → Triple (Q a) (f a) R E)
    → Triple P (m >>= f) R E
unfolding ◌>>=◌
then_do {m} {f} t k = record { at = λ w h. Post-continue (m w).0 f (m w).1 (t.at w h) k }

Post-keep :
    {S A : Type 0} {P : World S → Type 0} {E : World S → Type 0} (r : Result Error A) (w : World S)
    → P w
    → ((w : World S) → P w → E w)
    → Post (λ (a : A). P) E (r, w)
Post-keep (ok a) w h f = h
Post-keep (err e) w h f = f w h

Post-excuse :
    {S A : Type 0} (Q : A → World S → Type 0) {E F : World S → Type 0} (r : Result Error A)
    (w : World S)
    → Post Q E (r, w)
    → ((w : World S) → E w → F w)
    → Post Q F (r, w)
Post-excuse Q (ok a) w h f = h
Post-excuse Q (err e) w h f = f w h

-- A weaker claim for failure.
pub excuse :
    {S A : Type 0} {P : World S → Type 0} {Q : A → World S → Type 0} {E F : World S → Type 0}
    {m : M S A}
    → Triple P m Q E
    → ((w : World S) → E w → F w)
    → Triple P m Q F
excuse {Q = Q} {m} t f = record { at = λ w h. Post-excuse Q (m w).0 (m w).1 (t.at w h) f }

-- An action that keeps a property.
pub kept :
    {S A : Type 0} {P : World S → Type 0} {E : World S → Type 0} {m : M S A}
    → Keeps P m
    → ((w : World S) → P w → E w)
    → Triple P m (λ _. P) E
kept {m} k f = record { at = λ w h. Post-keep (m w).0 (m w).1 (k.at w h) f }

pub returns :
    {S A : Type 0} {P : World S → Type 0} {Q : A → World S → Type 0} {E : World S → Type 0} (a : A)
    → ((w : World S) → P w → Q a w)
    → Triple P (pure a) Q E
unfolding pure
returns a f = record { at = f }

pub rejects :
    {S : Type 0} {P : World S → Type 0} {Q : Unit {0} → World S → Type 0} {E : World S → Type 0}
    (b : Bool) (e : Error)
    → ((w : World S) → P w → b ≡ false → Q tt w)
    → ((w : World S) → P w → E w)
    → Triple P (reject b e) Q E
unfolding reject
rejects true e f g = record { at = g }
rejects false e f g = record { at = λ w h. f w h refl }

pub lifts :
    {S A : Type 0} {P : World S → Type 0} {Q : A → World S → Type 0} {E : World S → Type 0}
    (r : Result Error A)
    → ((a : A) (w : World S) → P w → r ≡ ok a → Q a w)
    → ((w : World S) → P w → E w)
    → Triple P (lift r) Q E
unfolding lift
lifts (ok a) f g = record { at = λ w h. f a w h refl }
lifts (err e) f g = record { at = g }

-- What is asked keeps the state; the answer is that to some question.
pub asks :
    {S A : Type 0} {P : S → Type 0} {C : A → Type 0} {E : World S → Type 0} (f : ℕ → A)
    → ((n : ℕ) → C (f n))
    → Triple (Of P) (ask f) (λ a w. C a × Of P w) E
unfolding ask
asks f k = record { at = λ w h. (k w.tick, record { holds = h.holds }) }

-- The error of the result is known where it fails.
pub lifts_or :
    {S A : Type 0} {P : World S → Type 0} {Q : A → World S → Type 0} {E : World S → Type 0}
    (r : Result Error A)
    → ((a : A) (w : World S) → P w → r ≡ ok a → Q a w)
    → ((e : Error) (w : World S) → P w → r ≡ err e → E w)
    → Triple P (lift r) Q E
unfolding lift
lifts_or (ok a) f g = record { at = λ w h. f a w h refl }
lifts_or (err e) f g = record { at = λ w h. g e w h refl }

pub reads :
    {S A : Type 0} {P : World S → Type 0} {Q : A → World S → Type 0} {E : World S → Type 0}
    (f : S → A)
    → ((w : World S) → P w → Q (f w.db) w)
    → Triple P (gets f) Q E
unfolding gets
reads f g = record { at = g }

pub writes :
    {S : Type 0} {P : World S → Type 0} {Q : Unit {0} → World S → Type 0} {E : World S → Type 0}
    (f : S → S)
    → ((w : World S) → P w → Q tt (record w { db = f w.db }))
    → Triple P (puts f) Q E
unfolding puts
writes f g = record { at = g }

pub branches :
    {S : Type 0} {P : World S → Type 0} {Q : Unit {0} → World S → Type 0} {E : World S → Type 0}
    (b : Bool) {m : M S (Unit {0})}
    → (b ≡ true → Triple P m Q E)
    → ((w : World S) → P w → b ≡ false → Q tt w)
    → Triple P (when b m) Q E
branches true f g = f refl
branches false f g = unfold pure in record { at = λ w h. g w h refl }

Post-weaken :
    {S A : Type 0} {Q Q' : A → World S → Type 0} (E : World S → Type 0) (r : Result Error A)
    (w : World S)
    → Post Q E (r, w)
    → ((a : A) (w : World S) → Q a w → Q' a w)
    → Post Q' E (r, w)
Post-weaken E (ok a) w h g = g a w h
Post-weaken E (err e) w h g = h

pub weaken :
    {S A : Type 0} {P P' : World S → Type 0} {Q Q' : A → World S → Type 0} {E : World S → Type 0}
    {m : M S A}
    → ((w : World S) → P' w → P w)
    → Triple P m Q E
    → ((a : A) (w : World S) → Q a w → Q' a w)
    → Triple P' m Q' E
weaken {E = E} {m} f t g = record { at = λ w h. Post-weaken E (m w).0 (m w).1 (t.at w (f w h)) g }

Post-tried :
    {S A : Type 0} {Q : A → World S → Type 0} (R : Result Error A → World S → Type 0)
    (E F : World S → Type 0) (r : Result Error A) (w : World S)
    → Post Q E (r, w)
    → ((a : A) (w : World S) → Q a w → R (ok a) w)
    → ((e : Error) (w : World S) → E w → R (err e) w)
    → Post R F (ok r, w)
Post-tried R E F (ok a) w h f g = f a w h
Post-tried R E F (err e) w h f g = g e w h

-- An action whose error is a value.
pub tried :
    {S A : Type 0} {P : World S → Type 0} {Q : A → World S → Type 0}
    {R : Result Error A → World S → Type 0} {E F : World S → Type 0} {m : M S A}
    → Triple P m Q E
    → ((a : A) (w : World S) → Q a w → R (ok a) w)
    → ((e : Error) (w : World S) → E w → R (err e) w)
    → Triple P (try m) R F
unfolding try
tried {R = R} {E} {F} {m} t f g = record {
  at = λ w h. Post-tried R E F (m w).0 (m w).1 (t.at w h) f g;
}

-- A fact that does not depend on the world.
pub given :
    {S A C : Type 0} {P : World S → Type 0} {Q : A → World S → Type 0} {E : World S → Type 0}
    {m : M S A}
    → (C → Triple P m Q E)
    → Triple (λ w. C × P w) m Q E
given f = record { at = λ w h. (f h.0).at w h.1 }

Post-ok :
    {S A : Type 0} (Q : A → World S → Type 0) (E : World S → Type 0) (r : Result Error A)
    (w : World S) (a : A)
    → Post Q E (r, w)
    → r ≡ ok a
    → Q a w
Post-ok Q E (ok b) w a h e = let q : b ≡ a = cc in rw (sym q) h
Post-ok Q E (err f) w a h e = cc

-- What is so after a run that returned.
pub returned :
    {S A : Type 0} {P : World S → Type 0} {Q : A → World S → Type 0} {E : World S → Type 0}
    {m : M S A} (w : World S) (a : A)
    → Triple P m Q E
    → P w
    → (m w).0 ≡ ok a
    → Q a (m w).1
returned {Q = Q} {E} {m} w a t h e = Post-ok Q E (m w).0 (m w).1 a (t.at w h) e

Post-either :
    {S A : Type 0} (E : World S → Type 0) (r : Result Error A) (w : World S)
    → Post (λ _. E) E (r, w)
    → E w
Post-either E (ok a) w h = h
Post-either E (err e) w h = h

-- What is so of the world after a run, whether it returned or failed.
pub finally :
    {S A : Type 0} {P E : World S → Type 0} {m : M S A} (w : World S)
    → Triple P m (λ _. E) E
    → P w
    → E (m w).1
finally {E = E} {m} w t h = Post-either E (m w).0 (m w).1 (t.at w h)
