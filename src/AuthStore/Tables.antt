-- ===== src/AuthStore/Tables.antt =====
-- Facts about the rows of auth_users.
use regixtry.Base.{
  ℕ, Bool, true, false, List, [], ◌∷◌, Text, text_eq, All-of_Elem, text_eq_iff, ◌≡◌, ◌≢◌, inl, inr,
  refl, sym, ap, ◌∙◌, arith, Elem, All, All-elem, keep, Elem-keep, Bool-cases,
}
use regixtry.Auth.User.{User}
use regixtry.AuthStore.Users.{upsert_row}

-- No two rows have the same id.
abbrev pub DistinctIds : List User → Type 0
DistinctIds [] = Unit
DistinctIds (u ∷ us) = All (λ (x : User). x.id ≢ u.id) us × DistinctIds us

-- An enabled administrator.
abbrev pub IsActiveAdmin : User → Type 0
IsActiveAdmin u = (u.is_admin ≡ true) × (u.enabled ≡ true)

abbrev pub HasAdmin : List User → Type 0
HasAdmin us = (u : User) × Elem u us × IsActiveAdmin u

-- One with another id.
abbrev pub OtherAdmin : Text → List User → Type 0
OtherAdmin id us = (u : User) × Elem u us × (u.id ≢ id) × IsActiveAdmin u

pub same_id :
    (us : List User) (x y : User) → DistinctIds us → Elem x us → Elem y us → x.id ≡ y.id → x ≡ y
same_id [] x y d m n e = absurd m
same_id (u ∷ us) x y d (inl p) (inl q) e = p ∙ sym q
same_id (u ∷ us) x y d (inl p) (inr n) e =
    absurd (All-elem (λ (z : User). z.id ≢ u.id) y us d.0 n (sym e ∙ ap (λ (z : User). z.id) p))
same_id (u ∷ us) x y d (inr m) (inl q) e =
    absurd (All-elem (λ (z : User). z.id ≢ u.id) x us d.0 m (e ∙ ap (λ (z : User). z.id) q))
same_id (u ∷ us) x y d (inr m) (inr n) e = same_id us x y d.1 m n e

-- Where a row is not an active administrator, the active administrator is another.
pub other_admin :
    (us : List User) (u : User)
    → DistinctIds us
    → Elem u us
    → HasAdmin us
    → ¬ IsActiveAdmin u
    → OtherAdmin u.id us
other_admin us u d m (x, n, active) h =
    (x, n, λ e. h (ground (arith, same_id us x u d n m e, active.0, active.1)), active)

-- The first row of an upsert, where its id is the row's, and where it is not.
upsert-same :
    (u y : User) (us : List User)
    → text_eq y.id u.id ≡ true
    → upsert_row u (y ∷ us) ≡ record u { created_at = y.created_at } ∷ us
unfolding upsert_row
upsert-same u y us e = rw e refl

upsert-next :
    (u y : User) (us : List User)
    → text_eq y.id u.id ≡ false
    → upsert_row u (y ∷ us) ≡ y ∷ upsert_row u us
unfolding upsert_row
upsert-next u y us e = rw e refl

abbrev same_row : (x y : User) → text_eq x.id y.id ≡ true → x.id ≡ y.id
same_row x y e = (text_eq_iff x.id y.id).0 e

-- The rows with another id survive an upsert.
pub upsert-other :
    (u x : User) (us : List User) → Elem x us → x.id ≢ u.id → Elem x (upsert_row u us)
upsert-other u x [] m h = absurd m
upsert-other u x (y ∷ us) m h = elim (Bool-cases (text_eq y.id u.id)) [
  | inl e ↦ rw (upsert-same u y us e) (stays m e)
  | inr e ↦ rw (upsert-next u y us e) (goes m (λ n. upsert-other u x us n h))
]
  where
    stays :
        Elem x (y ∷ us)
        → text_eq y.id u.id ≡ true
        → Elem x (record u { created_at = y.created_at } ∷ us)
    stays (inl p) e = absurd (h (ap (λ (z : User). z.id) p ∙ same_row y u e))
    stays (inr m) e = inr m

    goes : Elem x (y ∷ us) → (Elem x us → Elem x (upsert_row u us)) → Elem x (y ∷ upsert_row u us)
    goes (inl p) f = inl p
    goes (inr m) f = inr (f m)

-- The row itself is in the table afterwards, up to its creation time.
pub upsert_self :
    (u : User) (us : List User) → (c : ℕ) × Elem (record u { created_at = c }) (upsert_row u us)
upsert_self u [] = (u.created_at, unfold upsert_row in inl refl)
upsert_self u (y ∷ us) = elim (Bool-cases (text_eq y.id u.id)) [
  | inl e ↦ (y.created_at, rw (upsert-same u y us e) (inl refl))
  | inr e ↦ ((upsert_self u us).0, rw (upsert-next u y us e) (inr (upsert_self u us).1))
]

-- A property of the ids: of those in the table, and of the row's.
pub upsert-All :
    (P : Text → Type 0) (u : User) (us : List User)
    → All (λ (x : User). P x.id) us
    → P u.id
    → All (λ (x : User). P x.id) (upsert_row u us)
upsert-All P u [] d p = unfold upsert_row in (p, tt)
upsert-All P u (y ∷ us) d p = elim (Bool-cases (text_eq y.id u.id)) [
  | inl e ↦ rw (upsert-same u y us e) (p, d.1)
  | inr e ↦ rw (upsert-next u y us e) (d.0, upsert-All P u us d.1 p)
]

pub upsert-DistinctIds :
    (u : User) (us : List User) → DistinctIds us → DistinctIds (upsert_row u us)
upsert-DistinctIds u [] d = unfold upsert_row in (tt, tt)
upsert-DistinctIds u (y ∷ us) d = elim (Bool-cases (text_eq y.id u.id)) [
  | inl e ↦ rw (upsert-same u y us e) (rw (sym (same_row y u e)) d.0, d.1)
  | inr e ↦ rw (upsert-next u y us e) (
    upsert-All (λ i. i ≢ y.id) u us d.0 (λ q. bool_clash ((text_eq_iff y.id u.id).1 (sym q)) e),
    upsert-DistinctIds u us d.1,
  )
]
  where
    bool_clash : {b : Bool} → b ≡ true → b ≡ false → ⊥
    bool_clash p q = cc (p, q)

-- Deleting the rows with an id leaves the others, and no new ones.
pub keep-DistinctIds : (p : User → Bool) (us : List User) → DistinctIds us → DistinctIds (keep p us)
keep-DistinctIds p [] d = tt
keep-DistinctIds p (y ∷ us) d = elim (Bool-cases (p y)) [
  | inl e ↦ rw e (
    All-of_Elem _ (keep p us) (λ x m. All-elem _ x us d.0 (Elem-keep p us m).0),
    keep-DistinctIds p us d.1,
  )
  | inr e ↦ rw e (keep-DistinctIds p us d.1)
]
