-- ===== src/Access/Controller.antt =====
-- What the access controller of principals lets through (principalAccessController of
-- internal/ports/defaults.go).
use regixtry.Base.{
  Bool, true, false, ◌&&◌, ◌||◌, not, List, [], ◌∷◌, Option, none, some, Text, text_eq, text_eq_iff,
  any, any_of_Elem, Elem-of_any, Elem, Bool-cases, ◌≡◌, ◌≢◌, ◌↔◌, ◌⊎◌, inl, inr, refl, ap, arith,
  ok, err, Result, if◌then◌else◌,
}
use regixtry.Errors.{Error}
use regixtry.Strings.{is_nil}
use regixtry.Auth.Grant
use regixtry.Auth.Scope.{
  Scope, is_repository, is_regixtry_catalog, only_wildcard, scope_type_repository,
  scope_type_regixtry, action_pull, action_catalog, action_wildcard, allows_pull, allows_push,
  allows_delete,
}
use regixtry.Auth.Principal.{
  Principal, can_access_catalog, has_read_access, has_write_access, has_delete_access,
}
use regixtry.Auth.Principal.Rights.{
  Granted, InScope, Reader, PullScope, contains-Elem, Elem-contains, has_read_access_iff,
  has_write_access_iff, has_delete_access_iff,
}
use regixtry.Access.{
  ActionVerb, Action, pull, push, delete, catalog, inspect, other, verb_allowed, authorize_as,
  principal_authorize,
}

-- The scope of the catalog.
abbrev pub IsCatalog : Scope → Type 0
IsCatalog s =
    (s.kind ≡ scope_type_regixtry) × (s.name ≡ action_catalog) × (s.actions ≡ action_wildcard ∷ [])

-- A scope of the token that opens the catalog: its own, or one to pull from some repository.
abbrev pub CatalogScope : Principal → Type 0
CatalogScope p =
    (s : Scope) × Elem s p.scopes
    × (IsCatalog s ⊎ ((s.kind ≡ scope_type_repository) × Elem action_pull s.actions))

abbrev pub MayRead : Principal → Text → Type 0
MayRead p r = ((p.is_admin ≡ true) ⊎ ((p.is_read_only ≡ true) ⊎ Reader p r)) × PullScope p r

abbrev pub MayModify : Principal → Text → (Scope → Bool) → Type 0
MayModify p r allows = ((p.is_admin ≡ true) ⊎ Granted p r Grant.allows_write) × InScope p r allows

-- What each action asks of the principal.
abbrev pub Entitled : ActionVerb → Text → Principal → Type 0
Entitled catalog r p = CatalogScope p
Entitled pull r p = (r ≡ []) ⊎ MayRead p r
Entitled inspect r p = (r ≡ []) ⊎ MayRead p r
Entitled push r p = (r ≢ []) × MayModify p r allows_push
Entitled delete r p = (r ≢ []) × MayModify p r allows_delete
Entitled (other _) r p = ⊥

abbrev verdict : Bool → Error → Result Error (Unit {0})
verdict b e = if b then ok tt else err e

test_iff : (b : Bool) (e : Error) → (verdict b e ≡ ok tt) ↔ (b ≡ true)
test_iff true e = (λ h. refl, λ h. refl)
test_iff false e = (λ h. absurd (cc), λ h. absurd (cc))

chain : {P Q R : Type 0} → P ↔ Q → Q ↔ R → P ↔ R
chain f g = (λ x. g.0 (f.0 x), λ z. f.1 (g.1 z))

-- A test that the repository is empty, or another one.
unnamed_or :
    (r : Text) (b : Bool) {P : Type 0} → (b ≡ true) ↔ P → ((is_nil r || b) ≡ true) ↔ ((r ≡ []) ⊎ P)
unnamed_or [] b f = (λ h. inl refl, λ x. refl)
unnamed_or (c ∷ r) b f = (λ h. inr (f.0 h), λ x. elim x [ inl e ↦ absurd (cc e) | inr y ↦ f.1 y ])

-- A test that it is not empty, and another one.
named_and :
    (r : Text) (b : Bool) {P : Type 0}
    → (b ≡ true) ↔ P
    → ((not (is_nil r) && b) ≡ true) ↔ ((r ≢ []) × P)
named_and [] b f = (λ h. absurd (cc h), λ (n, x). absurd (n refl))
named_and (c ∷ r) b f = (λ h. (λ e. cc e, f.0 h), λ (n, x). f.1 x)

both : (a b : Bool) → (a && b) ≡ true → (a ≡ true) × (b ≡ true)
both a b h = ground arith

and_true : (a b : Bool) → a ≡ true → b ≡ true → (a && b) ≡ true
and_true a b h k = ground arith

wildcard_iff : (xs : List Text) → (only_wildcard xs ≡ true) ↔ (xs ≡ action_wildcard ∷ [])
wildcard_iff [] = (λ h. absurd (cc h), λ e. absurd (cc e))
wildcard_iff (a ∷ []) = (
  λ h. ap (λ (x : Text). x ∷ []) ((text_eq_iff a action_wildcard).0 h),
  λ e. let q : a ≡ action_wildcard = cc e in (text_eq_iff a action_wildcard).1 q,
)
wildcard_iff (a ∷ b ∷ xs) = (λ h. absurd (cc h), λ e. absurd (cc e))

is_regixtry_catalog_iff : (s : Scope) → (is_regixtry_catalog s ≡ true) ↔ IsCatalog s
unfolding is_regixtry_catalog
is_regixtry_catalog_iff s = (
  λ h.
      let (first, only) =
        both (text_eq s.kind scope_type_regixtry && text_eq s.name action_catalog)
          (only_wildcard s.actions) h in
      let (typed, named) =
        both (text_eq s.kind scope_type_regixtry) (text_eq s.name action_catalog) first in
      (
        (text_eq_iff s.kind scope_type_regixtry).0 typed,
        (text_eq_iff s.name action_catalog).0 named,
        (wildcard_iff s.actions).0 only,
      ),
  λ (k, n, w).
      and_true (text_eq s.kind scope_type_regixtry && text_eq s.name action_catalog)
        (only_wildcard s.actions)
        (and_true (text_eq s.kind scope_type_regixtry) (text_eq s.name action_catalog)
          ((text_eq_iff s.kind scope_type_regixtry).1 k) ((text_eq_iff s.name action_catalog).1 n))
        ((wildcard_iff s.actions).1 w),
)

pull_scope_iff :
    (s : Scope)
    → ((is_repository s && allows_pull s) ≡ true)
      ↔ ((s.kind ≡ scope_type_repository) × Elem action_pull s.actions)
unfolding is_repository allows_pull
pull_scope_iff s = (
  λ h.
      let (typed, pulls) = both (is_repository s) (allows_pull s) h in
      (
        (text_eq_iff s.kind scope_type_repository).0 typed,
        contains-Elem action_pull s.actions pulls,
      ),
  λ (k, m).
      and_true (is_repository s) (allows_pull s) ((text_eq_iff s.kind scope_type_repository).1 k)
        (Elem-contains action_pull s.actions m),
)

catalog_iff : (p : Principal) → (can_access_catalog p ≡ true) ↔ CatalogScope p
unfolding can_access_catalog
catalog_iff p = (
  λ h. elim (Bool-cases (any is_regixtry_catalog p.scopes)) [
    | inl e ↦
        let (s, m, q) = Elem-of_any is_regixtry_catalog p.scopes e in
        (s, m, inl ((is_regixtry_catalog_iff s).0 q))
    | inr e ↦
        let (s, m, q) = Elem-of_any (λ s. is_repository s && allows_pull s) p.scopes (rw e at h) in
        (s, m, inr ((pull_scope_iff s).0 q))
  ],
  λ (s, m, x). elim x [
    | inl c ↦
        rw (any_of_Elem is_regixtry_catalog s p.scopes m ((is_regixtry_catalog_iff s).1 c)) refl
    | inr d ↦
        if_either (any is_regixtry_catalog p.scopes) (
          any_of_Elem (λ s. is_repository s && allows_pull s) s p.scopes m ((pull_scope_iff s).1 d))
  ],
)
  where
    if_either : (a : Bool) {b : Bool} → b ≡ true → (if a then true else b) ≡ true
    if_either true q = refl
    if_either false q = q

verb_iff :
    (verb : ActionVerb) (r : Text) (p : Principal)
    → (verb_allowed verb r p ≡ true) ↔ Entitled verb r p
unfolding verb_allowed
verb_iff catalog r p = catalog_iff p
verb_iff pull r p = unnamed_or r (has_read_access p r) (has_read_access_iff p r)
verb_iff inspect r p = unnamed_or r (has_read_access p r) (has_read_access_iff p r)
verb_iff push r p = named_and r (has_write_access p r) (has_write_access_iff p r)
verb_iff delete r p = named_and r (has_delete_access p r) (has_delete_access_iff p r)
verb_iff (other t) r p = (λ h. absurd (cc h), λ x. absurd x)

-- An action is authorized exactly where there is a principal who is entitled to it. For the catalog
-- that takes a scope of the catalog, or one to pull from some repository. Pulling and inspecting
-- take no repository, or an administrator, a registry-wide reader or a grant of one of the three
-- roles on it, and a scope to pull from it. Pushing and deleting take a named repository, an
-- administrator or a writing grant on it, and a scope on it for that very action. No other verb is
-- ever authorized.
pub principal_authorize_iff :
    (a : Action)
    → (principal_authorize a ≡ ok tt)
      ↔ ((p : Principal) × (a.principal ≡ some p) × Entitled a.verb a.repository p)
unfolding principal_authorize
principal_authorize_iff a = through a.principal
  where
    through :
        (o : Option Principal)
        → (authorize_as a.verb a.repository o ≡ ok tt)
          ↔ ((p : Principal) × (o ≡ some p) × Entitled a.verb a.repository p)
    through none = (λ h. absurd (cc h), λ (p, e, x). absurd (cc e))
    through (some q) = (
      λ h. (q, refl, (verb_iff a.verb a.repository q).0 ((test_iff _ _).0 h)),
      λ (p, e, x).
          let same : q ≡ p = cc e in
          (test_iff _ _).1 ((verb_iff a.verb a.repository q).1 (rw same x)),
    )
