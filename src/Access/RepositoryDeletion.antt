-- ===== src/Access/RepositoryDeletion.antt =====
-- The gate in front of deleting a whole repository.
use regixtry.Base.{
  true, ◌&&◌, none, some, Text, text_eq, text_eq_iff, ◌≡◌, ◌↔◌, ◌⊎◌, inl, inr, refl, arith, any,
  Elem-of_any, any_of_Elem, Result, ok, err,
}
use regixtry.Errors.{Error}
use regixtry.Auth.Grant
use regixtry.Auth.Principal.{Principal}
use regixtry.Auth.Principal.Rights.{Granted}
use regixtry.Access.{Action, delete, has_repo_admin_grant, gate, authorize_delete_repository}

repo_admin_test :
    (p : Principal) (r : Text)
    → (any (λ g. text_eq g.repository.name r && Grant.allows_admin g.role) p.grants ≡ true)
      ↔ Granted p r Grant.allows_admin
repo_admin_test p r = (
  λ h.
      let (g, m, e) = Elem-of_any _ p.grants h in
      record {
        grant = g;
        held = m;
        named = ground (arith, text_eq_iff g.repository.name r);
        passes = ground arith;
      },
  λ g.
      any_of_Elem _ g.grant p.grants g.held
        (ground (arith, text_eq_iff g.grant.repository.name r, g.named, g.passes)),
)

pub has_repo_admin_grant_iff :
    (p : Principal) (r : Text) → (has_repo_admin_grant p r ≡ true) ↔ Granted p r Grant.allows_admin
unfolding has_repo_admin_grant
has_repo_admin_grant_iff p r = repo_admin_test p r

gate_iff :
    (base : Result Error (Unit {0})) (r : Text) (p : Principal)
    → (gate base r (some p) ≡ ok tt) ↔ ((p.is_admin ≡ true) ⊎ (has_repo_admin_grant p r ≡ true))
gate_iff (ok _) r p = (λ h. ground arith, λ h. ground arith)
gate_iff (err e) r p = (λ h. ground arith, λ h. ground arith)

-- Deleting a repository: with no principal the access controller's own answer stands; a principal
-- passes exactly when it is an administrator or holds a repo-admin grant on that repository,
-- whatever the access controller answers.
pub authorize_delete_repository_iff :
    (authorize : Action → Result Error (Unit {0})) (r : Text)
    → (authorize_delete_repository authorize none r
        ≡ authorize (record { verb = delete; repository = r; principal = none }))
      × ((p : Principal)
          → (authorize_delete_repository authorize (some p) r ≡ ok tt)
            ↔ ((p.is_admin ≡ true) ⊎ Granted p r Grant.allows_admin))
authorize_delete_repository_iff authorize r = (
  unfold authorize_delete_repository in refl,
  λ p. through p (unfold authorize_delete_repository in gate_iff _ r p),
)
  where
    through :
        (p : Principal)
        → (authorize_delete_repository authorize (some p) r ≡ ok tt)
          ↔ ((p.is_admin ≡ true) ⊎ (has_repo_admin_grant p r ≡ true))
        → (authorize_delete_repository authorize (some p) r ≡ ok tt)
          ↔ ((p.is_admin ≡ true) ⊎ Granted p r Grant.allows_admin)
    through p f =
        let (admin, passes) = has_repo_admin_grant_iff p r in
        (
          λ h. elim (f.0 h) [ inl e ↦ inl e | inr g ↦ inr (admin g) ],
          λ h. elim h [ inl e ↦ f.1 (inl e) | inr g ↦ f.1 (inr (passes g)) ],
        )
