-- ===== src/Auth/Principal.antt =====
-- The authenticated caller and what it may do (internal/domain/auth/principal.go).
pub mod Rights
use regixtry.Base.{ℕ, Bool, true, false, ◌||◌, ◌&&◌, List, Text, text_eq, any, if◌then◌else◌}
use regixtry.Auth.Grant
use regixtry.Auth.Grant.{RepoRole, RepoGrant}
use regixtry.Auth.Scope.{
  Scope, is_repository, is_regixtry_catalog, allows_pull, allows_push, allows_delete,
}

pub record Principal : Type 0 where
  pub subject : Text
  pub user_id : Text
  pub username : Text
  pub is_admin : Bool
  pub is_read_only : Bool
  pub grants : List RepoGrant
  pub scopes : List Scope
  pub expires_at : ℕ

unfoldable pub has_granted_repository_access : Principal → Text → (RepoRole → Bool) → Bool
unfolding text_eq
has_granted_repository_access p repository allows =
    if p.is_admin
    then true
    else if p.is_read_only && allows RepoRole.reader
    then true
    else any (λ g. text_eq g.repository.name repository && allows g.role) p.grants

unfoldable pub scope_allows_repository : Principal → Text → (Scope → Bool) → Bool
unfolding text_eq is_repository
scope_allows_repository p repository allows =
    any (λ s. is_repository s && text_eq s.name repository && allows s) p.scopes

unfoldable pub scope_allows_catalog : Principal → Bool
unfolding is_regixtry_catalog
scope_allows_catalog p = any is_regixtry_catalog p.scopes

unfoldable pub has_read_access : Principal → Text → Bool
unfolding has_granted_repository_access scope_allows_repository Grant.allows_read allows_pull
has_read_access p r =
    has_granted_repository_access p r Grant.allows_read && scope_allows_repository p r allows_pull

unfoldable pub has_write_access : Principal → Text → Bool
unfolding has_granted_repository_access scope_allows_repository Grant.allows_write allows_push
has_write_access p r =
    has_granted_repository_access p r Grant.allows_write && scope_allows_repository p r allows_push

unfoldable pub has_granted_write_access : Principal → Text → Bool
unfolding has_granted_repository_access Grant.allows_write
has_granted_write_access p r = has_granted_repository_access p r Grant.allows_write

unfoldable pub has_delete_access : Principal → Text → Bool
unfolding has_granted_repository_access scope_allows_repository Grant.allows_write allows_delete
has_delete_access p r =
    has_granted_repository_access p r Grant.allows_write
    && scope_allows_repository p r allows_delete

unfoldable pub has_repo_admin_access : Principal → Text → Bool
unfolding has_granted_repository_access scope_allows_repository Grant.allows_admin allows_push
has_repo_admin_access p r =
    if has_granted_repository_access p r Grant.allows_admin
    then scope_allows_repository p r allows_push
    else false

unfoldable pub has_catalog_access : Principal → Text → Bool
unfolding has_granted_repository_access scope_allows_repository scope_allows_catalog
    Grant.allows_read allows_pull
has_catalog_access p r =
    if has_granted_repository_access p r Grant.allows_read
    then scope_allows_catalog p || scope_allows_repository p r allows_pull
    else false

unfoldable pub can_access_catalog : Principal → Bool
unfolding scope_allows_catalog is_repository allows_pull
can_access_catalog p =
    if scope_allows_catalog p then true else any (λ s. is_repository s && allows_pull s) p.scopes
