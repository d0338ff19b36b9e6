-- ===== src/Auth/Grant.antt =====
-- Repository roles and grants (internal/domain/auth/grant.go).
use regixtry.Base.{ℕ, Bool, true, false, Text, ◌==◌, if◌then◌else◌, Result, ok, err, ◌>>◌}
use regixtry.Errors.{Error}
use regixtry.Auth.Errors.{new_validation_error}
use regixtry.Strings.{is_nil}
use regixtry.Registry.Repository
use regixtry.Registry.Repository.{RepositoryRef}

-- `RepoRole` is a string type: the three roles, and any other string.
pub data RepoRole : Type 0 where
  reader writer admin : RepoRole
  other : Text → RepoRole

pub record RepoGrant : Type 0 where
  pub user_id : Text
  pub repository : RepositoryRef
  pub role : RepoRole
  pub created_at : ℕ
  pub updated_at : ℕ

unfoldable pub validate_role : RepoRole → Result Error (Unit {0})
validate_role reader = ok tt
validate_role writer = ok tt
validate_role admin = ok tt
validate_role (other _) = err (new_validation_error "repository role is invalid")

unfoldable pub allows_read : RepoRole → Bool
allows_read reader = true
allows_read writer = true
allows_read admin = true
allows_read (other _) = false

unfoldable pub allows_write : RepoRole → Bool
allows_write writer = true
allows_write admin = true
allows_write _ = false

unfoldable pub allows_admin : RepoRole → Bool
allows_admin admin = true
allows_admin _ = false

abbrev require_times : RepoGrant → Result Error (Unit {0})
require_times g =
    if g.created_at == 0
    then err (new_validation_error "grant created at is required")
    else if g.updated_at == 0
    then err (new_validation_error "grant updated at is required")
    else ok tt

abbrev require_user : RepoGrant → Result Error (Unit {0})
require_user g =
    if is_nil g.user_id then err (new_validation_error "grant user id is required") else ok tt

unfoldable pub validate : RepoGrant → Result Error (Unit {0})
unfolding Repository.validate validate_role
validate g = do
  require_user g
  Repository.validate g.repository
  validate_role g.role
  require_times g
