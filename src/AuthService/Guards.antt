-- ===== src/AuthService/Guards.antt =====
-- The checks in front of the operations of internal/app/auth/service.go.
use regixtry.Base.{
  Bool, false, ◌||◌, ◌&&◌, not, List, ◌∷◌, ◌++◌, Text, text_eq, any, keep, len, ltb, ◌==◌,
  if◌then◌else◌, Result, ok, err,
}
use regixtry.Errors.{AuthCode, Error}
use regixtry.Auth.Errors.{is_code, new_validation_error, new_forbidden_error, new_conflict_error}
use regixtry.Strings.{trim_space}
use regixtry.Auth.Grant
use regixtry.Auth.User.{User}
use regixtry.Auth.Principal.{Principal}
use regixtry.AuthStore.Actions.{Env, M, pure, reject, ask, ◌>>=◌}
use regixtry.AuthStore.Users.{list_users}

unfoldable pub require_admin : Principal → M (Unit {0})
require_admin actor =
    reject (not actor.is_admin) (new_forbidden_error "administrator privileges are required")

unfoldable pub is_repo_admin : Principal → Text → Bool
unfolding text_eq Grant.allows_admin
is_repo_admin actor repository =
    any (λ g. text_eq g.repository.name repository && Grant.allows_admin g.role) actor.grants

unfoldable pub require_admin_or_repo_admin : Principal → Text → M (Unit {0})
unfolding is_repo_admin
require_admin_or_repo_admin actor repository =
    reject (not (actor.is_admin || is_repo_admin actor repository))
      (new_forbidden_error "repository administrator privileges are required")

unfoldable pub validate_password : Text → Result Error (Unit {0})
unfolding trim_space len
validate_password password =
    if ltb (len (trim_space password)) 8
    then err (new_validation_error "password must be at least 8 characters")
    else ok tt

-- A lookup that must find nothing: what it finds is a conflict, and only NotFound passes.
unfoldable pub expect_missing : {A : Type 0} → Result Error A → Result Error (Unit {0})
unfolding is_code
expect_missing (ok _) = err (new_conflict_error "username already exists")
expect_missing (err e) = if is_code e AuthCode.not_found then ok tt else err e

-- The loop of ensureAnotherActiveAdmin
unfoldable pub has_other_admin : Text → List User → Bool
unfolding text_eq
has_other_admin id users =
    any (λ u. if text_eq u.id id then false else u.is_admin && u.enabled) users

unfoldable pub ensure_another_active_admin : Env → Text → Bool → M (Unit {0})
unfolding has_other_admin list_users
ensure_another_active_admin env except_id include_target = do
  users ← list_users env
  reject (not (has_other_admin except_id users) && include_target)
      (new_conflict_error "at least one active global admin must remain configured")

-- shortAccessor: the prefix, an underscore and a UUID without its dashes
abbrev pub short_accessor : Env → Text → M Text
short_accessor env prefix = do
  id ← ask env.uuid
  pure (prefix ++ (b'_' ∷ keep (λ c. not (c == b'-')) id))
