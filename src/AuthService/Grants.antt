-- ===== src/AuthService/Grants.antt =====
-- Administering the grants (internal/app/auth/service.go).
pub mod Delegation
pub mod Escalation
use regixtry.Base.{
  ℕ, Bool, ◌&&◌, not, List, [], ◌∷◌, Text, text_eq, any, if◌then◌else◌, Result, ok, err,
}
use regixtry.Errors.{Error}
use regixtry.Auth.Errors.{new_forbidden_error}
use regixtry.Strings.{trim_space}
use regixtry.Registry.Repository.{RepositoryRef, parse_repository_ref}
use regixtry.Auth.User.{User}
use regixtry.Auth.Grant.{RepoRole, RepoGrant, validate_role, allows_admin}
use regixtry.Auth.Principal.{Principal}
use regixtry.AuthStore.Actions.{Env, M, pure, lift, reject, ask, when, ◌>>=◌, ◌>>◌}
use regixtry.AuthStore.Users.{normalize_username, get_user_by_username, get_user_by_id}
use regixtry.AuthStore.Grants as Store
use regixtry.AuthStore.Grants.{list_repo_grants_by_repository}
use regixtry.AuthService.Guards.{require_admin, require_admin_or_repo_admin}

abbrev pub grant_of : Text → RepositoryRef → RepoRole → ℕ → RepoGrant
grant_of user_id repository role now = record {
  user_id = user_id;
  repository = repository;
  role = role;
  created_at = now;
  updated_at = now;
}

-- The loop over the target's grants: a repo-admin grant on the repository is found.
unfoldable pub administers : RepositoryRef → List RepoGrant → Bool
unfolding text_eq allows_admin
administers repository = any (λ g. text_eq g.repository.name repository.name && allows_admin g.role)

module _ (env : Env) where
  unfoldable pub list_repo_grants : Principal → Text → M (List RepoGrant)
  unfolding require_admin get_user_by_id Store.list_repo_grants
  list_repo_grants actor user_id = do
    require_admin actor
    get_user_by_id env user_id
    Store.list_repo_grants env user_id

  -- The grant is stored under the id as it was given.
  unfoldable pub put_repo_grant : Principal → Text → Text → RepoRole → M RepoGrant
  unfolding require_admin get_user_by_id parse_repository_ref trim_space validate_role
      Store.put_repo_grant
  put_repo_grant actor user_id repository role = do
    require_admin actor
    get_user_by_id env user_id
    repo ← lift (parse_repository_ref (trim_space repository))
    lift (validate_role role)
    now ← ask env.now
    Store.put_repo_grant env (grant_of user_id repo role now)
    pure (grant_of user_id repo role now)

  unfoldable pub delete_repo_grant : Principal → Text → Text → M (Unit {0})
  unfolding require_admin get_user_by_id parse_repository_ref trim_space Store.delete_repo_grant
  delete_repo_grant actor user_id repository = do
    require_admin actor
    get_user_by_id env user_id
    repo ← lift (parse_repository_ref (trim_space repository))
    Store.delete_repo_grant env user_id repo

  unfoldable pub list_repository_grants : Principal → Text → M (List RepoGrant)
  unfolding require_admin_or_repo_admin parse_repository_ref trim_space
      list_repo_grants_by_repository
  list_repository_grants actor repository = do
    repo ← lift (parse_repository_ref (trim_space repository))
    require_admin_or_repo_admin actor repo.name
    list_repo_grants_by_repository env repo

  -- A delegate leaves the grants of the repository's administrators alone.
  unfoldable pub protect_admins : Principal → User → RepositoryRef → M (Unit {0})
  unfolding Store.list_repo_grants administers
  protect_admins actor target repo = when (not actor.is_admin) (do
    existing ← Store.list_repo_grants env target.id
    reject (administers repo existing) (
        new_forbidden_error
          "repository administrators cannot modify another repository administrator's grant"))

  unfoldable pub put_repository_grant : Principal → Text → Text → RepoRole → M RepoGrant
  unfolding require_admin_or_repo_admin parse_repository_ref trim_space validate_role allows_admin
      get_user_by_username normalize_username protect_admins Store.put_repo_grant
  put_repository_grant actor repository username role = do
    repo ← lift (parse_repository_ref (trim_space repository))
    require_admin_or_repo_admin actor repo.name
    lift (validate_role role)
    reject (not actor.is_admin && allows_admin role)
        (new_forbidden_error "repository administrators cannot grant repo-admin")
    target ← get_user_by_username env (normalize_username env username)
    protect_admins actor target repo
    now ← ask env.now
    Store.put_repo_grant env (grant_of target.id repo role now)
    pure (grant_of target.id repo role now)

  unfoldable pub delete_repository_grant : Principal → Text → Text → M (Unit {0})
  unfolding require_admin_or_repo_admin parse_repository_ref trim_space get_user_by_username
      normalize_username protect_admins Store.delete_repo_grant
  delete_repository_grant actor repository username = do
    repo ← lift (parse_repository_ref (trim_space repository))
    require_admin_or_repo_admin actor repo.name
    target ← get_user_by_username env (normalize_username env username)
    protect_admins actor target repo
    Store.delete_repo_grant env target.id repo
