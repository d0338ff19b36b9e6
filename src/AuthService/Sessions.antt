-- ===== src/AuthService/Sessions.antt =====
-- Logging in and checking bearer tokens (internal/app/auth/service.go).
pub mod Intersection
pub mod Credentials
pub mod Reading
pub mod Rights
use regixtry.Base.{
  ℕ, ◌+◌, none, Bool, true, false, ◌||◌, ◌&&◌, not, List, [], ◌∷◌, ◌++◌, Text, codes, text_eq,
  if◌then◌else◌, Result, ok, err,
}
use regixtry.Errors.{AuthCode, Error}
use regixtry.Auth.Errors.{is_code, new_invalid_credentials_error, new_disabled_user_error}
use regixtry.Strings.{join, is_nil}
use regixtry.Registry.Repository.{RepositoryRef}
use regixtry.Auth.User.{User}
use regixtry.Auth.Grant
use regixtry.Auth.Grant.{RepoGrant}
use regixtry.Auth.Scope.{
  Scope, normalize_scopes, is_repository, is_regixtry_catalog, allows_pull, allows_push,
  allows_delete, scope_type_repository, action_pull, action_push, action_delete,
}
use regixtry.Auth.Token
use regixtry.Auth.Token.{Token, TokenKind, check_active, access_token_ttl}
use regixtry.Auth.Principal.{Principal}
use regixtry.AuthStore.Actions.{Env, M, pure, lift, try, reject, ask, ask?, ◌>>=◌, ◌>>◌}
use regixtry.AuthStore.Users.{normalize_username, get_user_by_username, get_user_by_id}
use regixtry.AuthStore.Grants.{list_repo_grants}
use regixtry.AuthStore.Tokens.{create_token, get_token_by_secret_hash}
use regixtry.AuthService.Guards.{short_accessor}

pub record LoginResult : Type 0 where
  pub principal : Principal
  pub bearer_token : Text
  pub expires_at : ℕ
  pub accessor : Text
  pub scope : Text

-- What is allowed of pulling, pushing and deleting.
pub record Allowed : Type 0 where
  pub pull : Bool
  pub push : Bool
  pub delete : Bool

abbrev pub nothing : Allowed
nothing = record { pull = false; push = false; delete = false }

-- The loop over the grants: the first one on the repository decides.
unfoldable pub granted_actions : List RepoGrant → Scope → Allowed
unfolding text_eq Grant.allows_read Grant.allows_write allows_pull allows_push allows_delete
granted_actions [] requested = nothing
granted_actions (g ∷ gs) requested =
    let rest = granted_actions gs requested in
    if not (text_eq g.repository.name requested.repository.name) then rest else record {
      pull = Grant.allows_read g.role && allows_pull requested;
      push = Grant.allows_write g.role && allows_push requested;
      delete = Grant.allows_write g.role && allows_delete requested;
    }

unfoldable pub allowed_actions : Bool → Bool → List RepoGrant → Scope → Allowed
unfolding granted_actions allows_pull allows_push allows_delete
allowed_actions is_admin is_read_only grants requested =
    if is_admin
    then record {
      pull = allows_pull requested;
      push = allows_push requested;
      delete = allows_delete requested;
    }
    else if is_read_only
    then record { pull = allows_pull requested; push = false; delete = false }
    else granted_actions grants requested

unfoldable pub action_names : Allowed → List Text
action_names a =
    (if a.pull then action_pull ∷ [] else [])
    ++ ((if a.push then action_push ∷ [] else []) ++ (if a.delete then action_delete ∷ [] else []))

unfoldable pub intersect_requested_actions : Bool → Bool → List RepoGrant → Scope → List Text
unfolding allowed_actions action_names
intersect_requested_actions is_admin is_read_only grants requested =
    action_names (allowed_actions is_admin is_read_only grants requested)

-- The scope of a repository with the actions; its repository field is the zero value.
abbrev pub granted_scope : Scope → List Text → Scope
granted_scope requested actions = record {
  kind = scope_type_repository;
  name = requested.repository.name;
  actions = actions;
  canonical =
      codes "repository:" ++ (requested.repository.name ++ (codes ":" ++ join b',' actions));
  repository = record { name = [] };
}

-- The body of the loop of grantedScopes.
unfoldable pub granted_one : User → List RepoGrant → Scope → List Scope
unfolding is_regixtry_catalog is_repository intersect_requested_actions join
granted_one user grants requested =
    let actions = intersect_requested_actions user.is_admin user.is_read_only grants requested in
    if is_regixtry_catalog requested
    then requested ∷ []
    else if not (is_repository requested)
    then []
    else if is_nil actions
    then []
    else granted_scope requested actions ∷ []

unfoldable pub granted_all : User → List RepoGrant → List Scope → List Scope
unfolding granted_one
granted_all user grants [] = []
granted_all user grants (s ∷ ss) = granted_one user grants s ++ granted_all user grants ss

abbrev pub or_none : Result Error (List RepoGrant) → List RepoGrant
or_none (ok grants) = grants
or_none (err _) = []

-- NotFound tells nothing but that the credentials are wrong.
unfoldable pub hide_missing : Error → Error
unfolding is_code
hide_missing e = if is_code e AuthCode.not_found then new_invalid_credentials_error else e

abbrev pub hidden : {A : Type 0} → Result Error A → Result Error A
hidden (ok a) = ok a
hidden (err e) = err (hide_missing e)

abbrev pub or_invalid : {A : Type 0} → Result Error A → Result Error A
or_invalid (ok a) = ok a
or_invalid (err _) = err new_invalid_credentials_error

-- The token of a session.
unfoldable pub issued_token : Env → User → List Scope → Text → ℕ → Text → Text → Token
unfolding normalize_scopes
issued_token env user scopes secret now id accessor = record {
  id = id;
  user_id = user.id;
  kind = TokenKind.access;
  name = [];
  scope = normalize_scopes scopes;
  accessor = accessor;
  secret_hash = env.hash_secret secret;
  expires_at = now + access_token_ttl;
  created_at = now;
  revoked_at = none;
}

module _ (env : Env) where
  -- Where nothing is requested the grants are not read.
  unfoldable pub granted_scopes : User → List Scope → M (List Scope)
  unfolding list_repo_grants granted_all
  granted_scopes user [] = pure []
  granted_scopes user (s ∷ ss) = do
    grants ← list_repo_grants env user.id
    pure (granted_all user grants (s ∷ ss))

  -- An error of the grants' listing is dropped, as if there were none.
  unfoldable pub build_principal : User → Token → M Principal
  unfolding list_repo_grants Token.scopes
  build_principal user token = do
    grants ← try (list_repo_grants env user.id)
    scopes ← lift (Token.scopes token)
    pure (record {
      subject = token.accessor;
      user_id = user.id;
      username = user.username;
      is_admin = user.is_admin;
      is_read_only = user.is_read_only;
      grants = or_none grants;
      scopes = scopes;
      expires_at = token.expires_at;
    })

  unfoldable pub issue_access_token : User → List Scope → M LoginResult
  unfolding granted_scopes issued_token create_token build_principal
  issue_access_token user requested = do
    secret ← ask? env.random
    scopes ← granted_scopes user requested
    now ← ask env.now
    id ← ask env.uuid
    accessor ← short_accessor env (codes "atk")
    let token = issued_token env user scopes secret now id accessor
    create_token env token
    principal ← build_principal user token
    pure (record {
      principal = principal;
      bearer_token = secret;
      expires_at = token.expires_at;
      accessor = token.accessor;
      scope = token.scope;
    })

  unfoldable pub get_active_user_by_username : Text → M User
  unfolding get_user_by_username normalize_username
  get_active_user_by_username username = do
    found ← try (get_user_by_username env (normalize_username env username))
    user ← lift (hidden found)
    reject (not user.enabled) (new_disabled_user_error user.username)
    pure user

  unfoldable pub login_with_password : Text → Text → List Scope → M LoginResult
  unfolding get_active_user_by_username issue_access_token
  login_with_password username password requested = do
    user ← get_active_user_by_username username
    reject user.is_robot new_invalid_credentials_error
    reject (not (env.check_password user.password_hash password)) new_invalid_credentials_error
    issue_access_token user requested

  unfoldable pub login_with_preissued_token : Text → Text → List Scope → M LoginResult
  unfolding get_active_user_by_username get_token_by_secret_hash text_eq check_active
      issue_access_token
  login_with_preissued_token username secret requested = do
    user ← get_active_user_by_username username
    found ← try (get_token_by_secret_hash env TokenKind.admin_credential (env.hash_secret secret))
    stored ← lift (hidden found)
    reject (not (text_eq stored.user_id user.id)) new_invalid_credentials_error
    now ← ask env.now
    lift (check_active stored now)
    issue_access_token user requested

  unfoldable pub verify_access_token : Text → M Principal
  unfolding get_token_by_secret_hash check_active get_user_by_id build_principal
  verify_access_token bearer = do
    found ← try (get_token_by_secret_hash env TokenKind.access (env.hash_secret bearer))
    stored ← lift (hidden found)
    now ← ask env.now
    lift (check_active stored now)
    user ← get_user_by_id env stored.user_id
    reject (not user.enabled) (new_disabled_user_error user.username)
    built ← try (build_principal user stored)
    lift (or_invalid built)
