-- ===== src/AuthService/Users.antt =====
-- Operations on users (internal/app/auth/service.go).
pub mod LastAdmin
pub mod Changes
use regixtry.Base.{
  ℕ, Bool, true, false, ◌&&◌, not, List, [], Option, none, some, Text, text_eq, if◌then◌else◌,
  Result, ok, err,
}
use regixtry.Errors.{AuthCode, Error}
use regixtry.Auth.Errors.{
  is_code, new_validation_error, new_conflict_error, new_bootstrap_required_error,
}
use regixtry.Strings.{is_nil}
use regixtry.Auth.User.{User}
use regixtry.Auth.Principal.{Principal}
use regixtry.AuthStore.Actions.{
  Env, M, pure, raise, lift, try, reject, ask, ask?, when, ◌>>=◌, ◌>>◌,
}
use regixtry.AuthStore.Users as Store
use regixtry.AuthStore.Users.{
  normalize_username, has_active_global_admin, get_user_by_username, get_user_by_id, upsert_user,
}
use regixtry.AuthService.Guards.{
  require_admin, validate_password, expect_missing, ensure_another_active_admin,
}

pub record CreateUserInput : Type 0 where
  pub username : Text
  pub password : Text
  pub is_admin : Bool
  pub is_read_only : Bool
  pub enabled : Bool

pub record UpdateUserInput : Type 0 where
  pub user_id : Text
  pub username : Text
  pub is_admin : Bool
  pub is_read_only : Bool

pub record BootstrapAdminInput : Type 0 where
  pub username : Text
  pub password : Text
  pub rotate_password : Bool

pub record BootstrapAdminResult : Type 0 where
  pub user : User
  pub created : Bool
  pub password_rotated : Bool

module _ (env : Env) where
  pub ensure_bootstrap_admin : M (Unit {0})
  unfolding has_active_global_admin
  ensure_bootstrap_admin = do
    has_admin ← has_active_global_admin env
    reject (not has_admin) new_bootstrap_required_error

  pub list_users : Principal → M (List User)
  unfolding require_admin Store.list_users
  list_users actor = do require_admin actor; Store.list_users env

  -- The password hash that an existing administrator keeps or gets.
  pub rotated_hash : BootstrapAdminInput → User → M Text
  rotated_hash input user =
      if input.rotate_password
      then ask? (λ t. env.hash_password t input.password)
      else pure user.password_hash

  -- BootstrapAdmin where the user exists
  pub bootstrap_existing : BootstrapAdminInput → ℕ → User → M BootstrapAdminResult
  unfolding has_active_global_admin upsert_user rotated_hash
  bootstrap_existing input now user = do
    when (not user.is_admin) (do
      has_other ← has_active_global_admin env
      reject has_other (new_conflict_error "a global admin already exists"))
    hash ← rotated_hash input user
    let updated = record user {
      username = normalize_username env input.username;
      password_hash = hash;
      is_admin = true;
      enabled = true;
      updated_at = now;
    }
    upsert_user env updated
    pure (record { user = updated; created = false; password_rotated = input.rotate_password })

  -- BootstrapAdmin where the lookup failed
  pub bootstrap_missing : BootstrapAdminInput → ℕ → Error → M BootstrapAdminResult
  unfolding is_code has_active_global_admin upsert_user
  bootstrap_missing input now e = do
    reject (not (is_code e AuthCode.not_found)) e
    has_admin ← has_active_global_admin env
    reject has_admin (new_conflict_error "a global admin already exists")
    hash ← ask? (λ t. env.hash_password t input.password)
    id ← ask env.uuid
    let user : User = record {
      id = id;
      username = normalize_username env input.username;
      password_hash = hash;
      is_admin = true;
      is_read_only = false;
      is_robot = false;
      enabled = true;
      created_at = now;
      updated_at = now;
    }
    upsert_user env user
    pure (record { user = user; created = true; password_rotated = false })

  abbrev bootstrap_found : BootstrapAdminInput → ℕ → Result Error User → M BootstrapAdminResult
  bootstrap_found input now (ok user) = bootstrap_existing input now user
  bootstrap_found input now (err e) = bootstrap_missing input now e

  pub bootstrap_admin : BootstrapAdminInput → M BootstrapAdminResult
  unfolding validate_password get_user_by_username bootstrap_existing bootstrap_missing
  bootstrap_admin input = do
    reject (is_nil (normalize_username env input.username))
        (new_validation_error "username is required")
    lift (validate_password input.password)
    now ← ask env.now
    found ← try (get_user_by_username env (normalize_username env input.username))
    bootstrap_found input now found

  pub create_user : Principal → CreateUserInput → M User
  unfolding require_admin validate_password get_user_by_username expect_missing upsert_user
  create_user actor input = do
    require_admin actor
    reject (is_nil (normalize_username env input.username))
        (new_validation_error "username is required")
    lift (validate_password input.password)
    found ← try (get_user_by_username env (normalize_username env input.username))
    lift (expect_missing found)
    hash ← ask? (λ t. env.hash_password t input.password)
    now ← ask env.now
    id ← ask env.uuid
    let user : User = record {
      id = id;
      username = normalize_username env input.username;
      password_hash = hash;
      is_admin = input.is_admin;
      is_read_only = input.is_read_only;
      is_robot = false;
      enabled = input.enabled;
      created_at = now;
      updated_at = now;
    }
    upsert_user env user
    pure user

  -- The username of an update: the new one, unless it is blank.
  abbrev pub next_username : UpdateUserInput → User → Text
  next_username input user =
      if is_nil (normalize_username env input.username)
      then user.username
      else normalize_username env input.username

  -- The lookup of a new username: another user's is a conflict, and of the errors only NotFound passes.
  pub expect_free : Text → Result Error User → Result Error (Unit {0})
  unfolding text_eq is_code
  expect_free id (ok other) =
      if text_eq other.id id then ok tt else err (new_conflict_error "username already exists")
  expect_free id (err e) = if is_code e AuthCode.not_found then ok tt else err e

  pub update_user : Principal → UpdateUserInput → M User
  unfolding require_admin get_user_by_id text_eq get_user_by_username expect_free
      ensure_another_active_admin upsert_user
  update_user actor input = do
    require_admin actor
    user ← get_user_by_id env input.user_id
    when (not (text_eq (next_username input user) user.username)) (do
      found ← try (get_user_by_username env (next_username input user))
      lift (expect_free user.id found))
    when (user.is_admin && not input.is_admin)
        (ensure_another_active_admin env user.id user.enabled)
    now ← ask env.now
    let updated = record user {
      username = next_username input user;
      is_admin = input.is_admin;
      is_read_only = input.is_read_only;
      updated_at = now;
    }
    upsert_user env updated
    pure updated

  pub set_user_enabled : Principal → Text → Bool → M User
  unfolding require_admin get_user_by_id ensure_another_active_admin upsert_user
  set_user_enabled actor user_id enabled = do
    require_admin actor
    user ← get_user_by_id env user_id
    when (user.is_admin && user.enabled && not enabled)
        (ensure_another_active_admin env user.id true)
    now ← ask env.now
    let updated = record user { enabled = enabled; updated_at = now }
    upsert_user env updated
    pure updated

  pub delete_user : Principal → Text → M (Unit {0})
  unfolding require_admin get_user_by_id ensure_another_active_admin Store.delete_user
  delete_user actor user_id = do
    require_admin actor
    user ← get_user_by_id env user_id
    when (user.is_admin && user.enabled) (ensure_another_active_admin env user.id true)
    Store.delete_user env user_id

  pub reset_password : Principal → Text → Text → M (Unit {0})
  unfolding require_admin validate_password get_user_by_id upsert_user
  reset_password actor user_id new_password = do
    require_admin actor
    lift (validate_password new_password)
    user ← get_user_by_id env user_id
    hash ← ask? (λ t. env.hash_password t new_password)
    now ← ask env.now
    upsert_user env (record user { password_hash = hash; updated_at = now })
