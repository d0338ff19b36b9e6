-- ===== src/AuthService/Robots.antt =====
-- Robot accounts (internal/app/auth/service.go).
pub mod Deletion
use regixtry.Base.{ℤ, ℕ, true, false, not, List, Text}
use regixtry.Auth.Errors.{new_validation_error}
use regixtry.Strings.{trim_space, is_nil}
use regixtry.Registry.Repository.{parse_repository_ref}
use regixtry.Auth.User.{User, robot_password_hash}
use regixtry.Auth.Grant.{RepoRole, RepoGrant, validate_role}
use regixtry.Auth.Principal.{Principal}
use regixtry.AuthStore.Actions.{Env, M, pure, lift, try, reject, ask, ◌>>=◌, ◌>>◌}
use regixtry.AuthStore.Users as Store
use regixtry.AuthStore.Users.{normalize_username, get_user_by_username, get_user_by_id, upsert_user}
use regixtry.AuthStore.Grants.{put_repo_grant}
use regixtry.AuthService.Guards.{require_admin, expect_missing}
use regixtry.AuthService.Tokens.{create_admin_token}
use regixtry.AuthService.Grants.{grant_of}

pub record CreateRobotInput : Type 0 where
  pub name : Text
  pub repository : Text
  pub role : RepoRole
  pub ttl : ℤ

pub record CreatedRobot : Type 0 where
  pub user : User
  pub grant : RepoGrant
  pub secret : Text
  pub accessor : Text
  pub expires_at : ℕ

module _ (env : Env) where
  unfoldable pub create_robot : Principal → CreateRobotInput → M CreatedRobot
  unfolding require_admin normalize_username get_user_by_username expect_missing
      parse_repository_ref trim_space validate_role upsert_user put_repo_grant create_admin_token
  create_robot actor input = do
    require_admin actor
    reject (is_nil (normalize_username env input.name))
        (new_validation_error "robot name is required")
    found ← try (get_user_by_username env (normalize_username env input.name))
    lift (expect_missing found)
    repo ← lift (parse_repository_ref (trim_space input.repository))
    lift (validate_role input.role)
    now ← ask env.now
    id ← ask env.uuid
    let user : User = record {
      id = id;
      username = normalize_username env input.name;
      password_hash = robot_password_hash;
      is_admin = false;
      is_read_only = false;
      is_robot = true;
      enabled = true;
      created_at = now;
      updated_at = now;
    }
    upsert_user env user
    put_repo_grant env (grant_of user.id repo input.role now)
    created ←
        create_admin_token env actor
          (record { user_id = user.id; name = trim_space input.name; ttl = input.ttl })
    pure (record {
      user = user;
      grant = grant_of user.id repo input.role now;
      secret = created.secret;
      accessor = created.accessor;
      expires_at = created.expires_at;
    })

  unfoldable pub list_robots : Principal → M (List User)
  unfolding require_admin Store.list_robots
  list_robots actor = do require_admin actor; Store.list_robots env

  unfoldable pub delete_robot : Principal → Text → M (Unit {0})
  unfolding require_admin get_user_by_id Store.delete_user
  delete_robot actor user_id = do
    require_admin actor
    user ← get_user_by_id env user_id
    reject (not user.is_robot) (new_validation_error "target user is not a robot account")
    Store.delete_user env user_id
