-- ===== src/AuthStore/Actions.antt =====
-- Actions on the tables of the auth store.
pub use regixtry.Actions.{Env, continue, ◌>>◌, when}
unfoldable pub use regixtry.Actions.{
  pure, raise, lift, try, ◌>>=◌, reject, gets, puts, ask, ask?, statement,
}
use regixtry.Base.{List}
use regixtry.Actions
use regixtry.Auth.User.{User}
use regixtry.Auth.Grant.{RepoGrant}
use regixtry.Auth.Token.{Token}

-- The tables auth_users, auth_repo_grants and auth_tokens.
pub record Db : Type 0 where
  pub users : List User
  pub grants : List RepoGrant
  pub tokens : List Token

abbrev pub World : Type 0
World = Actions.World Db

abbrev pub M : Type 0 → Type 0
M A = Actions.M Db A
