-- ===== src/AuthService/Tokens.antt =====
-- Administrative credentials (internal/app/auth/service.go).
pub mod Issuing
use regixtry.Base.{
  ℤ, positive, ℕ, ◌+◌, List, [], none, Text, codes, text_eq, not, ◌==◌, ltb, if◌then◌else◌, Result,
  ok, err,
}
use regixtry.Errors.{Error}
use regixtry.Auth.Errors.{new_validation_error, new_not_found_error, new_disabled_user_error}
use regixtry.Strings.{trim_space}
use regixtry.Auth.User.{User}
use regixtry.Auth.Token.{Token, TokenKind, default_admin_token_ttl}
use regixtry.Auth.Principal.{Principal}
use regixtry.AuthStore.Actions.{Env, M, pure, lift, reject, ask, ask?, ◌>>=◌, ◌>>◌}
use regixtry.AuthStore.Users.{get_user_by_id}
use regixtry.AuthStore.Tokens.{
  create_token, get_token_by_accessor, list_tokens_by_user, revoke_token_by_accessor,
}
use regixtry.AuthService.Guards.{require_admin, short_accessor}

pub record CreateAdminTokenInput : Type 0 where
  pub user_id : Text
  pub name : Text
  pub ttl : ℤ

pub record CreatedAdminToken : Type 0 where
  pub token : Token
  pub secret : Text
  pub plaintext : Text
  pub accessor : Text
  pub expires_at : ℕ
  pub target_user : User

-- How long the token lives: thirty days where nothing positive is asked for, and never longer.
unfoldable pub admin_token_ttl : ℤ → Result Error ℕ
admin_token_ttl asked =
    let ttl = if positive asked == 0 then default_admin_token_ttl else positive asked in
    if ltb default_admin_token_ttl ttl
    then err (new_validation_error "admin token ttl must be 30 days or shorter")
    else ok ttl

module _ (env : Env) where
  unfoldable pub create_admin_token : Principal → CreateAdminTokenInput → M CreatedAdminToken
  unfolding require_admin get_user_by_id admin_token_ttl trim_space create_token
  create_admin_token actor input = do
    require_admin actor
    user ← get_user_by_id env input.user_id
    reject (not user.enabled) (new_disabled_user_error user.username)
    ttl ← lift (admin_token_ttl input.ttl)
    secret ← ask? env.random
    now ← ask env.now
    id ← ask env.uuid
    accessor ← short_accessor env (codes "act")
    let token : Token = record {
      id = id;
      user_id = user.id;
      kind = TokenKind.admin_credential;
      name = trim_space input.name;
      scope = [];
      accessor = accessor;
      secret_hash = env.hash_secret secret;
      expires_at = now + ttl;
      created_at = now;
      revoked_at = none;
    }
    create_token env token
    pure (record {
      token = token;
      secret = secret;
      plaintext = secret;
      accessor = token.accessor;
      expires_at = token.expires_at;
      target_user = user;
    })

  unfoldable pub list_admin_tokens : Principal → Text → M (List Token)
  unfolding require_admin get_user_by_id list_tokens_by_user
  list_admin_tokens actor user_id = do
    require_admin actor
    get_user_by_id env user_id
    list_tokens_by_user env user_id TokenKind.admin_credential

  unfoldable pub revoke_admin_token : Principal → Text → M (Unit {0})
  unfolding require_admin trim_space revoke_token_by_accessor
  revoke_admin_token actor accessor = do
    require_admin actor
    now ← ask env.now
    revoke_token_by_accessor env (trim_space accessor) now

  unfoldable pub revoke_admin_user_token : Principal → Text → Text → M (Unit {0})
  unfolding require_admin get_user_by_id get_token_by_accessor text_eq trim_space
      revoke_token_by_accessor
  revoke_admin_user_token actor user_id accessor = do
    require_admin actor
    user ← get_user_by_id env user_id
    token ← get_token_by_accessor env TokenKind.admin_credential accessor
    reject (not (text_eq token.user_id user.id))
        (new_not_found_error (codes "token") (trim_space accessor))
    now ← ask env.now
    revoke_token_by_accessor env token.accessor now
