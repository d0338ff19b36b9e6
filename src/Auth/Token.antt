-- ===== src/Auth/Token.antt =====
-- Tokens (internal/domain/auth/token.go).
use regixtry.Base.{
  ℕ, ◌*◌, Bool, true, false, ◌&&◌, not, List, [], ◌∷◌, Option, none, some, Text, ◌==◌, ltb,
  if◌then◌else◌, Result, ok, err, ◌>>=◌,
}
use regixtry.Errors.{Error}
use regixtry.Auth.Errors.{new_validation_error, new_revoked_token_error, new_expired_token_error}
use regixtry.Auth.Scope.{Scope, parse_scopes}
use regixtry.Strings.{trim_space, is_nil}

-- `TokenKind` is a string type: the two kinds, and any other string.
pub data TokenKind : Type 0 where
  access admin_credential : TokenKind
  other : Text → TokenKind

-- Durations in nanoseconds.
abbrev pub minute : ℕ
minute = 60000000000

abbrev pub access_token_ttl : ℕ
access_token_ttl = 15 * minute

abbrev pub default_admin_token_ttl : ℕ
default_admin_token_ttl = 43200 * minute

pub record Token : Type 0 where
  pub id : Text
  pub user_id : Text
  pub kind : TokenKind
  pub name : Text
  pub scope : Text
  pub accessor : Text
  pub secret_hash : Text
  pub expires_at : ℕ
  pub created_at : ℕ
  pub revoked_at : Option ℕ

unfoldable pub scopes : Token → Result Error (List Scope)
unfolding trim_space parse_scopes
scopes t =
    let parsed = parse_scopes (trim_space t.scope ∷ []) in
    if is_nil (trim_space t.scope) then ok [] else parsed

abbrev is_known : TokenKind → Bool
is_known access = true
is_known admin_credential = true
is_known (other _) = false

abbrev is_access : TokenKind → Bool
is_access access = true
is_access _ = false

abbrev is_admin_credential : TokenKind → Bool
is_admin_credential admin_credential = true
is_admin_credential _ = false

unfoldable pub validate : Token → Result Error (Unit {0})
unfolding trim_space scopes
validate t =
    if is_nil (trim_space t.id)
    then err (new_validation_error "token id is required")
    else if is_nil (trim_space t.user_id)
    then err (new_validation_error "token user id is required")
    else if not (is_known t.kind)
    then err (new_validation_error "token kind is invalid")
    else if is_nil (trim_space t.accessor)
    then err (new_validation_error "token accessor is required")
    else if is_nil (trim_space t.secret_hash)
    then err (new_validation_error "token secret hash is required")
    else if t.created_at == 0
    then err (new_validation_error "token created at is required")
    else if t.expires_at == 0
    then err (new_validation_error "token expires at is required")
    else if not (ltb t.created_at t.expires_at)
    then err (new_validation_error "token expiry must be after creation")
    else if is_access t.kind && not (is_nil t.name)
    then err (new_validation_error "access tokens must not have a display name")
    else if is_admin_credential t.kind && not (is_nil (trim_space t.scope))
    then err (new_validation_error "admin credential tokens must not store access scope")
    else (scopes t >>= λ _. ok tt)

unfoldable pub is_expired : Token → ℕ → Bool
is_expired t now = not (ltb now t.expires_at)

unfoldable pub is_revoked : Token → Bool
is_revoked t = elim t.revoked_at [ none ↦ false | some _ ↦ true ]

-- (Token).IsActive
unfoldable pub check_active : Token → ℕ → Result Error (Unit {0})
unfolding is_expired is_revoked
check_active t now =
    if is_revoked t
    then err (new_revoked_token_error t.accessor)
    else if is_expired t now
    then err (new_expired_token_error t.accessor)
    else ok tt
