-- ===== src/Auth/User.antt =====
-- Users (internal/domain/auth/user.go). A time is a number of nanoseconds, 0 the zero time.
use regixtry.Base.{ℕ, Bool, ◌||◌, ◌&&◌, not, Text, codes, leb, ◌==◌, if◌then◌else◌, Result, ok, err}
use regixtry.Errors.{Error}
use regixtry.Auth.Errors.{new_validation_error}
use regixtry.Strings.{trim_space, is_nil}
use regixtry.Regexp.{Regex, class, seq, star, opt, match_string}

-- [A-Za-z0-9] and [A-Za-z0-9._-]
unfoldable pub is_alphanumeric : ℕ → Bool
is_alphanumeric c =
    (leb b'A' c && leb c b'Z') || (leb b'a' c && leb c b'z') || (leb b'0' c && leb c b'9')

unfoldable pub is_inner : ℕ → Bool
unfolding is_alphanumeric
is_inner c = is_alphanumeric c || (c == b'.') || (c == b'_') || (c == b'-')

-- ^[A-Za-z0-9](?:[A-Za-z0-9._-]*[A-Za-z0-9])?$
unfoldable pub username_pattern : Regex
unfolding is_alphanumeric is_inner
username_pattern =
    seq (class is_alphanumeric) (opt (seq (star (class is_inner)) (class is_alphanumeric)))

abbrev pub robot_password_hash : Text
robot_password_hash = codes "robot:no-password"

pub record User : Type 0 where
  pub id : Text
  pub username : Text
  pub password_hash : Text
  pub is_admin : Bool
  pub is_read_only : Bool
  pub is_robot : Bool
  pub enabled : Bool
  pub created_at : ℕ
  pub updated_at : ℕ

unfoldable pub validate : User → Result Error (Unit {0})
unfolding trim_space username_pattern match_string
validate u =
    if is_nil (trim_space u.username)
    then err (new_validation_error "username is required")
    else if not (match_string username_pattern (trim_space u.username))
    then err (
        new_validation_error
          "username must contain only letters, numbers, dot, dash, or underscore")
    else if is_nil (trim_space u.id)
    then err (new_validation_error "user id is required")
    else if is_nil (trim_space u.password_hash)
    then err (new_validation_error "password hash is required")
    else if u.created_at == 0
    then err (new_validation_error "created at is required")
    else if u.updated_at == 0
    then err (new_validation_error "updated at is required")
    else if u.is_robot && (u.is_admin || u.is_read_only)
    then err (new_validation_error "robot accounts cannot be admin or read-only")
    else ok tt
