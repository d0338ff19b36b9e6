-- ===== src/Registry/Repository.antt =====
-- Repository names (internal/domain/regixtry/repository.go).
pub mod Names
use regixtry.Base.{
  Bool, true, false, ◌||◌, ◌&&◌, [], ◌∷◌, Text, ℕ, leb, ◌==◌, if◌then◌else◌, all, Result, ok, err,
  ◌>>=◌,
}
use regixtry.Strings.{split, has_prefix, ends_in, is_nil}
use regixtry.Regexp.{Regex, class, seq, star, plus, match_string}
use regixtry.Errors.{Error}
use regixtry.Registry.Errors.{new_invalid_repository_error}

-- [a-z0-9]
unfoldable pub is_segment_char : ℕ → Bool
is_segment_char c = (leb b'a' c && leb c b'z') || (leb b'0' c && leb c b'9')

-- [._-]
unfoldable pub is_separator : ℕ → Bool
is_separator c = (c == b'.') || (c == b'_') || (c == b'-')

-- ^[a-z0-9]+(?:[._-][a-z0-9]+)*$
unfoldable pub repository_segment_pattern : Regex
unfolding is_segment_char is_separator
repository_segment_pattern =
    seq (plus (class is_segment_char))
      (star (seq (class is_separator) (plus (class is_segment_char))))

pub record RepositoryRef : Type 0 where
  pub name : Text

unfoldable pub parse_repository_ref : Text → Result Error RepositoryRef
unfolding split has_prefix ends_in repository_segment_pattern match_string
parse_repository_ref value =
    if is_nil value || has_prefix value (b'/' ∷ []) || ends_in b'/' value
    then err (new_invalid_repository_error value)
    else if all (match_string repository_segment_pattern) (split b'/' value)
    then ok (record { name = value })
    else err (new_invalid_repository_error value)

-- (RepositoryRef).Validate
unfoldable pub validate : RepositoryRef → Result Error (Unit {0})
unfolding parse_repository_ref
validate r = parse_repository_ref r.name >>= λ _. ok tt
