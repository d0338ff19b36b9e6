-- ===== src/Registry/Digest.antt =====
-- Content digests (internal/domain/regixtry/digest.go). `sha256.Sum256` of the standard library is
-- a parameter of the functions that hash.
pub mod Hex
pub mod Parsing
use regixtry.Base.{
  ℕ, ◌+◌, ◌*◌, Bool, true, false, ◌||◌, not, List, [], ◌∷◌, ◌++◌, Option, none, some, Text, codes,
  text_eq, len, ◌==◌, if◌then◌else◌, Result, ok, err,
}
use regixtry.Strings.{cut}
use regixtry.Registry.Digest.Hex.{hex_decode, hex_encode}
use regixtry.Errors.{Error}
use regixtry.Registry.Errors.{new_invalid_digest_error}

-- type Digest string
abbrev pub Digest : Type 0
Digest = Text

abbrev pub digest_algorithm_sha256 : Text
digest_algorithm_sha256 = codes "sha256"

abbrev decoded : Text → Option (List ℕ) → Result Error Digest
decoded value none = err (new_invalid_digest_error value)
decoded value (some _) = ok value

abbrev check_parts : Text → Option (Text × Text) → Result Error Digest
check_parts value none = err (new_invalid_digest_error value)
check_parts value (some (algorithm, encoded)) =
    if not (text_eq algorithm digest_algorithm_sha256) || not (len encoded == 64)
    then err (new_invalid_digest_error value)
    else decoded value (hex_decode encoded)

unfoldable pub parse_digest : Text → Result Error Digest
unfolding cut text_eq len hex_decode
parse_digest value = check_parts value (cut b':' value)

-- DigestFromBytes, and DigestFromReader on the bytes that the reader yields
unfoldable pub digest_from_bytes : (List ℕ → List ℕ) → List ℕ → Digest
unfolding hex_encode
digest_from_bytes sha256 payload = digest_algorithm_sha256 ++ (b':' ∷ hex_encode (sha256 payload))

abbrev before_colon : Digest → Option (Text × Text) → Text
before_colon d none = d
before_colon d (some (a, e)) = a

abbrev after_colon : Option (Text × Text) → Text
after_colon none = []
after_colon (some (a, e)) = e

-- (Digest).Algorithm and (Digest).Encoded; `strings.Cut` gives the whole text and the empty one
-- when there is no colon
unfoldable pub algorithm : Digest → Text
unfolding cut
algorithm d = before_colon d (cut b':' d)

unfoldable pub encoded : Digest → Text
unfolding cut
encoded d = after_colon (cut b':' d)
