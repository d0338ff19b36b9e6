-- ===== src/Registry/Descriptor.antt =====
-- Content descriptors (internal/domain/regixtry/descriptor.go).
use regixtry.Base.{ℤ, negative, Text, if◌then◌else◌, Result, ok, err, ◌>>=◌, ◌>>◌}
use regixtry.Errors.{Error}
use regixtry.Registry.Errors.{new_validation_error}
use regixtry.Registry.Digest.{Digest, parse_digest}

pub record Descriptor : Type 0 where
  pub media_type : Text
  pub digest : Digest
  pub size : ℤ

-- (Digest).Validate
unfoldable pub validate_digest : Digest → Result Error (Unit {0})
unfolding parse_digest
validate_digest d = parse_digest d >>= λ _. ok tt

-- (Descriptor).Validate
unfoldable pub validate : Descriptor → Result Error (Unit {0})
unfolding validate_digest
validate d =
    validate_digest d.digest
    >> (if negative d.size
        then err (new_validation_error "descriptor size must be zero or positive")
        else ok tt)
