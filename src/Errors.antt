-- ===== src/Errors.antt =====
-- The Go `error` values of the program: `*auth.Error` (internal/domain/auth/errors.go),
-- `*regixtry.Error` (internal/domain/regixtry/errors.go), and every other failure (the database
-- driver, the operating system, the random source), which the code passes on unread.
-- An error keeps its code and the values that its message shows; the rendered message is left out.
use regixtry.Base.{Text, String, List}

pub data AuthCode : Type 0 where
  validation not_found invalid_credentials forbidden expired_token revoked_token disabled_user
        bootstrap_required conflict :
      AuthCode

pub data RegistryCode : Type 0 where
  invalid_digest digest_mismatch invalid_repository invalid_manifest validation not_found conflict
        unauthorized policy_violation unsupported :
      RegistryCode

-- The code, the literal text or format of the message, and the values in it.
pub data Error : Type 0 where
  auth : AuthCode → String → List Text → Error
  registry : RegistryCode → String → List Text → Error
  infra : Error
