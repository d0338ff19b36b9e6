-- ===== src/Registry/Errors.antt =====
-- The constructors of `*regixtry.Error` and `IsCode` (internal/domain/regixtry/errors.go).
use regixtry.Base.{Bool, true, false, List, [], ◌∷◌, Text, String}
use regixtry.Errors.{RegistryCode, Error, registry}

-- An identity test on codes.
abbrev same : RegistryCode → RegistryCode → Bool
same RegistryCode.invalid_digest RegistryCode.invalid_digest = true
same RegistryCode.digest_mismatch RegistryCode.digest_mismatch = true
same RegistryCode.invalid_repository RegistryCode.invalid_repository = true
same RegistryCode.invalid_manifest RegistryCode.invalid_manifest = true
same RegistryCode.validation RegistryCode.validation = true
same RegistryCode.not_found RegistryCode.not_found = true
same RegistryCode.conflict RegistryCode.conflict = true
same RegistryCode.unauthorized RegistryCode.unauthorized = true
same RegistryCode.policy_violation RegistryCode.policy_violation = true
same RegistryCode.unsupported RegistryCode.unsupported = true
same _ _ = false

unfoldable pub is_code : Error → RegistryCode → Bool
is_code (registry c m vs) code = same c code
is_code _ code = false

abbrev pub new_invalid_digest_error : Text → Error
new_invalid_digest_error value =
    registry RegistryCode.invalid_digest "invalid digest %q" (value ∷ [])

abbrev pub new_digest_mismatch_error : Text → Text → Error
new_digest_mismatch_error expected actual =
    registry RegistryCode.digest_mismatch "digest mismatch: expected %s, got %s"
      (expected ∷ actual ∷ [])

abbrev pub new_invalid_repository_error : Text → Error
new_invalid_repository_error value =
    registry RegistryCode.invalid_repository "invalid repository %q" (value ∷ [])

abbrev pub new_invalid_manifest_error : String → Error
new_invalid_manifest_error message = registry RegistryCode.invalid_manifest message []

abbrev pub new_validation_error : String → Error
new_validation_error message = registry RegistryCode.validation message []

abbrev pub new_not_found_error : Text → Text → Error
new_not_found_error kind value =
    registry RegistryCode.not_found "%s %q was not found" (kind ∷ value ∷ [])

abbrev pub new_conflict_error : String → List Text → Error
new_conflict_error message values = registry RegistryCode.conflict message values

abbrev pub new_unauthorized_error : String → Error
new_unauthorized_error message = registry RegistryCode.unauthorized message []

abbrev pub new_policy_violation_error : String → Error
new_policy_violation_error message = registry RegistryCode.policy_violation message []

abbrev pub new_unsupported_error : String → Error
new_unsupported_error message = registry RegistryCode.unsupported message []
