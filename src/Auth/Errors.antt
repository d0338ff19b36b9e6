-- ===== src/Auth/Errors.antt =====
-- The constructors of `*auth.Error` and `IsCode` (internal/domain/auth/errors.go).
use regixtry.Base.{Bool, true, false, [], ◌∷◌, Text, String}
use regixtry.Errors.{AuthCode, Error, auth}

abbrev same : AuthCode → AuthCode → Bool
same AuthCode.validation AuthCode.validation = true
same AuthCode.not_found AuthCode.not_found = true
same AuthCode.invalid_credentials AuthCode.invalid_credentials = true
same AuthCode.forbidden AuthCode.forbidden = true
same AuthCode.expired_token AuthCode.expired_token = true
same AuthCode.revoked_token AuthCode.revoked_token = true
same AuthCode.disabled_user AuthCode.disabled_user = true
same AuthCode.bootstrap_required AuthCode.bootstrap_required = true
same AuthCode.conflict AuthCode.conflict = true
same _ _ = false

unfoldable pub is_code : Error → AuthCode → Bool
is_code (auth c m vs) code = same c code
is_code _ code = false

abbrev pub new_validation_error : String → Error
new_validation_error message = auth AuthCode.validation message []

abbrev pub new_not_found_error : Text → Text → Error
new_not_found_error kind value = auth AuthCode.not_found "%s %q was not found" (kind ∷ value ∷ [])

abbrev pub new_invalid_credentials_error : Error
new_invalid_credentials_error = auth AuthCode.invalid_credentials "invalid credentials" []

abbrev pub new_forbidden_error : String → Error
new_forbidden_error message = auth AuthCode.forbidden message []

abbrev pub new_expired_token_error : Text → Error
new_expired_token_error accessor =
    auth AuthCode.expired_token "token %q has expired" (accessor ∷ [])

abbrev pub new_revoked_token_error : Text → Error
new_revoked_token_error accessor =
    auth AuthCode.revoked_token "token %q has been revoked" (accessor ∷ [])

abbrev pub new_disabled_user_error : Text → Error
new_disabled_user_error username = auth AuthCode.disabled_user "user %q is disabled" (username ∷ [])

abbrev pub new_bootstrap_required_error : Error
new_bootstrap_required_error =
    auth AuthCode.bootstrap_required
      "auth enabled requires an active global admin; run `registry bootstrap-admin`" []

abbrev pub new_conflict_error : String → Error
new_conflict_error message = auth AuthCode.conflict message []
