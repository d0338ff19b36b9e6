-- ===== src/Registry/Upload.antt =====
-- Upload sessions (internal/domain/regixtry/upload.go). A time is a number; 0 is the zero time.
use regixtry.Base.{ℕ, ℤ, negative, ◌||◌, ◌==◌, Text, codes, if◌then◌else◌, Result, ok, err, ◌>>◌}
use regixtry.Errors.{Error}
use regixtry.Strings.{is_nil}
use regixtry.Registry.Errors.{new_validation_error}
use regixtry.Registry.Repository.{RepositoryRef}
use regixtry.Registry.Repository

-- type UploadStatus string, and the status of an upload in progress
abbrev pub UploadStatus : Type 0
UploadStatus = Text

abbrev pub upload_status_active : UploadStatus
upload_status_active = codes "active"

pub record UploadState : Type 0 where
  pub id : Text
  pub repository : RepositoryRef
  pub status : UploadStatus
  pub size : ℤ
  pub started_at : ℕ
  pub updated_at : ℕ
  pub location : Text

-- (UploadState).Validate
unfoldable pub validate : UploadState → Result Error (Unit {0})
unfolding Repository.validate
validate u =
    (if is_nil u.id then err (new_validation_error "upload ID is required") else ok tt)
    >> Repository.validate u.repository
    >> (if is_nil u.status then err (new_validation_error "upload status is required") else ok tt)
    >> (if negative u.size
        then err (new_validation_error "upload size must be zero or positive")
        else ok tt)
    >> (if (u.started_at == 0) || (u.updated_at == 0)
        then err (new_validation_error "upload timestamps are required")
        else ok tt)
