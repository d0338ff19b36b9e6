-- ===== src/MetadataStore/Uploads.antt =====
-- Rows of upload sessions (internal/infra/metadata/sqlite/store.go). The times are stored in a
-- format that keeps them.
use regixtry.Base.{
  ℕ, Bool, true, false, not, ◌&&◌, List, [], ◌∷◌, ◌++◌, Option, none, some, Text, codes, text_eq,
  if◌then◌else◌, any, find?, keep, Result, ok, err,
}
use regixtry.Base
use regixtry.Errors.{Error}
use regixtry.Registry.Errors.{new_not_found_error}
use regixtry.Registry.Repository.{parse_repository_ref}
use regixtry.Registry.Upload.{UploadState}
use regixtry.Registry.Upload
use regixtry.Storage.Tables.{UploadRow}
use regixtry.Storage.State.{Site, M, lift, ◌>>=◌, ◌>>◌, reject, gets, puts, statement}

-- `INSERT ... ON CONFLICT(id) DO UPDATE`, which leaves the tenant of the row
unfoldable pub upsert_upload : Text → UploadState → List UploadRow → List UploadRow
unfolding text_eq
upsert_upload tenant u [] = record { tenant = tenant; upload = u } ∷ []
upsert_upload tenant u (r ∷ rs) =
    let rest = upsert_upload tenant u rs in
    if text_eq r.upload.id u.id then record r { upload = u } ∷ rs else r ∷ rest

unfoldable pub is_upload : Text → Text → UploadRow → Bool
unfolding text_eq
is_upload tenant upload_id r = text_eq r.tenant tenant && text_eq r.upload.id upload_id

-- `row.Scan` and ParseRepositoryRef
abbrev scanned : Text → Option UploadRow → Result Error UploadState
scanned upload_id none = err (new_not_found_error (codes "upload") upload_id)
scanned upload_id (some r) =
    Base.◌>>=◌ (parse_repository_ref r.upload.repository.name)
      (λ repository. ok (record r.upload { id = upload_id; repository = repository }))

module _ (site : Site) (tenant : Text) where
  unfoldable pub save_upload : UploadState → M (Unit {0})
  unfolding Upload.validate upsert_upload
  save_upload u = do
    lift (Upload.validate u)
    statement site.env
    puts (λ s. record s {
      tables = record s.tables { uploads = upsert_upload tenant u s.tables.uploads };
    })

  unfoldable pub get_upload : Text → M UploadState
  unfolding is_upload parse_repository_ref
  get_upload upload_id = do
    statement site.env
    row ← gets (λ s. find? (is_upload tenant upload_id) s.tables.uploads)
    lift (scanned upload_id row)

  unfoldable pub delete_upload : Text → M (Unit {0})
  unfolding is_upload
  delete_upload upload_id = do
    statement site.env
    hit ← gets (λ s. any (is_upload tenant upload_id) s.tables.uploads)
    puts (λ s. record s {
      tables = record s.tables {
        uploads = keep (λ r. not (is_upload tenant upload_id r)) s.tables.uploads;
      };
    })
    reject (not hit) (new_not_found_error (codes "upload") upload_id)
