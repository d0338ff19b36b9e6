-- ===== src/RegistryService/Uploads.antt =====
-- Uploads of blobs (internal/app/regixtry/service.go, internal/app/regixtry/queries.go).
use regixtry.Base.{not, Option, none, some, Text, codes, text_eq}
use regixtry.Registry.Errors.{new_not_found_error}
use regixtry.Registry.Digest.{parse_digest}
use regixtry.Registry.Upload.{UploadState}
use regixtry.Access.{ActionVerb}
use regixtry.BlobStore as Blobs
use regixtry.BlobStore.{Reader}
use regixtry.MetadataStore.Uploads as Rows
use regixtry.Storage.State.{Site, Request, M, pure, lift, ◌>>=◌, ◌>>◌, reject}
use regixtry.RegistryService.Payloads.{parse_repository}
use regixtry.RegistryService.Requests.{
  authorize, UploadDetails, new_upload_details, BlobDetails, new_blob_details,
}

module _ (site : Site) (req : Request) where
  -- An upload of another repository is not found.
  unfoldable pub ensure_upload : Text → Text → M UploadState
  unfolding parse_repository Rows.get_upload text_eq
  ensure_upload repository_name upload_id = do
    repository ← lift (parse_repository repository_name)
    state ← Rows.get_upload site req.tenant upload_id
    reject (not (text_eq state.repository.name repository.name))
        (new_not_found_error (codes "upload") upload_id)
    pure state

  unfoldable pub begin_upload : Text → M UploadDetails
  unfolding parse_repository authorize Blobs.begin_upload Rows.save_upload new_upload_details
  begin_upload repository_name = do
    repository ← lift (parse_repository repository_name)
    authorize site req ActionVerb.push repository.name
    state ← Blobs.begin_upload site repository
    Rows.save_upload site req.tenant state
    pure (new_upload_details state)

  unfoldable pub append_upload : Text → Text → Reader → M UploadDetails
  unfolding ensure_upload authorize Blobs.put_upload_chunk Rows.save_upload new_upload_details
  append_upload repository_name upload_id content = do
    state ← ensure_upload repository_name upload_id
    authorize site req ActionVerb.push state.repository.name
    written ← Blobs.put_upload_chunk site upload_id content
    Rows.save_upload site req.tenant written
    pure (new_upload_details written)

  abbrev final : Text → Option Reader → M (Unit {0})
  final upload_id none = pure tt
  final upload_id (some content) =
      Blobs.put_upload_chunk site upload_id content >>= λ u. Rows.save_upload site req.tenant u

  unfoldable pub complete_upload : Text → Text → Text → Option Reader → M BlobDetails
  unfolding ensure_upload authorize Blobs.put_upload_chunk Rows.save_upload parse_digest
      Blobs.commit_upload Rows.delete_upload new_blob_details
  complete_upload repository_name upload_id expected_digest final_chunk = do
    state ← ensure_upload repository_name upload_id
    authorize site req ActionVerb.push state.repository.name
    final upload_id final_chunk
    digest ← lift (parse_digest expected_digest)
    descriptor ← Blobs.commit_upload site upload_id digest
    Rows.delete_upload site req.tenant upload_id
    pure (new_blob_details state.repository.name descriptor)

  unfoldable pub upload_status : Text → Text → M UploadDetails
  unfolding ensure_upload authorize Blobs.get_upload Rows.save_upload new_upload_details
  upload_status repository_name upload_id = do
    state ← ensure_upload repository_name upload_id
    authorize site req ActionVerb.push state.repository.name
    current ← Blobs.get_upload site upload_id
    Rows.save_upload site req.tenant current
    pure (new_upload_details current)
