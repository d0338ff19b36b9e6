-- ===== src/RegistryService/Manifests.antt =====
-- Publishing and deleting (internal/app/regixtry/service.go).
pub mod Complete
pub mod Payload
use regixtry.Base.{
  Bool, true, false, not, List, [], ◌∷◌, ◌++◌, Option, none, some, Text, codes, if◌then◌else◌,
  Result, ok, err, ℕ,
}
use regixtry.Errors.{Error, RegistryCode}
use regixtry.Registry.Errors.{is_code, new_conflict_error, new_validation_error}
use regixtry.Registry.Digest.{Digest, parse_digest}
use regixtry.Registry.Descriptor.{Descriptor}
use regixtry.Registry.Manifest.{Manifest, blob_references}
use regixtry.Registry.Repository.{RepositoryRef}
use regixtry.Auth.Principal.{Principal}
use regixtry.Access.{ActionVerb, authorize_delete_repository}
use regixtry.BlobStore as Blobs
use regixtry.MetadataStore.Manifests as Rows
use regixtry.MetadataStore.Deletions as Deletions
use regixtry.Storage.State.{
  State, Site, Request, M, PushScan, pure, lift, raise, try, ◌>>=◌, ◌>>◌, reject, puts, when,
}
use regixtry.RegistryService.Payloads.{
  parse_repository, parse_manifest_payload, is_referrer_artifact_push,
}
use regixtry.RegistryService.Requests.{
  authorize, principal_id, ManifestDetails, new_manifest_details, DeletionDetails,
  new_deletion_details_for_digest, new_deletion_details_for_tag, RepositoryDeletionDetails,
}

abbrev pub pushed : Option Principal → Manifest → Manifest
pushed none m = m
pushed (some p) m = record m { pushed_by = p.user_id }

module _ (site : Site) where
  -- Each blob that the manifest refers to must be there.
  unfoldable pub require_blobs : List Descriptor → M (Unit {0})
  unfolding Blobs.blob_exists
  require_blobs [] = pure tt
  require_blobs (d ∷ ds) = do
    exists ← Blobs.blob_exists site d.digest
    reject (not exists) (new_conflict_error "manifest references missing blob %s" (d.digest ∷ []))
    require_blobs ds

  abbrev pub subject_error : Digest → Text → Result Error Manifest → M (Unit {0})
  subject_error digest name (ok m) = pure tt
  subject_error digest name (err e) = raise (
      if is_code e RegistryCode.not_found
      then new_conflict_error "manifest subject %s was not found in %s" (digest ∷ name ∷ [])
      else e)

  -- The subject, where there is one, must be a manifest of the repository.
  unfoldable pub require_subject : Text → RepositoryRef → Option Descriptor → M (Unit {0})
  unfolding Rows.resolve_manifest is_code
  require_subject tenant repository none = pure tt
  require_subject tenant repository (some d) =
      try (Rows.resolve_manifest site tenant repository d.digest) >>= λ r.
      subject_error d.digest repository.name r

  module _ (req : Request) where
    unfoldable pub publish_manifest : Text → Text → Text → List ℕ → M ManifestDetails
    unfolding parse_repository authorize parse_manifest_payload require_blobs require_subject
        blob_references Rows.publish_manifest is_referrer_artifact_push new_manifest_details
    publish_manifest repository_name reference media_type payload = do
      repository ← lift (parse_repository repository_name)
      authorize site req ActionVerb.push repository.name
      (read, tag) ← lift (parse_manifest_payload site reference media_type payload)
      let manifest = pushed req.principal read
      require_blobs (blob_references manifest)
      require_subject req.tenant repository manifest.subject
      Rows.publish_manifest site req.tenant repository tag manifest (blob_references manifest)
      let scan : PushScan = record {
        tenant = req.tenant;
        repository = repository.name;
        reference = reference;
        digest = manifest.digest;
      }
      when (not (is_referrer_artifact_push manifest tag))
          (puts (λ s. record s { scans = s.scans ++ scan ∷ [] }))
      pure (new_manifest_details repository.name reference manifest (blob_references manifest))

    abbrev pub delete_reference : RepositoryRef → Text → Result Error Digest → M DeletionDetails
    delete_reference repository reference (ok digest) =
        Deletions.delete_manifest_by_digest site req.tenant repository digest >>= λ tags.
        pure (new_deletion_details_for_digest repository.name reference digest tags)
    delete_reference repository reference (err e) =
        Deletions.delete_tag site req.tenant repository reference
        >> pure (new_deletion_details_for_tag repository.name reference)

    unfoldable pub delete_manifest : Text → Text → M DeletionDetails
    unfolding parse_repository authorize parse_digest Deletions.delete_manifest_by_digest
        Deletions.delete_tag new_deletion_details_for_digest new_deletion_details_for_tag
    delete_manifest repository_name reference = do
      repository ← lift (parse_repository repository_name)
      authorize site req ActionVerb.delete repository.name
      reject (not site.delete_enabled) (new_validation_error "manifest deletion is not enabled")
      delete_reference repository reference (parse_digest reference)

    unfoldable pub delete_repository : Text → M RepositoryDeletionDetails
    unfolding parse_repository authorize_delete_repository Deletions.delete_repository
    delete_repository repository_name = do
      repository ← lift (parse_repository repository_name)
      lift (authorize_delete_repository site.access req.principal repository.name)
      reject (not site.delete_enabled) (new_validation_error "repository deletion is not enabled")
      (tags, manifests) ← Deletions.delete_repository site req.tenant repository
      pure (record {
        repository = repository.name;
        manifests_removed = manifests;
        tags_removed = tags;
      })
