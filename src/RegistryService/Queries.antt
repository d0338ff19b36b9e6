-- ===== src/RegistryService/Queries.antt =====
-- Queries (internal/app/regixtry/queries.go).
use regixtry.Base.{ℕ, ℤ, Bool, true, List, [], Option, none, some, Text, keep, map}
use regixtry.Registry.Digest.{parse_digest}
use regixtry.Registry.Repository.{RepositoryRef}
use regixtry.Auth.Principal.{Principal, has_catalog_access}
use regixtry.Access.{ActionVerb}
use regixtry.BlobStore as Blobs
use regixtry.MetadataStore.Manifests as Rows
use regixtry.MetadataStore.Listings as Listings
use regixtry.Storage.State.{Site, Request, M, pure, lift, ◌>>=◌, ◌>>◌}
use regixtry.RegistryService.Payloads.{parse_repository}
use regixtry.RegistryService.Requests.{
  authorize, ManifestDetails, new_manifest_details, BlobDetails, new_blob_details,
}

abbrev pub is_listed : Option Principal → Text → Bool
is_listed none name = true
is_listed (some p) name = has_catalog_access p name

module _ (site : Site) (req : Request) where
  unfoldable pub resolve_manifest : Text → Text → M ManifestDetails
  unfolding parse_repository authorize Rows.resolve_manifest Rows.list_manifest_blobs
      new_manifest_details
  resolve_manifest repository_name reference = do
    repository ← lift (parse_repository repository_name)
    authorize site req ActionVerb.pull repository.name
    manifest ← Rows.resolve_manifest site req.tenant repository reference
    blobs ← Rows.list_manifest_blobs site req.tenant repository manifest.digest
    pure (new_manifest_details repository.name reference manifest blobs)

  unfoldable pub catalog : ℤ → Text → M (List Text)
  unfolding authorize Listings.catalog has_catalog_access
  catalog limit after = do
    authorize site req ActionVerb.catalog []
    repositories ← Listings.catalog site req.tenant limit after
    pure (
        map (λ (r : RepositoryRef). r.name)
          (keep (λ r. is_listed req.principal r.name) repositories))

  unfoldable pub tags : Text → ℤ → Text → M (Text × List Text)
  unfolding parse_repository authorize Listings.list_tags
  tags repository_name limit after = do
    repository ← lift (parse_repository repository_name)
    authorize site req ActionVerb.inspect repository.name
    names ← Listings.list_tags site req.tenant repository limit after
    pure (repository.name, names)

  unfoldable pub inspect_blob : Text → Text → M BlobDetails
  unfolding parse_digest authorize Blobs.open_blob new_blob_details
  inspect_blob repository_name digest_value = do
    digest ← lift (parse_digest digest_value)
    authorize site req ActionVerb.pull repository_name
    (bytes, descriptor) ← Blobs.open_blob site digest
    pure (new_blob_details repository_name descriptor)

  unfoldable pub open_blob : Text → Text → M (List ℕ × BlobDetails)
  unfolding parse_digest authorize Blobs.open_blob new_blob_details
  open_blob repository_name digest_value = do
    digest ← lift (parse_digest digest_value)
    authorize site req ActionVerb.pull repository_name
    (bytes, descriptor) ← Blobs.open_blob site digest
    pure (bytes, new_blob_details repository_name descriptor)
