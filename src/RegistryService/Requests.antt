-- ===== src/RegistryService/Requests.antt =====
-- Authorization of a request, and the details that the service answers with
-- (internal/app/regixtry/service.go, internal/app/regixtry/queries.go). The platforms of an image
-- index, which are shown only, are left out of the details of a manifest.
use regixtry.Base.{ℕ, ℤ, Bool, true, false, List, [], ◌∷◌, Option, none, some, Text, map}
use regixtry.Auth.Principal.{Principal}
use regixtry.Access.{ActionVerb}
use regixtry.Registry.Descriptor.{Descriptor}
use regixtry.Registry.Manifest.{Manifest, Annotations}
use regixtry.Registry.Upload.{UploadState, UploadStatus}
use regixtry.Storage.State.{Site, Request, M, lift}

-- (*Service).authorize
unfoldable pub authorize : Site → Request → ActionVerb → Text → M (Unit {0})
authorize site req verb repository =
    lift (site.access (record { verb = verb; repository = repository; principal = req.principal }))

-- The id of the principal's user, where there is a principal.
abbrev pub principal_id : Option Principal → Text
principal_id none = []
principal_id (some p) = p.user_id

pub record UploadDetails : Type 0 where
  pub repository : Text
  pub id : Text
  pub status : UploadStatus
  pub size : ℤ
  pub started_at : ℕ
  pub updated_at : ℕ
  pub location : Text

unfoldable pub new_upload_details : UploadState → UploadDetails
new_upload_details u = record {
  repository = u.repository.name;
  id = u.id;
  status = u.status;
  size = u.size;
  started_at = u.started_at;
  updated_at = u.updated_at;
  location = u.location;
}

pub record BlobDetails : Type 0 where
  pub repository : Text
  pub media_type : Text
  pub digest : Text
  pub size : ℤ

unfoldable pub new_blob_details : Text → Descriptor → BlobDetails
new_blob_details repository d = record {
  repository = repository;
  media_type = d.media_type;
  digest = d.digest;
  size = d.size;
}

pub record ManifestDetails : Type 0 where
  pub repository : Text
  pub reference : Text
  pub media_type : Text
  pub digest : Text
  pub size : ℤ
  pub annotations : Annotations
  pub blobs : List BlobDetails

unfoldable pub new_manifest_details : Text → Text → Manifest → List Descriptor → ManifestDetails
unfolding new_blob_details
new_manifest_details repository reference m blobs = record {
  repository = repository;
  reference = reference;
  media_type = m.media_type;
  digest = m.digest;
  size = m.size;
  annotations = m.annotations;
  blobs = map (new_blob_details repository) blobs;
}

pub record DeletionDetails : Type 0 where
  pub repository : Text
  pub reference : Text
  pub digest : Text
  pub manifest_removed : Bool
  pub tags_removed : List Text

unfoldable pub new_deletion_details_for_digest : Text → Text → Text → List Text → DeletionDetails
new_deletion_details_for_digest repository reference digest tags = record {
  repository = repository;
  reference = reference;
  digest = digest;
  manifest_removed = true;
  tags_removed = tags;
}

unfoldable pub new_deletion_details_for_tag : Text → Text → DeletionDetails
new_deletion_details_for_tag repository reference = record {
  repository = repository;
  reference = reference;
  digest = [];
  manifest_removed = false;
  tags_removed = reference ∷ [];
}

pub record RepositoryDeletionDetails : Type 0 where
  pub repository : Text
  pub manifests_removed : ℕ
  pub tags_removed : List Text
