-- ===== src/Examples/Pushes.antt =====
-- A push of a manifest with one layer, and what follows from it.
use regixtry.Base.{pos, ◌<◌, [], ◌∷◌, none, some, codes, ◌≡◌, inl, refl, All, ok, arith}
use regixtry.Registry.Digest.{Digest, parse_digest, digest_from_bytes}
use regixtry.Registry.Descriptor.{Descriptor}
use regixtry.Registry.Manifest.{Manifest, new_manifest, validate}
use regixtry.Registry.Manifest.Validity.{new_manifest-IsValid}
use regixtry.Registry.Repository.{RepositoryRef}
use regixtry.Storage.State.{
  World, Site, ManifestEnvelope, ◌>>=◌, statement, gets, ask, ask?, reject, puts, pure, lift, try,
}
use regixtry.MetadataStore.Manifests as Rows
use regixtry.MetadataStore.Deletions as Deletions
use regixtry.Storage.Tables.{ManifestRow, RepositoryRow}
use regixtry.RegistryService.Referrers.{ReferrerDescriptor, referrers}
use regixtry.RegistryService.Referrers.Matching.{IsReferrer, referrers-IsReferrer}
use regixtry.MetadataStore.Provenance.{Remembered, publish_manifest-Remembered}
use regixtry.MetadataStore.Resolution.{resolve_manifest-hash}
use regixtry.MetadataStore.Integrity.Rows.{IsIntegral}
use regixtry.MetadataStore.Integrity.Publishing.{publish_manifest-Integral}
use regixtry.MetadataStore.Integrity.Deleting.{delete_manifest-Integral, delete_repository-Integral}
use regixtry.RegistryService.Requests.{ManifestDetails, BlobDetails}
use regixtry.RegistryService.Manifests.{publish_manifest}
use regixtry.RegistryService.Manifests.Complete.{Complete, publish_manifest-HasBlob}
use regixtry.Actions.Keeps.{Keeps}
use regixtry.Actions.States.{Of}
use regixtry.Examples.Blobs.{registry_site, request, blob_digest, blob_file, no_tables}

abbrev layer : Descriptor
layer = record { media_type = codes "layer"; digest = blob_digest; size = pos 2 }

abbrev envelope : ManifestEnvelope
envelope = record {
  media_type = codes "image";
  artifact_type = [];
  config = none;
  layers = record { media_type = codes "layer"; digest = blob_digest; size = pos 2 } ∷ [];
  subject = none;
  annotations = [];
}

abbrev hub : Site
hub = registry_site (λ bs. some envelope)

abbrev app : RepositoryRef
app = record { name = codes "app" }

abbrev ready : World
ready = record {
  db = record { files = blob_file ∷ []; tables = no_tables; in_flight = 0; scans = [] };
  tick = 0;
}

abbrev manifest_digest : Digest
manifest_digest = codes "sha256:0100000000000000000000000000000000000000000000000000000000000000"

abbrev image : Manifest
image = record {
  media_type = codes "image";
  digest = manifest_digest;
  size = pos 1;
  payload = 9 ∷ [];
  subject = none;
  config = none;
  layers = layer ∷ [];
  annotations = [];
  artifact_type = [];
  pushed_by = [];
}

abbrev shown_layer : BlobDetails
shown_layer = record {
  repository = codes "app";
  media_type = codes "layer";
  digest = blob_digest;
  size = pos 2;
}

abbrev answer : ManifestDetails
answer = record {
  repository = codes "app";
  reference = codes "v1";
  media_type = codes "image";
  digest = manifest_digest;
  size = pos 1;
  annotations = [];
  blobs = shown_layer ∷ [];
}

pushes : (publish_manifest hub request (codes "app") (codes "v1") [] (9 ∷ []) ready).0 ≡ ok answer
unfolding publish_manifest ◌>>=◌ statement gets ask ask? reject puts pure lift try
pushes = refl

publish_manifest-HasBlob_example :
    Complete hub
      (blob_file ∷ [])
      (publish_manifest hub request (codes "app") (codes "v1") [] (9 ∷ []) ready).1.db.files
      (9 ∷ [])
      answer
publish_manifest-HasBlob_example =
    publish_manifest-HasBlob hub request (codes "app") (codes "v1") [] (9 ∷ []) ready answer pushes

publish_manifest-Integral_example :
    Keeps
      (Of (IsIntegral hub.sha256))
      (Rows.publish_manifest hub (codes "main") app (codes "v1") image (layer ∷ []))
publish_manifest-Integral_example =
    publish_manifest-Integral hub (codes "main") app (codes "v1") image (layer ∷ [])

delete_manifest-Integral_example :
    Keeps
      (Of (IsIntegral hub.sha256))
      (Deletions.delete_manifest_by_digest hub (codes "main") app manifest_digest)
delete_manifest-Integral_example = delete_manifest-Integral hub (codes "main") app manifest_digest

delete_repository-Integral_example :
    Keeps (Of (IsIntegral hub.sha256)) (Deletions.delete_repository hub (codes "main") app)
delete_repository-Integral_example = delete_repository-Integral hub (codes "main") app

abbrev published : World
published = (Rows.publish_manifest hub (codes "main") app (codes "v1") image (layer ∷ []) ready).1

none-Integral : IsIntegral hub.sha256 ready.db
none-Integral = record {
  owned = λ m n. absurd n;
  hashed = λ m n. absurd n;
  tagged = λ g n. absurd n;
  placed = λ g n. absurd n;
  listed = λ b n. absurd n;
}

published-Integral : IsIntegral hub.sha256 published.db
published-Integral =
    (publish_manifest-Integral_run.at ready (record { holds = none-Integral })).holds
  where
    publish_manifest-Integral_run :
        Keeps
          (Of (IsIntegral hub.sha256))
          (Rows.publish_manifest hub (codes "main") app (codes "v1") image (layer ∷ []))
    publish_manifest-Integral_run =
        publish_manifest-Integral hub (codes "main") app (codes "v1") image (layer ∷ [])

resolves : (Rows.resolve_manifest hub (codes "main") app manifest_digest published).0 ≡ ok image
unfolding Rows.resolve_manifest Rows.publish_manifest ◌>>=◌ statement gets ask ask? reject puts pure
    lift try
resolves = refl

parses : parse_digest manifest_digest ≡ ok manifest_digest
unfolding parse_digest
parses = refl

resolve_manifest-hash_example :
    (image.digest ≡ manifest_digest) × (digest_from_bytes hub.sha256 (9 ∷ []) ≡ manifest_digest)
resolve_manifest-hash_example =
    resolve_manifest-hash hub (codes "main") app manifest_digest manifest_digest published image
      published-Integral parses resolves

built : new_manifest hub.sha256 (codes "image") [] (9 ∷ []) none (layer ∷ []) none [] ≡ ok image
unfolding new_manifest
built = refl

new_manifest-IsValid_example :
    (validate hub.sha256 image ≡ ok tt)
    × (image.media_type ≡ codes "image")
    × (image.artifact_type ≡ [])
    × (image.payload ≡ 9 ∷ [])
    × (image.config ≡ none)
    × (image.layers ≡ layer ∷ [])
    × (image.subject ≡ none)
    × (image.annotations ≡ [])
    × (image.digest ≡ digest_from_bytes hub.sha256 (9 ∷ []))
    × (image.size ≡ pos 1)
    × (image.pushed_by ≡ [])
new_manifest-IsValid_example =
    new_manifest-IsValid hub.sha256 (codes "image") [] (9 ∷ []) none (layer ∷ []) none [] image
      built refl bytes
  where
    bytes : All (λ x. x < 256) (hub.sha256 (9 ∷ []))
    bytes = ground arith

abbrev first_row : ManifestRow
first_row = record {
  id = 1;
  tenant = codes "main";
  repository_id = 1;
  digest = manifest_digest;
  media_type = codes "image";
  size = pos 1;
  payload = 9 ∷ [];
  created_at = 5;
  pushed_by = codes "alice";
  subject_digest = [];
}

abbrev pushed_once : World
pushed_once = record ready {
  db = record ready.db {
    tables = record no_tables { manifests = first_row ∷ []; next_manifest = 2 };
  };
}

publish_manifest-Remembered_example :
    Remembered first_row
      (Rows.publish_manifest hub
        (codes "main")
        app
        (codes "v1")
        (record image { pushed_by = codes "mallory" })
        (layer ∷ [])
        pushed_once).1.db.tables.manifests
publish_manifest-Remembered_example =
    publish_manifest-Remembered hub (codes "main") app (codes "v1")
      (record image { pushed_by = codes "mallory" }) (layer ∷ []) pushed_once first_row (inl refl)

abbrev signature_row : ManifestRow
signature_row = record first_row { subject_digest = blob_digest }

abbrev app_row : RepositoryRow
app_row = record { id = 1; tenant = codes "main"; name = codes "app"; created_at = 4 }

abbrev signed : World
signed = record ready {
  db = record ready.db {
    tables = record no_tables { repositories = app_row ∷ []; manifests = signature_row ∷ [] };
  };
}

abbrev signature : ReferrerDescriptor
signature = record {
  media_type = codes "image";
  digest = manifest_digest;
  size = pos 1;
  artifact_type = [];
  annotations = [];
}

refers : (referrers hub request (codes "app") blob_digest [] signed).0 ≡ ok (signature ∷ [])
unfolding referrers ◌>>=◌ statement gets ask ask? reject puts pure lift try
refers = refl

referrers-IsReferrer_example : IsReferrer hub request signed.db.tables blob_digest [] signature
referrers-IsReferrer_example =
    referrers-IsReferrer hub request (codes "app") blob_digest [] signed (signature ∷ []) signature
      refers (inl refl)
