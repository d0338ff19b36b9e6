-- ===== src/RegistryService/Referrers.antt =====
-- Referrers of a manifest, summaries and uploads (internal/app/regixtry/queries.go).
pub mod Matching
use regixtry.Base.{
  ℕ, ℤ, Bool, true, false, not, ◌&&◌, List, [], ◌∷◌, Option, none, some, Text, codes, text_eq,
  if◌then◌else◌, keep, map, Result, ok, err,
}
use regixtry.Base
use regixtry.Errors.{Error}
use regixtry.Strings.{is_nil, trim_space}
use regixtry.Registry.Digest.{Digest, parse_digest}
use regixtry.Registry.Manifest.{Manifest, Annotations}
use regixtry.Registry.Repository.{RepositoryRef}
use regixtry.Access.{ActionVerb}
use regixtry.Auth.Principal.{has_catalog_access}
use regixtry.MetadataStore.Listings.{ReferrerRow, list_referrers}
use regixtry.MetadataStore.Summaries.{
  RepositorySummary, list_repositories_with_summary, list_uploads,
}
use regixtry.Storage.State.{Site, Request, M, pure, lift, ◌>>=◌, ◌>>◌}
use regixtry.RegistryService.Payloads.{parse_repository, parse_manifest_payload}
use regixtry.RegistryService.Requests.{authorize, UploadDetails, new_upload_details}
use regixtry.RegistryService.Queries.{is_listed}

pub record ReferrerDescriptor : Type 0 where
  pub media_type : Text
  pub digest : Text
  pub size : ℤ
  pub artifact_type : Text
  pub annotations : Annotations

-- resolveArtifactType
unfoldable pub resolve_artifact_type : Manifest → Text
resolve_artifact_type m =
    if is_nil m.artifact_type
    then elim m.config [ none ↦ [] | some d ↦ d.media_type ]
    else m.artifact_type

abbrev pub referrer_of : ReferrerRow → Manifest → ReferrerDescriptor
referrer_of row m = record {
  media_type = row.media_type;
  digest = row.digest;
  size = row.size;
  artifact_type = resolve_artifact_type m;
  annotations = m.annotations;
}

abbrev pub is_skipped : Text → Manifest → Bool
is_skipped wanted m = not (is_nil wanted) && not (text_eq (resolve_artifact_type m) wanted)

abbrev pub add_referrer :
    Text
    → ReferrerRow
    → Manifest
    → Result Error (List ReferrerDescriptor)
    → Result Error (List ReferrerDescriptor)
add_referrer wanted row m rest =
    if is_skipped wanted m then rest else Base.◌>>=◌ rest (λ ds. ok (referrer_of row m ∷ ds))

-- The loop of Referrers: each payload is parsed again, against the digest of its row.
unfoldable pub matching : Site → Text → List ReferrerRow → Result Error (List ReferrerDescriptor)
unfolding parse_manifest_payload resolve_artifact_type text_eq
matching site wanted [] = ok []
matching site wanted (row ∷ rows) =
    let rest = matching site wanted rows in
    Base.◌>>=◌ (parse_manifest_payload site row.digest row.media_type row.payload)
      (λ r. add_referrer wanted row r.0 rest)

module _ (site : Site) (req : Request) where
  -- The manifests of the index; its schema version and media type are constants.
  unfoldable pub referrers : Text → Text → Text → M (List ReferrerDescriptor)
  unfolding parse_repository authorize parse_digest list_referrers trim_space matching
  referrers repository_name subject_digest artifact_type = do
    repository ← lift (parse_repository repository_name)
    authorize site req ActionVerb.inspect repository.name
    digest ← lift (parse_digest subject_digest)
    rows ← list_referrers site req.tenant repository digest
    lift (matching site (trim_space artifact_type) rows)

  unfoldable pub repository_summaries : ℤ → Text → M (List RepositorySummary)
  unfolding authorize list_repositories_with_summary has_catalog_access
  repository_summaries limit after = do
    authorize site req ActionVerb.catalog []
    summaries ← list_repositories_with_summary site req.tenant limit after
    pure (keep (λ r. is_listed req.principal r.name) summaries)

  abbrev asked_repository : Text → M (Option RepositoryRef)
  asked_repository name =
      if is_nil name
      then authorize site req ActionVerb.inspect [] >> pure none
      else (lift (parse_repository name) >>= λ r.
          authorize site req ActionVerb.inspect r.name >> pure (some r))

  unfoldable pub uploads : Text → M (List UploadDetails)
  unfolding parse_repository authorize list_uploads new_upload_details
  uploads repository_name = do
    repository ← asked_repository repository_name
    found ← list_uploads site req.tenant repository
    pure (map new_upload_details found)
