-- ===== src/MetadataStore/Manifests.antt =====
-- Publishing and resolving manifests (internal/infra/metadata/sqlite/store.go).
use regixtry.Base.{
  ℕ, suc, Bool, false, not, ◌&&◌, ◌==◌, List, [], ◌∷◌, ◌++◌, Option, none, some, Text, codes,
  text_eq, ltb, if◌then◌else◌, any, find?, keep, map, sort_by, Result, ok, err,
}
use regixtry.Errors.{Error}
use regixtry.Strings.{is_nil}
use regixtry.Registry.Errors.{new_not_found_error}
use regixtry.Registry.Digest.{Digest, parse_digest, digest_from_bytes}
use regixtry.Registry.Descriptor.{Descriptor, validate_digest}
use regixtry.Registry.Manifest.{Manifest, new_manifest, validate_all}
use regixtry.Registry.Manifest
use regixtry.Registry.Repository.{RepositoryRef}
use regixtry.Registry.Repository
use regixtry.Storage.Tables.{Tables, RepositoryRow, ManifestRow, TagRow, BlobRow}
use regixtry.Storage.State.{Site, M, pure, lift, ◌>>=◌, ◌>>◌, gets, puts, ask, statement, when}
use regixtry.MetadataStore.Joins.{is_repository, repository_id, belongs}

-- `INSERT INTO repositories ... ON CONFLICT(tenant, name) DO NOTHING`
unfoldable pub insert_repository : Text → Text → ℕ → Tables → Tables
unfolding is_repository
insert_repository tenant name now t =
    if any (is_repository tenant name) t.repositories then t else record t {
      repositories =
          t.repositories
          ++ record { id = t.next_repository; tenant = tenant; name = name; created_at = now } ∷ [];
      next_repository = suc t.next_repository;
    }

unfoldable pub is_manifest : Text → ℕ → Digest → ManifestRow → Bool
unfolding text_eq
is_manifest tenant repository digest m =
    text_eq m.tenant tenant && (m.repository_id == repository) && text_eq m.digest digest

abbrev pub subject_digest : Option Descriptor → Digest
subject_digest none = []
subject_digest (some d) = d.digest

-- The update of a conflict leaves the id, the time of creation and who pushed.
abbrev pub updated : Manifest → ManifestRow → ManifestRow
updated m row = record row {
  media_type = m.media_type;
  size = m.size;
  payload = m.payload;
  subject_digest = subject_digest m.subject;
}

unfoldable pub upsert_manifest : Text → ℕ → Manifest → ℕ → Tables → Tables
unfolding is_manifest
upsert_manifest tenant repository m now t =
    let same = is_manifest tenant repository m.digest in
    if any same t.manifests
    then record t { manifests = map (λ r. if same r then updated m r else r) t.manifests }
    else record t {
      manifests =
          t.manifests
          ++ record {
            id = t.next_manifest;
            tenant = tenant;
            repository_id = repository;
            digest = m.digest;
            media_type = m.media_type;
            size = m.size;
            payload = m.payload;
            created_at = now;
            pushed_by = m.pushed_by;
            subject_digest = subject_digest m.subject;
          }
            ∷ [];
      next_manifest = suc t.next_manifest;
    }

abbrev pub blob_rows : ℕ → ℕ → List Descriptor → List BlobRow
blob_rows manifest index [] = []
blob_rows manifest index (d ∷ ds) =
    record {
      manifest_id = manifest;
      digest = d.digest;
      media_type = d.media_type;
      size = d.size;
      position = index;
    }
    ∷ blob_rows manifest (suc index) ds

-- The rows of the manifest's blobs are deleted, and inserted anew.
unfoldable pub replace_blobs : ℕ → List Descriptor → Tables → Tables
replace_blobs manifest ds t = record t {
  blobs = keep (λ b. not (b.manifest_id == manifest)) t.blobs ++ blob_rows manifest 0 ds;
}

unfoldable pub is_tag : Text → ℕ → Text → TagRow → Bool
unfolding text_eq
is_tag tenant repository name g =
    text_eq g.tenant tenant && (g.repository_id == repository) && text_eq g.name name

unfoldable pub upsert_tag : Text → ℕ → Text → ℕ → ℕ → ℕ → Tables → Tables
unfolding is_tag
upsert_tag tenant repository name manifest created now t =
    let same = is_tag tenant repository name in
    if any same t.tags
    then record t {
      tags =
          map (λ g. if same g then record g { manifest_id = manifest; updated_at = now } else g)
            t.tags;
    }
    else record t {
      tags =
          t.tags
          ++ record {
            id = t.next_tag;
            tenant = tenant;
            repository_id = repository;
            name = name;
            manifest_id = manifest;
            created_at = created;
            updated_at = now;
          }
            ∷ [];
      next_tag = suc t.next_tag;
    }

-- `QueryRow` on the ids: no row is an error.
abbrev pub scan_id : Option ℕ → Result Error ℕ
scan_id none = err Error.infra
scan_id (some i) = ok i

unfoldable pub manifest_id : Text → ℕ → Digest → Tables → Option ℕ
unfolding is_manifest
manifest_id tenant repository digest t =
    elim (find? (is_manifest tenant repository digest) t.manifests) [
      | none ↦ none
      | some m ↦ some m.id
    ]

module _ (site : Site) where
  abbrev pub per_row : List Descriptor → M (Unit {0})
  per_row [] = pure tt
  per_row (d ∷ ds) = statement site.env >> per_row ds

  module _ (tenant : Text) (repository : RepositoryRef) where
    -- `t` is what the transaction has written so far.
    unfoldable pub publish_manifest : Text → Manifest → List Descriptor → M (Unit {0})
    unfolding Repository.validate Manifest.validate validate_all insert_repository repository_id
        upsert_manifest manifest_id replace_blobs upsert_tag
    publish_manifest tag manifest blobs = do
      lift (Repository.validate repository)
      lift (Manifest.validate site.sha256 manifest)
      lift (validate_all blobs)
      statement site.env
      t ← gets (λ s. s.tables)
      now ← ask site.env.now
      statement site.env
      let t1 = insert_repository tenant repository.name now t
      statement site.env
      repository_key ← lift (scan_id (repository_id tenant repository.name t1))
      created ← ask site.env.now
      statement site.env
      let t2 = upsert_manifest tenant repository_key manifest created t1
      statement site.env
      manifest_key ← lift (scan_id (manifest_id tenant repository_key manifest.digest t2))
      statement site.env
      per_row blobs
      let t3 = replace_blobs manifest_key blobs t2
      tagged ← ask site.env.now
      retagged ← ask site.env.now
      when (not (is_nil tag)) (statement site.env)
      let t4 =
          if is_nil tag
          then t3
          else upsert_tag tenant repository_key tag manifest_key tagged retagged t3
      statement site.env
      puts (λ s. record s { tables = t4 })

    abbrev pub descriptor_of : BlobRow → Descriptor
    descriptor_of b = record { media_type = b.media_type; digest = b.digest; size = b.size }

    -- The rows as descriptors; each digest is parsed.
    abbrev pub scan_descriptors : List BlobRow → Result Error (List Descriptor)
    scan_descriptors [] = ok []
    scan_descriptors (b ∷ bs) = elim (parse_digest b.digest) [
      | err e ↦ err e
      | ok d ↦ elim (scan_descriptors bs) [
        | err e ↦ err e
        | ok ds ↦ ok (record (descriptor_of b) { digest = d } ∷ ds)
      ]
    ]

    -- `JOIN manifests m ON m.id = mb.manifest_id JOIN repositories r ...`, by position
    unfoldable pub joined_blobs : Digest → Tables → List BlobRow
    unfolding belongs text_eq
    joined_blobs digest t =
        sort_by (λ a b. ltb a.position b.position)
          (keep
            (λ b.
              any
                (λ m.
                  (m.id == b.manifest_id)
                  && text_eq m.tenant tenant
                  && belongs tenant repository.name t m.repository_id
                  && text_eq m.digest digest)
                t.manifests)
            t.blobs)

    unfoldable pub list_manifest_blobs : Digest → M (List Descriptor)
    unfolding Repository.validate validate_digest joined_blobs parse_digest
    list_manifest_blobs digest = do
      lift (Repository.validate repository)
      lift (validate_digest digest)
      statement site.env
      rows ← gets (λ s. joined_blobs digest s.tables)
      lift (scan_descriptors rows)

    -- `m.id = (SELECT t.manifest_id FROM tags t WHERE t.tenant = ? AND t.repository_id = r.id ...)`
    abbrev is_tagged : Text → List TagRow → RepositoryRow → ManifestRow → Bool
    is_tagged name tags r m = elim (find? (is_tag tenant r.id name) tags) [
      | none ↦ false
      | some g ↦ g.manifest_id == m.id
    ]

    abbrev pub refers : Result Error Digest → Text → Tables → RepositoryRow → ManifestRow → Bool
    refers (ok d) reference t r m = text_eq m.digest reference
    refers (err e) reference t r m = is_tagged reference t.tags r m

    -- The first manifest of the repository that the reference names.
    unfoldable pub resolved_row : Text → Tables → Option ManifestRow
    unfolding text_eq is_repository is_tag parse_digest
    resolved_row reference t =
        find?
          (λ m.
            text_eq m.tenant tenant
            && any
                (λ r.
                  (r.id == m.repository_id)
                  && is_repository tenant repository.name r
                  && refers (parse_digest reference) reference t r m)
                t.repositories)
          t.manifests

    abbrev pub scan_manifest : Text → Option ManifestRow → Result Error ManifestRow
    scan_manifest reference none = err (new_not_found_error (codes "manifest") reference)
    scan_manifest reference (some m) = ok m

    unfoldable pub resolve_manifest : Text → M Manifest
    unfolding Repository.validate resolved_row list_manifest_blobs digest_from_bytes new_manifest
    resolve_manifest reference = do
      lift (Repository.validate repository)
      statement site.env
      row ← gets (λ s. resolved_row reference s.tables)
      m ← lift (scan_manifest reference row)
      references ← list_manifest_blobs (digest_from_bytes site.sha256 m.payload)
      manifest ← lift (new_manifest site.sha256 m.media_type [] m.payload none references none [])
      pure (record manifest { pushed_by = m.pushed_by })
