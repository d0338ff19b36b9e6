-- ===== src/MetadataStore/Deletions.antt =====
-- Deleting manifests, repositories and tags (internal/infra/metadata/sqlite/store.go). The names of
-- the tags are read in the same transaction, before the deletion cascades to them.
use regixtry.Base.{
  ℕ, Bool, not, ◌&&◌, ◌==◌, List, Option, Text, codes, text_eq, text_lt, any, keep, map, sort_by,
  length,
}
use regixtry.Registry.Errors.{new_not_found_error}
use regixtry.Registry.Digest.{Digest}
use regixtry.Registry.Descriptor.{validate_digest}
use regixtry.Registry.Repository.{RepositoryRef}
use regixtry.Registry.Repository
use regixtry.Storage.Tables.{Tables, ManifestRow, TagRow}
use regixtry.Storage.State.{Site, M, pure, lift, ◌>>=◌, ◌>>◌, reject, gets, puts, statement}
use regixtry.MetadataStore.Joins.{
  is_repository, repository_id, belongs, is_id, drop_manifests, drop_repositories,
}

abbrev pub sorted_names : List TagRow → List Text
sorted_names tags = sort_by text_lt (map (λ (g : TagRow). g.name) tags)

module _ (site : Site) (tenant : Text) (repository : RepositoryRef) where
  unfoldable pub tags_of_manifest : Digest → Tables → List TagRow
  unfolding belongs text_eq
  tags_of_manifest digest t =
      keep
        (λ g.
          any
            (λ m.
              (m.id == g.manifest_id)
              && text_eq m.tenant tenant
              && belongs tenant repository.name t m.repository_id
              && text_eq m.digest digest)
            t.manifests)
        t.tags

  -- `WHERE tenant = ? AND digest = ? AND repository_id = (SELECT id ...)`
  unfoldable pub is_deleted : Digest → Tables → ManifestRow → Bool
  unfolding text_eq repository_id
  is_deleted digest t m =
      text_eq m.tenant tenant
      && text_eq m.digest digest
      && is_id (repository_id tenant repository.name t) m.repository_id

  unfoldable pub delete_manifest_by_digest : Digest → M (List Text)
  unfolding Repository.validate validate_digest tags_of_manifest is_deleted drop_manifests text_lt
  delete_manifest_by_digest digest = do
    lift (Repository.validate repository)
    lift (validate_digest digest)
    statement site.env
    t ← gets (λ s. s.tables)
    statement site.env
    statement site.env
    let gone = is_deleted digest t
    reject (not (any gone t.manifests)) (new_not_found_error (codes "manifest") digest)
    statement site.env
    puts (λ s. record s { tables = drop_manifests gone t })
    pure (sorted_names (tags_of_manifest digest t))

  unfoldable pub delete_repository : M (List Text × ℕ)
  unfolding Repository.validate belongs text_eq is_repository drop_repositories text_lt
  delete_repository = do
    lift (Repository.validate repository)
    statement site.env
    t ← gets (λ s. s.tables)
    statement site.env
    let tags =
        keep (λ g. text_eq g.tenant tenant && belongs tenant repository.name t g.repository_id)
          t.tags
    statement site.env
    let manifests =
        keep (λ m. text_eq m.tenant tenant && belongs tenant repository.name t m.repository_id)
          t.manifests
    statement site.env
    let gone = is_repository tenant repository.name
    reject (not (any gone t.repositories))
        (new_not_found_error (codes "repository") repository.name)
    statement site.env
    puts (λ s. record s { tables = drop_repositories gone t })
    pure (sorted_names tags, length manifests)

  abbrev is_tag_of : Option ℕ → Text → TagRow → Bool
  is_tag_of id name g = text_eq g.tenant tenant && text_eq g.name name && is_id id g.repository_id

  unfoldable pub delete_tag : Text → M (Unit {0})
  unfolding Repository.validate repository_id text_eq
  delete_tag tag = do
    lift (Repository.validate repository)
    statement site.env
    t ← gets (λ s. s.tables)
    let gone = is_tag_of (repository_id tenant repository.name t) tag
    puts (λ s. record s { tables = record t { tags = keep (λ g. not (gone g)) t.tags } })
    reject (not (any gone t.tags)) (new_not_found_error (codes "tag") tag)
