-- ===== src/MetadataStore/Joins.antt =====
-- The joins and the cascades of the metadata store (internal/infra/metadata/sqlite/store.go).
use regixtry.Base.{
  ℕ, Bool, false, not, ◌&&◌, ◌==◌, Option, none, some, Text, text_eq, any, find?, keep,
}
use regixtry.Storage.Tables.{Tables, RepositoryRow, ManifestRow}

-- `WHERE tenant = ? AND name = ?`
unfoldable pub is_repository : Text → Text → RepositoryRow → Bool
unfolding text_eq
is_repository tenant name r = text_eq r.tenant tenant && text_eq r.name name

-- `SELECT id FROM repositories WHERE tenant = ? AND name = ?`
unfoldable pub repository_id : Text → Text → Tables → Option ℕ
unfolding is_repository
repository_id tenant name t = elim (find? (is_repository tenant name) t.repositories) [
  | none ↦ none
  | some r ↦ some r.id
]

-- `JOIN repositories r ON r.id = ? WHERE r.tenant = ? AND r.name = ?`
unfoldable pub belongs : Text → Text → Tables → ℕ → Bool
unfolding is_repository
belongs tenant name t id = any (λ r. (r.id == id) && is_repository tenant name r) t.repositories

-- `WHERE repository_id = (SELECT id ...)`: no row where the query gives none
abbrev pub is_id : Option ℕ → ℕ → Bool
is_id none id = false
is_id (some i) id = i == id

-- ON DELETE CASCADE, from the manifests that go to their tags and to the rows of their blobs
unfoldable pub drop_manifests : (ManifestRow → Bool) → Tables → Tables
drop_manifests gone t = record t {
  manifests = keep (λ m. not (gone m)) t.manifests;
  tags = keep (λ g. not (any (λ m. gone m && (m.id == g.manifest_id)) t.manifests)) t.tags;
  blobs = keep (λ b. not (any (λ m. gone m && (m.id == b.manifest_id)) t.manifests)) t.blobs;
}

-- and from the repositories that go to their manifests and tags
unfoldable pub drop_repositories : (RepositoryRow → Bool) → Tables → Tables
unfolding drop_manifests
drop_repositories gone t =
    let kept =
      drop_manifests (λ m. any (λ r. gone r && (r.id == m.repository_id)) t.repositories) t in
    record kept {
      repositories = keep (λ r. not (gone r)) t.repositories;
      tags =
          keep (λ g. not (any (λ r. gone r && (r.id == g.repository_id)) t.repositories)) kept.tags;
    }
