-- ===== src/MetadataStore/Summaries.antt =====
-- Listings with more than names (internal/infra/metadata/sqlite/store.go): uploads, tags with the
-- creation of their manifests, repositories with their tags. MAX and ORDER BY compare the stored
-- texts of times.
use regixtry.Base.{
  ℕ, ℤ, positive, Bool, true, ◌&&◌, ◌||◌, ◌==◌, List, [], ◌∷◌, Option, none, some, Text, text_eq,
  text_lt, if◌then◌else◌, any, find?, keep, map, sort_by, length, Result, ok, err,
}
use regixtry.Errors.{Error}
use regixtry.Strings.{is_nil}
use regixtry.Registry.Repository.{RepositoryRef, parse_repository_ref}
use regixtry.Registry.Repository
use regixtry.Registry.Upload.{UploadState}
use regixtry.Storage.Tables.{Tables, RepositoryRow, ManifestRow, TagRow, UploadRow}
use regixtry.Storage.State.{Site, M, lift, ◌>>=◌, ◌>>◌, gets, statement}
use regixtry.MetadataStore.Joins.{belongs}
use regixtry.MetadataStore.Listings.{first, scan_each}

-- ports.TagSummary and ports.RepositorySummary
pub record TagSummary : Type 0 where
  pub name : Text
  pub created_at : ℕ
  pub pushed_by : Text

pub record RepositorySummary : Type 0 where
  pub name : Text
  pub tag_count : ℕ
  pub last_pushed : ℕ

-- `AND repository = ?`, where one is given
abbrev of_repository : Option RepositoryRef → UploadRow → Bool
of_repository none r = true
of_repository (some ref) r = text_eq r.upload.repository.name ref.name

abbrev scan_upload : UploadRow → Result Error UploadState
scan_upload r = elim (parse_repository_ref r.upload.repository.name) [
  | err e ↦ err e
  | ok ref ↦ ok (record r.upload { repository = ref })
]

-- The rows of a query, up to its LIMIT where that is positive.
abbrev pub limited : {A : Type 0} → ℤ → List A → List A
limited limit rows = if positive limit == 0 then rows else first (positive limit) rows

-- `JOIN manifests m ON m.id = t.manifest_id`: the ids of manifests are unique
unfoldable pub with_manifests : List ManifestRow → List TagRow → List TagSummary
with_manifests ms [] = []
with_manifests ms (g ∷ gs) =
    let rest = with_manifests ms gs in
    elim (find? (λ m. m.id == g.manifest_id) ms) [
      | none ↦ rest
      | some m ↦ record { name = g.name; created_at = m.created_at; pushed_by = m.pushed_by } ∷ rest
    ]

module _ (site : Site) (tenant : Text) where
  unfoldable pub list_uploads : Option RepositoryRef → M (List UploadState)
  unfolding text_eq parse_repository_ref
  list_uploads repository = do
    statement site.env
    rows ← gets (λ s.
        sort_by (λ (a b : UploadRow). site.env.collate_time a.upload.started_at b.upload.started_at)
          (keep (λ r. text_eq r.tenant tenant && of_repository repository r) s.tables.uploads))
    lift (scan_each scan_upload rows)

  unfoldable pub list_tags_with_created_at : RepositoryRef → ℤ → Text → M (List TagSummary)
  unfolding Repository.validate text_eq text_lt belongs with_manifests
  list_tags_with_created_at repository limit after = do
    lift (Repository.validate repository)
    statement site.env
    gets (λ s. limited limit (
        sort_by (λ (a b : TagSummary). text_lt a.name b.name)
          (with_manifests s.tables.manifests (
            keep
              (λ g.
                text_eq g.tenant tenant
                && belongs tenant repository.name s.tables g.repository_id
                && (is_nil after || text_lt after g.name))
              s.tables.tags))))

  -- MAX: 0, the zero time, where there is none
  abbrev latest : List ManifestRow → ℕ
  latest [] = 0
  latest (m ∷ []) = m.created_at
  latest (m ∷ n ∷ ms) =
      let rest = latest (n ∷ ms) in
      if site.env.collate_time m.created_at rest then rest else m.created_at

  abbrev summary : Tables → RepositoryRow → RepositorySummary
  summary t r =
      let tags = keep (λ g. (g.repository_id == r.id) && text_eq g.tenant r.tenant) t.tags in
      record {
        name = r.name;
        tag_count = length tags;
        last_pushed =
            latest (keep (λ m. any (λ (g : TagRow). m.id == g.manifest_id) tags) t.manifests);
      }

  unfoldable pub list_repositories_with_summary : ℤ → Text → M (List RepositorySummary)
  unfolding text_eq text_lt
  list_repositories_with_summary limit after = do
    statement site.env
    gets (λ s. limited limit (
        sort_by (λ (a b : RepositorySummary). text_lt a.name b.name)
          (map (summary s.tables) (
            keep (λ r. text_eq r.tenant tenant && (is_nil after || text_lt after r.name))
              s.tables.repositories))))
