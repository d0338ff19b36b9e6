-- ===== src/Examples/Listings.antt =====
-- Pages of tags and of repositories.
use regixtry.Base.{ℕ, pos, [], ◌∷◌, map, Text, codes, ◌≡◌, refl, ok}
use regixtry.Registry.Repository.{RepositoryRef}
use regixtry.Storage.Tables.{RepositoryRow, TagRow}
use regixtry.Storage.State.{
  World, Site, ◌>>=◌, statement, gets, ask, ask?, reject, puts, pure, lift, try,
}
use regixtry.MetadataStore.Listings.{list_tags, catalog}
use regixtry.MetadataStore.Pages.{
  IsPage, IsTagName, IsRepositoryName, list_tags-IsPage, catalog-IsPage,
}
use regixtry.Examples.Blobs.{registry_site, no_tables}
use regixtry.Base.{none}

abbrev hub : Site
hub = registry_site (λ bs. none)

abbrev repository : ℕ → Text → Text → RepositoryRow
repository id tenant name = record { id = id; tenant = tenant; name = name; created_at = 4 }

abbrev tag : ℕ → Text → TagRow
tag id name = record {
  id = id;
  tenant = codes "main";
  repository_id = 1;
  name = name;
  manifest_id = 1;
  created_at = 4;
  updated_at = 4;
}

-- Two repositories of the tenant and one of another; three tags.
abbrev shelves : World
shelves = record {
  db = record {
    files = [];
    tables = record no_tables {
      repositories =
          repository 1 (codes "main") (codes "web")
          ∷ repository 2 (codes "main") (codes "app")
          ∷ repository 3 (codes "lab") (codes "api")
          ∷ [];
      tags = tag 1 (codes "v3") ∷ tag 2 (codes "v1") ∷ tag 3 (codes "v2") ∷ [];
    };
    in_flight = 0;
    scans = [];
  };
  tick = 0;
}

abbrev web : RepositoryRef
web = record { name = codes "web" }

lists_tags :
    (list_tags hub (codes "main") web (pos 1) (codes "v1") shelves).0 ≡ ok (codes "v2" ∷ [])
unfolding list_tags ◌>>=◌ statement gets ask ask? reject puts pure lift try
lists_tags = refl

list_tags-IsPage_example :
    IsPage
      (IsTagName shelves.db.tables (codes "main") (codes "web"))
      (pos 1)
      (codes "v1")
      (codes "v2" ∷ [])
list_tags-IsPage_example =
    list_tags-IsPage hub (codes "main") web (pos 1) (codes "v1") shelves (codes "v2" ∷ [])
      lists_tags

lists_repositories :
    (catalog hub (codes "main") (pos 0) [] shelves).0
    ≡ ok (record { name = codes "app" } ∷ web ∷ [])
unfolding catalog ◌>>=◌ statement gets ask ask? reject puts pure lift try
lists_repositories = refl

catalog-IsPage_example :
    IsPage
      (IsRepositoryName shelves.db.tables (codes "main"))
      (pos 0)
      []
      (map (λ (r : RepositoryRef). r.name) (record { name = codes "app" } ∷ web ∷ []))
catalog-IsPage_example =
    catalog-IsPage hub (codes "main") (pos 0) [] shelves (record { name = codes "app" } ∷ web ∷ [])
      lists_repositories
