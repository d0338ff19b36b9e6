-- ===== src/MetadataStore/Listings.antt =====
-- Listings of the metadata store (internal/infra/metadata/sqlite/store.go): ORDER BY the name, after
-- a name where one is given, with a LIMIT where it is positive.
use regixtry.Base.{
  ℕ, ℤ, positive, zero, suc, not, ◌&&◌, ◌||◌, ◌==◌, List, [], ◌∷◌, Text, text_eq, text_lt,
  if◌then◌else◌, keep, map, sort_by, Result, ok, err,
}
use regixtry.Errors.{Error}
use regixtry.Strings.{is_nil}
use regixtry.Registry.Digest.{Digest, parse_digest}
use regixtry.Registry.Descriptor.{validate_digest}
use regixtry.Registry.Repository.{RepositoryRef, parse_repository_ref}
use regixtry.Registry.Repository
use regixtry.Storage.Tables.{RepositoryRow, ManifestRow, TagRow}
use regixtry.Storage.State.{Site, M, lift, ◌>>=◌, ◌>>◌, gets, statement}
use regixtry.MetadataStore.Joins.{belongs}

abbrev pub first : {A : Type 0} → ℕ → List A → List A
first zero xs = []
first (suc n) [] = []
first (suc n) (x ∷ xs) = x ∷ first n xs

-- The pages of a list of names.
unfoldable pub page : ℤ → Text → List Text → List Text
unfolding text_lt
page limit after names =
    let rows = sort_by text_lt (keep (λ n. is_nil after || text_lt after n) names) in
    if positive limit == 0 then rows else first (positive limit) rows

-- `rows.Scan` and a parse of each row
abbrev pub scan_each : {A B : Type 0} → (A → Result Error B) → List A → Result Error (List B)
scan_each f [] = ok []
scan_each f (x ∷ xs) = elim (f x) [
  | err e ↦ err e
  | ok y ↦ elim (scan_each f xs) [ err e ↦ err e | ok ys ↦ ok (y ∷ ys) ]
]

-- ports.ReferrerRow
pub record ReferrerRow : Type 0 where
  pub digest : Digest
  pub media_type : Text
  pub size : ℤ
  pub payload : List ℕ

abbrev pub referrer : ManifestRow → Result Error ReferrerRow
referrer m = elim (parse_digest m.digest) [
  | err e ↦ err e
  | ok d ↦ ok (record { digest = d; media_type = m.media_type; size = m.size; payload = m.payload })
]

module _ (site : Site) (tenant : Text) where
  unfoldable pub catalog : ℤ → Text → M (List RepositoryRef)
  unfolding page text_eq parse_repository_ref
  catalog limit after = do
    statement site.env
    names ← gets (λ s. page limit after (
        map (λ (r : RepositoryRow). r.name)
          (keep (λ r. text_eq r.tenant tenant) s.tables.repositories)))
    lift (scan_each parse_repository_ref names)

  unfoldable pub list_tags : RepositoryRef → ℤ → Text → M (List Text)
  unfolding Repository.validate page text_eq belongs
  list_tags repository limit after = do
    lift (Repository.validate repository)
    statement site.env
    gets (λ s. page limit after (
        map (λ (g : TagRow). g.name)
          (keep
            (λ g.
              text_eq g.tenant tenant && belongs tenant repository.name s.tables g.repository_id)
            s.tables.tags)))

  unfoldable pub list_referrers : RepositoryRef → Digest → M (List ReferrerRow)
  unfolding Repository.validate validate_digest text_eq text_lt belongs parse_digest
  list_referrers repository subject = do
    lift (Repository.validate repository)
    lift (validate_digest subject)
    statement site.env
    rows ← gets (λ s.
        sort_by (λ a b. text_lt a.digest b.digest)
          (keep
            (λ m.
              text_eq m.tenant tenant
              && belongs tenant repository.name s.tables m.repository_id
              && text_eq m.subject_digest subject
              && not (is_nil m.subject_digest))
            s.tables.manifests))
    lift (scan_each referrer rows)
