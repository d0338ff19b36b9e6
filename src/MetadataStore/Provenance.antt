-- ===== src/MetadataStore/Provenance.antt =====
-- Who pushed a manifest stays on record (PublishManifest of
-- internal/infra/metadata/sqlite/store.go).
use regixtry.Base.{
  ℕ, Bool, true, false, List, Text, Elem, map, map-Elem, any, if◌then◌else◌, Bool-cases, ◌≡◌, inl,
  inr, refl,
}
use regixtry.Strings.{is_nil}
use regixtry.Registry.Descriptor.{Descriptor}
use regixtry.Registry.Manifest.{Manifest}
use regixtry.Registry.Repository.{RepositoryRef}
use regixtry.Storage.Tables.{Tables, ManifestRow}
use regixtry.Storage.State.{State, World, Site}
use regixtry.MetadataStore.Joins.{is_repository}
use regixtry.MetadataStore.Manifests.{
  insert_repository, is_manifest, updated, upsert_manifest, replace_blobs, is_tag, upsert_tag,
  publish_manifest,
}
use regixtry.MetadataStore.Integrity.Rows.{Elem-left}
use regixtry.MetadataStore.Integrity.Publishing.{per_row-Keeps}
use regixtry.Actions.Keeps.{Keeps, Keeps-bind}
use regixtry.Actions.States.{
  Of, Keeps-puts, Keeps-read, Keeps-lifted, Keeps-when, Keeps-sent, after_sent, after_asked,
}

-- The row is there still: its id, its digest, its pusher and its time of creation.
pub record Remembered (x : ManifestRow) (ms : List ManifestRow) : Type 0 where
  pub row : ManifestRow
  pub there : Elem row ms
  pub id : row.id ≡ x.id
  pub digest : row.digest ≡ x.digest
  pub pushed_by : row.pushed_by ≡ x.pushed_by
  pub created_at : row.created_at ≡ x.created_at

module _ (x : ManifestRow) where
  abbrev Remembers : Tables → Type 0
  Remembers t = Remembered x t.manifests

  insert_repository-Remembers :
      (tenant name : Text) (now : ℕ) (t : Tables)
      → Remembers t
      → Remembers (insert_repository tenant name now t)
  unfolding insert_repository
  insert_repository-Remembers tenant name now t h =
      elim (Bool-cases (any (is_repository tenant name) t.repositories)) [
        | inl e ↦ rw e h
        | inr e ↦ rw e h
      ]

  upsert_manifest-Remembers :
      (tenant : Text) (repository : ℕ) (m : Manifest) (now : ℕ) (t : Tables)
      → Remembers t
      → Remembers (upsert_manifest tenant repository m now t)
  unfolding upsert_manifest
  upsert_manifest-Remembers tenant repository m now t h =
      elim (Bool-cases (any (is_manifest tenant repository m.digest) t.manifests)) [
        | inl e ↦ rw e (touched h)
        | inr e ↦ rw e (record {
          row = h.row;
          there = Elem-left _ t.manifests _ h.there;
          id = h.id;
          digest = h.digest;
          pushed_by = h.pushed_by;
          created_at = h.created_at;
        })
      ]
    where
      put : ManifestRow → ManifestRow
      put row = if is_manifest tenant repository m.digest row then updated m row else row

      touched : Remembers t → Remembered x (map put t.manifests)
      touched h = elim (Bool-cases (is_manifest tenant repository m.digest h.row)) [
        | inl e ↦ record {
          row = put h.row;
          there = map-Elem put h.row t.manifests h.there;
          id = rw e h.id;
          digest = rw e h.digest;
          pushed_by = rw e h.pushed_by;
          created_at = rw e h.created_at;
        }
        | inr e ↦ record {
          row = put h.row;
          there = map-Elem put h.row t.manifests h.there;
          id = rw e h.id;
          digest = rw e h.digest;
          pushed_by = rw e h.pushed_by;
          created_at = rw e h.created_at;
        }
      ]

  replace_blobs-Remembers :
      (manifest : ℕ) (ds : List Descriptor) (t : Tables)
      → Remembers t
      → Remembers (replace_blobs manifest ds t)
  unfolding replace_blobs
  replace_blobs-Remembers manifest ds t h = h

  tag-Remembers :
      (b : Bool) (tenant : Text) (repository : ℕ) (name : Text) (manifest created now : ℕ)
      (t : Tables)
      → Remembers t
      → Remembers (if b then t else upsert_tag tenant repository name manifest created now t)
  unfolding upsert_tag
  tag-Remembers true tenant repository name manifest created now t h = h
  tag-Remembers false tenant repository name manifest created now t h =
      elim (Bool-cases (any (is_tag tenant repository name) t.tags)) [
        | inl e ↦ rw e h
        | inr e ↦ rw e h
      ]

  publish-Remembers :
      (site : Site) (tenant : Text) (repository : RepositoryRef) (tag : Text) (m : Manifest)
      (blobs : List Descriptor)
      → Keeps
          (Of (λ (s : State). Remembers s.tables))
          (publish_manifest site tenant repository tag m blobs)
  unfolding publish_manifest
  publish-Remembers site tenant repository tag m blobs = Keeps-lifted _ _ (λ _ _.
      Keeps-lifted _ _ (λ _ _. Keeps-lifted _ _ (λ _ _. after_sent _ _ (λ _.
        Keeps-read Remembers _ _ (λ s h. h)
          (λ t h. after_asked _ _ (λ now. after_sent _ _ (λ _. after_sent _ _ (λ _.
            Keeps-lifted _ _ (λ key _. after_asked _ _ (λ created. after_sent _ _ (λ _.
              let t1 = insert_repository tenant repository.name now t in
              let t2 = upsert_manifest tenant key m created t1 in
              let h2 =
                upsert_manifest-Remembers tenant key m created t1
                  (insert_repository-Remembers tenant repository.name now t h) in
              after_sent _ _ (λ _. Keeps-lifted _ _ (λ manifest _. after_sent _ _ (λ _.
                Keeps-bind _ _ (per_row-Keeps site blobs) (λ _. after_asked _ _ (λ tagged.
                  after_asked _ _ (λ retagged. Keeps-bind _ _ (Keeps-when _ _ (Keeps-sent _)) (λ _.
                    after_sent _ _ (λ _. Keeps-puts _ (λ s _.
                      tag-Remembers (is_nil tag) tenant key tag manifest tagged retagged
                        (replace_blobs manifest blobs t2)
                        (replace_blobs-Remembers manifest blobs t2 h2)))))))))))))))))))))

-- Publishing never takes over a manifest: a row that was in the table before has its id, its digest,
-- its time of creation and the user who pushed it first afterwards too, whoever publishes what, and
-- whether the publication succeeds or fails.
pub publish_manifest-Remembered :
    (site : Site) (tenant : Text) (repository : RepositoryRef) (tag : Text) (m : Manifest)
    (blobs : List Descriptor) (w : World) (x : ManifestRow)
    → Elem x w.db.tables.manifests
    → Remembered x (publish_manifest site tenant repository tag m blobs w).1.db.tables.manifests
publish_manifest-Remembered site tenant repository tag m blobs w x n =
    ((publish-Remembers x site tenant repository tag m blobs).at w (record {
      holds = record {
        row = x;
        there = n;
        id = refl;
        digest = refl;
        pushed_by = refl;
        created_at = refl;
      };
    })).holds
