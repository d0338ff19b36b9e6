-- ===== src/MetadataStore/Integrity/Publishing.antt =====
-- Publishing a manifest keeps the tables integral (PublishManifest of
-- internal/infra/metadata/sqlite/store.go).
use regixtry.Base.{
  ℕ, suc, Bool, true, false, List, [], ◌∷◌, ◌++◌, Option, none, some, Text, text_eq_iff, Elem,
  Elem-map, map-Elem, Elem-keep, find?, find?-Elem, any, map, Bool-cases, if◌then◌else◌, ◌≡◌, inl,
  inr, refl, sym, ◌∙◌, ap, arith, ok,
}
use regixtry.Strings.{is_nil}
use regixtry.Registry.Digest.{Digest, digest_from_bytes}
use regixtry.Registry.Descriptor.{Descriptor}
use regixtry.Registry.Manifest.{Manifest}
use regixtry.Registry.Manifest.Validity.{validate-digest}
use regixtry.Registry.Repository.{RepositoryRef}
use regixtry.Storage.Tables.{Tables, RepositoryRow, ManifestRow, TagRow, BlobRow}
use regixtry.Storage.State.{State, Site}
use regixtry.MetadataStore.Joins.{is_repository, repository_id}
use regixtry.MetadataStore.Manifests.{
  insert_repository, is_manifest, updated, upsert_manifest, blob_rows, replace_blobs, is_tag,
  upsert_tag, scan_id, manifest_id, per_row, publish_manifest,
}
use regixtry.MetadataStore.Integrity.Rows.{
  HasRepository, HasManifest, Integral, IsIntegral, append-Elem, Elem-left,
}
use regixtry.Actions.Keeps.{Keeps, Keeps-bind, Keeps-pure}
use regixtry.Actions.States.{
  Of, Keeps-puts, Keeps-read, Keeps-lifted, Keeps-when, Keeps-sent, after_sent, after_asked,
}

repository_id-Row :
    (tenant name : Text) (t : Tables) {id : ℕ}
    → repository_id tenant name t ≡ some id
    → HasRepository t.repositories id
unfolding repository_id
repository_id-Row tenant name t {id} e =
    from (find? (is_repository tenant name) t.repositories) refl e
  where
    from :
        (o : Option RepositoryRow)
        → find? (is_repository tenant name) t.repositories ≡ o
        → (elim o [ none ↦ none | some r ↦ some r.id ]) ≡ some id
        → HasRepository t.repositories id
    from none q e = cc e
    from (some r) q e = (r, (find?-Elem _ t.repositories q).0, cc e)

manifest_id-Row :
    (tenant : Text) (repository : ℕ) (digest : Digest) (t : Tables) {id : ℕ}
    → manifest_id tenant repository digest t ≡ some id
    → HasManifest t.manifests id
unfolding manifest_id
manifest_id-Row tenant repository digest t {id} e =
    from (find? (is_manifest tenant repository digest) t.manifests) refl e
  where
    from :
        (o : Option ManifestRow)
        → find? (is_manifest tenant repository digest) t.manifests ≡ o
        → (elim o [ none ↦ none | some r ↦ some r.id ]) ≡ some id
        → HasManifest t.manifests id
    from none q e = cc e
    from (some m) q e = (m, (find?-Elem _ t.manifests q).0, cc e)

manifest_digest :
    (tenant : Text) (repository : ℕ) (digest : Digest) (row : ManifestRow)
    → is_manifest tenant repository digest row ≡ true
    → row.digest ≡ digest
unfolding is_manifest
manifest_digest tenant repository digest row e = ground (arith, text_eq_iff row.digest digest)

module _ (sha256 : List ℕ → List ℕ) where
  insert_repository-Integral :
      (tenant name : Text) (now : ℕ) (t : Tables)
      → Integral sha256 t
      → Integral sha256 (insert_repository tenant name now t)
  unfolding insert_repository
  insert_repository-Integral tenant name now t h =
      elim (Bool-cases (any (is_repository tenant name) t.repositories)) [
        | inl e ↦ rw e h
        | inr e ↦ rw e (record {
          owned = λ m n. grown _ (h.owned m n);
          hashed = h.hashed;
          tagged = h.tagged;
          placed = λ g n. grown _ (h.placed g n);
          listed = h.listed;
        })
      ]
    where
      grown :
          (new : List RepositoryRow) {id : ℕ}
          → HasRepository t.repositories id
          → HasRepository (t.repositories ++ new) id
      grown new (r, m, e) = (r, Elem-left _ t.repositories new m, e)

  upsert_manifest-Integral :
      (tenant : Text) (repository : ℕ) (m : Manifest) (now : ℕ) (t : Tables)
      → m.digest ≡ digest_from_bytes sha256 m.payload
      → HasRepository t.repositories repository
      → Integral sha256 t
      → Integral sha256 (upsert_manifest tenant repository m now t)
  unfolding upsert_manifest
  upsert_manifest-Integral tenant repository m now t d r h =
      elim (Bool-cases (any (is_manifest tenant repository m.digest) t.manifests)) [
        | inl e ↦ rw e (record {
          owned = λ x n.
              let (row, k, p) = Elem-map put x t.manifests n in
              rw (p, put_owner row) (h.owned row k);
          hashed = λ x n.
              let (row, k, p) = Elem-map put x t.manifests n in
              rw p (put_hashed row (h.hashed row k));
          tagged = λ g n. moved (h.tagged g n);
          placed = h.placed;
          listed = λ b n. moved (h.listed b n);
        })
        | inr e ↦ rw e (record {
          owned = λ x n. elim (append-Elem _ t.manifests _ n) [
            | inl k ↦ h.owned x k
            | inr (inl p) ↦ rw p r
            | inr (inr k) ↦ absurd k
          ];
          hashed = λ x n. elim (append-Elem _ t.manifests _ n) [
            | inl k ↦ h.hashed x k
            | inr (inl p) ↦ rw p d
            | inr (inr k) ↦ absurd k
          ];
          tagged = λ g n. grown _ (h.tagged g n);
          placed = h.placed;
          listed = λ b n. grown _ (h.listed b n);
        })
      ]
    where
      put : ManifestRow → ManifestRow
      put row = if is_manifest tenant repository m.digest row then updated m row else row

      put_owner : (row : ManifestRow) → (put row).repository_id ≡ row.repository_id
      put_owner row = elim (Bool-cases (is_manifest tenant repository m.digest row)) [
        | inl e ↦ rw e refl
        | inr e ↦ rw e refl
      ]

      put_id : (row : ManifestRow) → (put row).id ≡ row.id
      put_id row = elim (Bool-cases (is_manifest tenant repository m.digest row)) [
        | inl e ↦ rw e refl
        | inr e ↦ rw e refl
      ]

      put_hashed :
          (row : ManifestRow)
          → row.digest ≡ digest_from_bytes sha256 row.payload
          → (put row).digest ≡ digest_from_bytes sha256 (put row).payload
      put_hashed row q = elim (Bool-cases (is_manifest tenant repository m.digest row)) [
        | inl e ↦ rw e (manifest_digest tenant repository m.digest row e ∙ d)
        | inr e ↦ rw e q
      ]

      moved : {id : ℕ} → HasManifest t.manifests id → HasManifest (map put t.manifests) id
      moved (row, k, q) = (put row, map-Elem put row t.manifests k, put_id row ∙ q)

      grown :
          (new : List ManifestRow) {id : ℕ}
          → HasManifest t.manifests id
          → HasManifest (t.manifests ++ new) id
      grown new (x, k, e) = (x, Elem-left _ t.manifests new k, e)

  replace_blobs-Integral :
      (manifest : ℕ) (ds : List Descriptor) (t : Tables)
      → HasManifest t.manifests manifest
      → Integral sha256 t
      → Integral sha256 (replace_blobs manifest ds t)
  unfolding replace_blobs
  replace_blobs-Integral manifest ds t m h = record {
    owned = h.owned;
    hashed = h.hashed;
    tagged = h.tagged;
    placed = h.placed;
    listed = λ b n. elim (append-Elem _ _ (blob_rows manifest 0 ds) n) [
      | inl k ↦ h.listed b (Elem-keep _ t.blobs k).0
      | inr k ↦ let (row, p, q) = m in (row, p, q ∙ sym (blob_rows-id 0 ds b k))
    ];
  }
    where
      blob_rows-id :
          (index : ℕ) (ds : List Descriptor) (b : BlobRow)
          → Elem b (blob_rows manifest index ds)
          → b.manifest_id ≡ manifest
      blob_rows-id index [] b k = absurd k
      blob_rows-id index (d ∷ ds) b (inl e) = ap (λ (x : BlobRow). x.manifest_id) e
      blob_rows-id index (d ∷ ds) b (inr k) = blob_rows-id (suc index) ds b k

  upsert_tag-Integral :
      (tenant : Text) (repository : ℕ) (name : Text) (manifest created now : ℕ) (t : Tables)
      → HasRepository t.repositories repository
      → HasManifest t.manifests manifest
      → Integral sha256 t
      → Integral sha256 (upsert_tag tenant repository name manifest created now t)
  unfolding upsert_tag
  upsert_tag-Integral tenant repository name manifest created now t r m h =
      elim (Bool-cases (any (is_tag tenant repository name) t.tags)) [
        | inl e ↦ rw e (record {
          owned = h.owned;
          hashed = h.hashed;
          tagged = λ x n.
              let (row, k, p) = Elem-map put x t.tags n in rw p (put_tagged row (h.tagged row k));
          placed = λ x n.
              let (row, k, p) = Elem-map put x t.tags n in rw (p, put_owner row) (h.placed row k);
          listed = h.listed;
        })
        | inr e ↦ rw e (record {
          owned = h.owned;
          hashed = h.hashed;
          tagged = λ x n. elim (append-Elem _ t.tags _ n) [
            | inl k ↦ h.tagged x k
            | inr (inl p) ↦ rw p m
            | inr (inr k) ↦ absurd k
          ];
          placed = λ x n. elim (append-Elem _ t.tags _ n) [
            | inl k ↦ h.placed x k
            | inr (inl p) ↦ rw p r
            | inr (inr k) ↦ absurd k
          ];
          listed = h.listed;
        })
      ]
    where
      put : TagRow → TagRow
      put g =
          if is_tag tenant repository name g
          then record g { manifest_id = manifest; updated_at = now }
          else g

      put_owner : (g : TagRow) → (put g).repository_id ≡ g.repository_id
      put_owner g = elim (Bool-cases (is_tag tenant repository name g)) [
        | inl e ↦ rw e refl
        | inr e ↦ rw e refl
      ]

      put_tagged :
          (g : TagRow)
          → HasManifest t.manifests g.manifest_id
          → HasManifest t.manifests (put g).manifest_id
      put_tagged g q = elim (Bool-cases (is_tag tenant repository name g)) [
        | inl e ↦ rw e m
        | inr e ↦ rw e q
      ]

  upsert_manifest-repositories :
      (tenant : Text) (repository : ℕ) (m : Manifest) (now : ℕ) (t : Tables)
      → (upsert_manifest tenant repository m now t).repositories ≡ t.repositories
  unfolding upsert_manifest
  upsert_manifest-repositories tenant repository m now t = ground arith

  tag_when :
      (b : Bool) (tenant : Text) (repository : ℕ) (name : Text) (manifest created now : ℕ)
      (t : Tables)
      → HasRepository t.repositories repository
      → HasManifest t.manifests manifest
      → Integral sha256 t
      → Integral sha256 (if b then t else upsert_tag tenant repository name manifest created now t)
  tag_when true tenant repository name manifest created now t r m h = h
  tag_when false tenant repository name manifest created now t r m h =
      upsert_tag-Integral tenant repository name manifest created now t r m h

replace_blobs-same :
    (manifest : ℕ) (ds : List Descriptor) (t : Tables)
    → ((replace_blobs manifest ds t).manifests ≡ t.manifests)
      × ((replace_blobs manifest ds t).repositories ≡ t.repositories)
unfolding replace_blobs
replace_blobs-same manifest ds t = (refl, refl)

scan_id-ok : (o : Option ℕ) {i : ℕ} → scan_id o ≡ ok i → o ≡ some i
scan_id-ok none e = cc e
scan_id-ok (some i) e = cc e

pub per_row-Keeps :
    {P : State → Type 0} (site : Site) (ds : List Descriptor) → Keeps (Of P) (per_row site ds)
per_row-Keeps site [] = Keeps-pure tt
per_row-Keeps site (d ∷ ds) = after_sent site.env _ (λ _. per_row-Keeps site ds)

-- Publishing keeps the tables integral, whether it succeeds or fails at any statement: every
-- manifest is in a repository, every tag and every blob reference leads to a manifest, and each
-- manifest's digest is the hash of its payload.
pub publish_manifest-Integral :
    (site : Site) (tenant : Text) (repository : RepositoryRef) (tag : Text) (m : Manifest)
    (blobs : List Descriptor)
    → Keeps (Of (IsIntegral site.sha256)) (publish_manifest site tenant repository tag m blobs)
unfolding publish_manifest
publish_manifest-Integral site tenant repository tag m blobs = Keeps-lifted _ _ (λ _ _.
    Keeps-lifted _ _ (λ _ valid. Keeps-lifted _ _ (λ _ _. after_sent _ _ (λ _.
      Keeps-read (Integral site.sha256) _ _ (λ s h. h)
        (λ t h. after_asked _ _ (λ now. after_sent _ _ (λ _. after_sent _ _ (λ _.
          Keeps-lifted _ _ (λ key e. after_asked _ _ (λ created. after_sent _ _ (λ _.
            let t1 = insert_repository tenant repository.name now t in
            let h1 = insert_repository-Integral site.sha256 tenant repository.name now t h in
            let r = repository_id-Row tenant repository.name t1 (scan_id-ok _ e) in
            let h2 =
              upsert_manifest-Integral site.sha256 tenant key m created t1
                (validate-digest site.sha256 m valid) r h1 in
            let t2 = upsert_manifest tenant key m created t1 in
            let same = upsert_manifest-repositories site.sha256 tenant key m created t1 in
            after_sent _ _ (λ _. Keeps-lifted _ _ (λ manifest f. after_sent _ _ (λ _.
              let k = manifest_id-Row tenant key m.digest t2 (scan_id-ok _ f) in
              let h3 = replace_blobs-Integral site.sha256 manifest blobs t2 k h2 in
              Keeps-bind _ _ (per_row-Keeps site blobs) (λ _. after_asked _ _ (λ tagged.
                after_asked _ _ (λ retagged. Keeps-bind _ _ (Keeps-when _ _ (Keeps-sent _)) (λ _.
                  after_sent _ _ (λ _. Keeps-puts _ (λ s _.
                    let (ms, rs) = replace_blobs-same manifest blobs t2 in
                    tag_when site.sha256 (is_nil tag) tenant key tag manifest tagged retagged
                      (replace_blobs manifest blobs t2) (rw (rs, same) r) (rw ms k)
                      h3))))))))))))))))))))
