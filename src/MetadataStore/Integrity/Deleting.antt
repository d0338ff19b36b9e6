-- ===== src/MetadataStore/Integrity/Deleting.antt =====
-- Deletions keep the tables integral: the cascades take what refers to a deleted row
-- (internal/infra/metadata/sqlite/store.go).
use regixtry.Base.{
  ℕ, Bool, true, not, ◌&&◌, ◌==◌, ==_iff, List, Text, Elem, Elem-keep, keep-Elem, any, any_of_Elem,
  keep, Bool-cases, ◌≡◌, inl, inr, refl, arith,
}
use regixtry.Registry.Digest.{Digest}
use regixtry.Registry.Repository.{RepositoryRef}
use regixtry.Storage.Tables.{Tables, RepositoryRow, ManifestRow, TagRow}
use regixtry.Storage.State.{Site}
use regixtry.MetadataStore.Joins.{drop_manifests, drop_repositories}
use regixtry.MetadataStore.Deletions.{delete_manifest_by_digest, delete_repository, delete_tag}
use regixtry.MetadataStore.Integrity.Rows.{Integral, IsIntegral}
use regixtry.Actions.Keeps.{Keeps, Keeps-bind, Keeps-pure, Keeps-reject}
use regixtry.Actions.States.{Of, Keeps-puts, Keeps-read, Keeps-lifted, Keeps-rejected, after_sent}

-- A row that nothing deleted refers to refers to a row that stays.
survives :
    {A : Type 0} (gone : A → Bool) (id : A → ℕ) (xs : List A) (i : ℕ)
    → ((a : A) × Elem a xs × (id a ≡ i))
    → not (any (λ a. gone a && (id a == i)) xs) ≡ true
    → (a : A) × Elem a (keep (λ a. not (gone a)) xs) × (id a ≡ i)
survives gone id xs i (a, m, e) h = elim (Bool-cases (gone a)) [
  | inl g ↦ absurd (found (any_of_Elem _ a xs m (rw (g, (==_iff (id a) i).1 e) refl)) h)
  | inr g ↦ (a, keep-Elem _ xs m (rw g refl), e)
]
  where
    found : {b : Bool} → b ≡ true → not b ≡ true → ⊥
    found p q = ground arith

module _ (sha256 : List ℕ → List ℕ) where
  drop_manifests-Integral :
      (gone : ManifestRow → Bool) (t : Tables)
      → Integral sha256 t
      → Integral sha256 (drop_manifests gone t)
  unfolding drop_manifests
  drop_manifests-Integral gone t h = record {
    owned = λ m n. h.owned m (Elem-keep _ t.manifests n).0;
    hashed = λ m n. h.hashed m (Elem-keep _ t.manifests n).0;
    tagged = λ g n.
        let (k, e) = Elem-keep _ t.tags n in
        survives gone (λ (m : ManifestRow). m.id) t.manifests g.manifest_id (h.tagged g k) e;
    placed = λ g n. h.placed g (Elem-keep _ t.tags n).0;
    listed = λ b n.
        let (k, e) = Elem-keep _ t.blobs n in
        survives gone (λ (m : ManifestRow). m.id) t.manifests b.manifest_id (h.listed b k) e;
  }

  drop_repositories-Integral :
      (gone : RepositoryRow → Bool) (t : Tables)
      → Integral sha256 t
      → Integral sha256 (drop_repositories gone t)
  unfolding drop_repositories drop_manifests
  drop_repositories-Integral gone t h =
      let below : ManifestRow → Bool =
        λ m. any (λ r. gone r && (r.id == m.repository_id)) t.repositories in
      let k = drop_manifests-Integral below t h in
      record {
        owned = λ m n.
            let (p, e) = Elem-keep _ t.manifests n in
            survives gone (λ (r : RepositoryRow). r.id) t.repositories m.repository_id (h.owned m p)
              e;
        hashed = k.hashed;
        tagged = λ g n. k.tagged g (Elem-keep _ (drop_manifests below t).tags n).0;
        placed = λ g n.
            let (p, e) = Elem-keep _ (drop_manifests below t).tags n in
            survives gone (λ (r : RepositoryRow). r.id) t.repositories g.repository_id
              (k.placed g p) e;
        listed = k.listed;
      }

  keep_tags-Integral :
      (p : TagRow → Bool) (t : Tables)
      → Integral sha256 t
      → Integral sha256 (record t { tags = keep p t.tags })
  keep_tags-Integral p t h = record {
    owned = h.owned;
    hashed = h.hashed;
    tagged = λ g n. h.tagged g (Elem-keep p t.tags n).0;
    placed = λ g n. h.placed g (Elem-keep p t.tags n).0;
    listed = h.listed;
  }

module _ (site : Site) (tenant : Text) (repository : RepositoryRef) where
  -- Deleting a manifest by its digest keeps the tables integral, whether it succeeds or fails.
  pub delete_manifest-Integral :
      (digest : Digest)
      → Keeps
          (Of (IsIntegral site.sha256))
          (delete_manifest_by_digest site tenant repository digest)
  unfolding delete_manifest_by_digest
  delete_manifest-Integral digest = Keeps-lifted _ _ (λ _ _. Keeps-lifted _ _ (λ _ _.
      after_sent _ _ (λ _.
        Keeps-read (Integral site.sha256) _ _ (λ s h. h)
          (λ t h. after_sent _ _ (λ _. after_sent _ _ (λ _. Keeps-rejected _ _ _ (λ _.
            after_sent _ _ (λ _.
              Keeps-bind _ _ (Keeps-puts _ (λ s _. drop_manifests-Integral site.sha256 _ t h))
                (λ _. Keeps-pure _)))))))))

  -- Deleting a repository keeps the tables integral, whether it succeeds or fails.
  pub delete_repository-Integral :
      Keeps (Of (IsIntegral site.sha256)) (delete_repository site tenant repository)
  unfolding delete_repository
  delete_repository-Integral = Keeps-lifted _ _ (λ _ _. after_sent _ _ (λ _.
      Keeps-read (Integral site.sha256) _ _ (λ s h. h)
        (λ t h. after_sent _ _ (λ _. after_sent _ _ (λ _. after_sent _ _ (λ _.
          Keeps-rejected _ _ _ (λ _. after_sent _ _ (λ _.
            Keeps-bind _ _ (Keeps-puts _ (λ s _. drop_repositories-Integral site.sha256 _ t h))
              (λ _. Keeps-pure _)))))))))

  -- Deleting a tag keeps the tables integral, whether it succeeds or fails.
  pub delete_tag-Integral :
      (tag : Text) → Keeps (Of (IsIntegral site.sha256)) (delete_tag site tenant repository tag)
  unfolding delete_tag
  delete_tag-Integral tag = Keeps-lifted _ _ (λ _ _. after_sent _ _ (λ _.
      Keeps-read (Integral site.sha256) _ _ (λ s h. h)
        (λ t h.
          Keeps-bind _ _ (Keeps-puts _ (λ s _. keep_tags-Integral site.sha256 _ t h))
            (λ _. Keeps-reject _ _))))
