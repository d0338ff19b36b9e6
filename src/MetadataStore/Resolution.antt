-- ===== src/MetadataStore/Resolution.antt =====
-- What a reference resolves to (ResolveManifest of internal/infra/metadata/sqlite/store.go).
use regixtry.Base.{
  [], Bool, true, ◌&&◌, ◌==◌, List, Option, none, some, Text, text_eq, text_eq_iff, Elem-of_any,
  find?-Elem, Elem, ◌≡◌, sym, ◌∙◌, ap, arith, Result, ok, err,
}
use regixtry.Errors.{Error}
use regixtry.Registry.Digest.{Digest, parse_digest, digest_from_bytes}
use regixtry.Registry.Descriptor.{Descriptor}
use regixtry.Registry.Manifest.{Manifest, new_manifest}
use regixtry.Registry.Manifest.Validity.{new_manifest-digest}
use regixtry.Registry.Repository.{RepositoryRef}
use regixtry.Storage.Tables.{Tables, ManifestRow, RepositoryRow}
use regixtry.Storage.State.{World, Site, M}
use regixtry.MetadataStore.Joins.{is_repository}
use regixtry.MetadataStore.Manifests.{refers, resolved_row, scan_manifest, resolve_manifest}
use regixtry.MetadataStore.Integrity.Rows.{IsIntegral}
use regixtry.Actions.Keeps.{Keeps}
use regixtry.Actions.States.{Of, Keeps-sent}
use regixtry.Actions.Triples.{Triple, then_do, kept, reads, returns, lifts, returned}

abbrev Anything : World → Type 0
Anything w = Unit

second : (a b : Bool) → (a && b) ≡ true → b ≡ true
second a b p = ground arith

last : (a b c : Bool) → (a && b && c) ≡ true → c ≡ true
last a b c p = ground arith

module _ (site : Site) (tenant : Text) (repository : RepositoryRef) where
  -- The row that a digest resolves to has that digest.
  row-digest :
      (reference : Text) (d : Digest) (t : Tables) {m : ManifestRow}
      → parse_digest reference ≡ ok d
      → resolved_row site tenant repository reference t ≡ some m
      → Elem m t.manifests × (m.digest ≡ reference)
  unfolding resolved_row
  row-digest reference d t {m} e h =
      let (k, q) = find?-Elem _ t.manifests h in
      let (r, n, p) = Elem-of_any _ t.repositories (second _ _ q) in
      (
        k,
        (text_eq_iff m.digest reference).0 (
            named r (parse_digest reference) e
              (last (r.id == m.repository_id) (is_repository tenant repository.name r) _ p)),
      )
    where
      named :
          (r : RepositoryRow) (x : Result Error Digest)
          → x ≡ ok d
          → refers site tenant repository x reference t r m ≡ true
          → text_eq m.digest reference ≡ true
      named r (ok y) e p = p
      named r (err y) e p = cc e

  scan_manifest-some :
      (reference : Text) (o : Option ManifestRow) (m : ManifestRow)
      → scan_manifest site tenant repository reference o ≡ ok m
      → o ≡ some m
  scan_manifest-some reference none m e = cc e
  scan_manifest-some reference (some x) m e = cc e

  -- A row whose digest is that of its payload.
  abbrev Faithful : Text → ManifestRow → Type 0
  Faithful reference m =
      (m.digest ≡ reference) × (m.digest ≡ digest_from_bytes site.sha256 m.payload)

  resolve_manifest-digest :
      (reference : Text) (d : Digest)
      → parse_digest reference ≡ ok d
      → Triple
          (Of (IsIntegral site.sha256))
          (resolve_manifest site tenant repository reference)
          (λ m w. (m.digest ≡ reference) × (digest_from_bytes site.sha256 m.payload ≡ reference))
          Anything
  unfolding resolve_manifest
  resolve_manifest-digest reference d e =
      then_do {Q = λ _. Of (IsIntegral site.sha256)} (lifts _ (λ _ w h q. h) (λ w h. tt)) (λ _.
        then_do (kept (Keeps-sent site.env) (λ w h. tt)) (λ _.
          then_do {Q = λ row w. ((m : ManifestRow) → row ≡ some m → Faithful reference m)}
            (reads _ (λ w h m q.
              let (k, same) = row-digest reference d w.db.tables e q in (same, h.holds.hashed m k)))
            (λ row.
              then_do {Q = λ m w. Faithful reference m}
                (lifts _ (λ m w h q. h m (scan_manifest-some reference row m q)) (λ w h. tt))
                (λ m. then_do {Q = λ _ w. Faithful reference m} (kept always (λ w h. tt)) (λ ds.
                  then_do
                    {Q = λ x w.
                      ((x.digest ≡ reference)
                        × (digest_from_bytes site.sha256 x.payload ≡ reference))}
                    (lifts _ (λ x w h q. built m x ds h q) (λ w h. tt))
                    (λ x. returns _ (λ w h. h)))))))
    where
      always : {A : Type 0} {C : Type 0} {m : M A} → Keeps (λ w. C) m
      always = record { at = λ w h. h }

      built :
          (m : ManifestRow) (x : Manifest) (ds : List Descriptor)
          → Faithful reference m
          → new_manifest site.sha256 m.media_type [] m.payload none ds none [] ≡ ok x
          → (x.digest ≡ reference) × (digest_from_bytes site.sha256 x.payload ≡ reference)
      built m x ds h q =
          let (p, k) =
            new_manifest-digest site.sha256 m.media_type [] m.payload none ds none [] q in
          let there : digest_from_bytes site.sha256 m.payload ≡ reference = sym h.1 ∙ h.0 in
          (p ∙ there, ap (digest_from_bytes site.sha256) k ∙ there)

-- What a digest resolves to in integral tables is a manifest whose payload hashes to that digest.
pub resolve_manifest-hash :
    (site : Site) (tenant : Text) (repository : RepositoryRef) (reference : Text) (d : Digest)
    (w : World) (m : Manifest)
    → IsIntegral site.sha256 w.db
    → parse_digest reference ≡ ok d
    → (resolve_manifest site tenant repository reference w).0 ≡ ok m
    → (m.digest ≡ reference) × (digest_from_bytes site.sha256 m.payload ≡ reference)
resolve_manifest-hash site tenant repository reference d w m h e q =
    returned w m (resolve_manifest-digest site tenant repository reference d e)
      (record { holds = h }) q
