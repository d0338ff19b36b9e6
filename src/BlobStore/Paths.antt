-- ===== src/BlobStore/Paths.antt =====
-- The paths of blobs and uploads (internal/infra/storage/fsblob/store.go).
use regixtry.Base.{
  false, ◌||◌, [], ◌∷◌, ◌++◌, Text, codes, text_eq, text_eq_iff, length, ◌==◌, All, ◌≡◌, ◌≢◌, refl,
  sym, ap, ◌∙◌, arith,
}
use regixtry.Strings.{split}
use regixtry.Strings.Splitting.{Lacks, split_on-Lacks_sep}
use regixtry.Registry.Digest.{Digest, digest_algorithm_sha256}
use regixtry.Registry.Digest.Hex.{IsHex, hex_value}
use regixtry.Registry.Digest.Parsing.{IsDigest, algorithm-IsDigest, encoded-IsDigest}
use regixtry.Storage.Files.{FilePath, join_path}
use regixtry.Storage.State.{Site}
use regixtry.BlobStore.{blobs_root, upload_dir, upload_file, upload_state_file, blob_path}

-- A text that is one component of a path.
pub record IsName (c : Text) : Type 0 where
  pub whole : Lacks (λ x. x == b'/') c
  pub plain : (text_eq c [] || text_eq c (codes ".")) ≡ false
  pub below : text_eq c (codes "..") ≡ false

pub join_path-IsName : (p : FilePath) (c : Text) → IsName c → join_path p c ≡ c ∷ p
unfolding join_path split
join_path-IsName p c h = rw (split_on-Lacks_sep (λ x. x == b'/') c h.whole, h.plain, h.below) refl

hex-Lacks : (s : Text) → All IsHex s → Lacks (λ x. x == b'/') s
unfolding hex_value
hex-Lacks [] h = tt
hex-Lacks (c ∷ s) ((x, e), h) = (ground arith, hex-Lacks s h)

long-plain : (s : Text) → length s ≡ 64 → (text_eq s [] || text_eq s (codes ".")) ≡ false
long-plain s h = ground (arith, text_eq_iff s [], text_eq_iff s (codes "."), dots)
  where
    dots : (s ≡ [] → ⊥) × (s ≡ codes "." → ⊥)
    dots =
        (λ e. absurd (omega (arith, ap length e, h)), λ e. absurd (omega (arith, ap length e, h)))

long-below : (s : Text) → length s ≡ 64 → text_eq s (codes "..") ≡ false
long-below s h = ground (arith, text_eq_iff s (codes ".."), dots)
  where
    dots : s ≡ codes ".." → ⊥
    dots e = absurd (omega (arith, ap length e, h))

pub encoded-IsName : (s : Text) → All IsHex s → length s ≡ 64 → IsName s
encoded-IsName s digits size = record {
  whole = hex-Lacks s digits;
  plain = long-plain s size;
  below = long-below s size;
}

pub sha256-IsName : IsName digest_algorithm_sha256
sha256-IsName = record {
  whole = (refl, (refl, (refl, (refl, (refl, (refl, tt))))));
  plain = unfold text_eq in refl;
  below = unfold text_eq in refl;
}

module _ (site : Site) where
  -- The blob of a digest lies right below the directory of its algorithm, under its digits.
  pub blob_path-form :
      (d : Digest) (h : IsDigest d)
      → blob_path site d ≡ h.hex ∷ digest_algorithm_sha256 ∷ blobs_root site
  unfolding blob_path
  blob_path-form d h =
      rw
        (
          algorithm-IsDigest d h,
          encoded-IsDigest d h,
          join_path-IsName (blobs_root site) digest_algorithm_sha256 sha256-IsName,
        )
        (join_path-IsName (digest_algorithm_sha256 ∷ blobs_root site) h.hex
          (encoded-IsName h.hex h.digits h.size))

  -- Two digests with one path are equal.
  pub blob_path-inj :
      (d e : Digest) → IsDigest d → IsDigest e → blob_path site d ≡ blob_path site e → d ≡ e
  blob_path-inj d e h k q =
      let p = sym (blob_path-form d h) ∙ q ∙ blob_path-form e k in
      let same : h.hex ≡ k.hex = cc p in
      h.form ∙ ap (λ x. digest_algorithm_sha256 ++ (b':' ∷ x)) same ∙ sym k.form

  data-IsName : IsName (codes "data")
  data-IsName = record {
    whole = (refl, (refl, (refl, (refl, tt))));
    plain = unfold text_eq in refl;
    below = unfold text_eq in refl;
  }

  state-IsName : IsName (codes "state.json")
  state-IsName = record {
    whole = (refl, (refl, (refl, (refl, (refl, (refl, (refl, (refl, (refl, (refl, tt))))))))));
    plain = unfold text_eq in refl;
    below = unfold text_eq in refl;
  }

  pub upload_file-form : (id : Text) → upload_file site id ≡ codes "data" ∷ upload_dir site id
  unfolding upload_file
  upload_file-form id = join_path-IsName (upload_dir site id) (codes "data") data-IsName

  pub upload_state_file-form :
      (id : Text) → upload_state_file site id ≡ codes "state.json" ∷ upload_dir site id
  unfolding upload_state_file
  upload_state_file-form id =
      join_path-IsName (upload_dir site id) (codes "state.json") state-IsName

  -- Whatever the id of an upload is, its files are no blobs.
  pub upload_file-ne-blob :
      (id : Text) (d : Digest) → IsDigest d → upload_file site id ≢ blob_path site d
  upload_file-ne-blob id d h q =
      let p = sym (upload_file-form id) ∙ q ∙ blob_path-form d h in
      let same : codes "data" ≡ h.hex = cc p in absurd (omega (arith, ap length same, h.size))

  pub upload_state_file-ne-blob :
      (id : Text) (d : Digest) → IsDigest d → upload_state_file site id ≢ blob_path site d
  upload_state_file-ne-blob id d h q =
      let p = sym (upload_state_file-form id) ∙ q ∙ blob_path-form d h in
      let same : codes "state.json" ≡ h.hex = cc p in absurd (omega (arith, ap length same, h.size))
