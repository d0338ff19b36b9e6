-- ===== src/RegistryService/Payloads.antt =====
-- What a pushed manifest says: parseManifestPayload and isReferrerArtifactPush
-- (internal/app/regixtry/service.go), and the tags of signatures (internal/domain/signing/cosign.go,
-- internal/domain/signing/bundle.go).
use regixtry.Base.{
  ℕ, Bool, true, false, not, ◌&&◌, ◌||◌, ◌==◌, List, [], ◌∷◌, ◌++◌, Option, none, some, Text, codes,
  text_eq, len, if◌then◌else◌, Result, ok, err, ◌>>=◌, ◌>>◌,
}
use regixtry.Errors.{Error}
use regixtry.Strings.{is_nil, trim_space, has_prefix}
use regixtry.Registry.Errors.{
  new_validation_error, new_invalid_manifest_error, new_digest_mismatch_error,
}
use regixtry.Registry.Digest.{Digest, parse_digest}
use regixtry.Registry.Digest.Hex.{hex_decode}
use regixtry.Registry.Descriptor.{Descriptor}
use regixtry.Registry.Descriptor
use regixtry.Registry.Manifest.{Manifest, new_manifest}
use regixtry.Registry.Repository.{RepositoryRef, parse_repository_ref}
use regixtry.Storage.State.{Site, ManifestResource, ManifestEnvelope}

-- parseRepository
unfoldable pub parse_repository : Text → Result Error RepositoryRef
unfolding trim_space parse_repository_ref
parse_repository name = parse_repository_ref (trim_space name)

-- (*manifestResource).toDescriptor
unfoldable pub to_descriptor : ManifestResource → Result Error Descriptor
unfolding parse_digest Descriptor.validate
to_descriptor r = parse_digest r.digest >>= λ digest.
    let d : Descriptor = record { media_type = r.media_type; digest = digest; size = r.size } in
    Descriptor.validate d >> ok d

abbrev pub to_optional : Option ManifestResource → Result Error (Option Descriptor)
to_optional none = ok none
to_optional (some r) = to_descriptor r >>= λ d. ok (some d)

abbrev pub to_descriptors : List ManifestResource → Result Error (List Descriptor)
to_descriptors [] = ok []
to_descriptors (r ∷ rs) = to_descriptor r >>= λ d. to_descriptors rs >>= λ ds. ok (d ∷ ds)

-- The manifest and the tag to set, which is empty for a reference that is a digest.
abbrev pub referenced : Text → Manifest → Result Error Digest → Result Error (Manifest × Text)
referenced reference m (err e) = ok (m, reference)
referenced reference m (ok digest) =
    if not (text_eq digest m.digest)
    then err (new_digest_mismatch_error digest m.digest)
    else ok (m, [])

abbrev pub parsed : Option ManifestEnvelope → Result Error ManifestEnvelope
parsed none = err (new_invalid_manifest_error "manifest payload must be valid JSON")
parsed (some e) = ok e

unfoldable pub parse_manifest_payload : Site → Text → Text → List ℕ → Result Error (Manifest × Text)
unfolding trim_space to_descriptor new_manifest parse_digest text_eq
parse_manifest_payload site reference media_type payload =
    let name = trim_space reference in
    (if is_nil name then err (new_validation_error "manifest reference is required") else ok tt)
    >> parsed (site.unmarshal_manifest payload)
    >>= λ envelope. to_optional envelope.config >>= λ config.
        to_descriptors envelope.layers >>= λ layers. to_optional envelope.subject >>= λ subject.
        new_manifest site.sha256
          (if is_nil media_type then trim_space envelope.media_type else media_type)
          (trim_space envelope.artifact_type) payload config layers subject envelope.annotations
        >>= λ manifest. referenced name manifest (parse_digest name)

-- strings.TrimPrefix and strings.TrimSuffix
unfoldable pub trim_prefix : Text → Text → Text
trim_prefix [] s = s
trim_prefix (c ∷ p) [] = []
trim_prefix (c ∷ p) (d ∷ s) =
    let rest = trim_prefix p s in if has_prefix (d ∷ s) (c ∷ p) then rest else d ∷ s

unfoldable pub trim_suffix : Text → Text → Text
unfolding text_eq
trim_suffix suffix [] = []
trim_suffix suffix (c ∷ s) =
    let rest = trim_suffix suffix s in if text_eq (c ∷ s) suffix then [] else c ∷ rest

abbrev is_decoded : Option (List ℕ) → Bool
is_decoded none = false
is_decoded (some bs) = true

-- validatedDigestHex
unfoldable pub validated_digest_hex : Text → Option Text
unfolding has_prefix trim_prefix len hex_decode
validated_digest_hex digest =
    let prefix = codes "sha256:" in
    let encoded = trim_prefix prefix digest in
    if not (has_prefix digest prefix)
      || not (len encoded == 64)
      || not (is_decoded (hex_decode encoded))
    then none
    else some encoded

abbrev tag_is : Text → Text → Option Text → Bool
tag_is tag suffix none = false
tag_is tag suffix (some encoded) = text_eq (codes "sha256-" ++ (encoded ++ suffix)) tag

-- isReferrerArtifactPush, with SignatureTag and BundleIndexTag
unfoldable pub is_referrer_artifact_push : Manifest → Text → Bool
unfolding has_prefix trim_prefix trim_suffix validated_digest_hex text_eq
is_referrer_artifact_push manifest tag =
    let digest =
      codes "sha256:" ++ trim_suffix (codes ".sig") (trim_prefix (codes "sha256-") tag) in
    elim manifest.subject [
      | some s ↦ true
      | none ↦
          has_prefix tag (codes "sha256-")
          && (tag_is tag (codes ".sig") (validated_digest_hex digest)
              || tag_is tag [] (validated_digest_hex digest))
    ]
