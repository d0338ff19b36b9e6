-- ===== src/Registry/Manifest.antt =====
-- Manifests (internal/domain/regixtry/manifest.go). The annotations, a map that this code only
-- copies, are a list of pairs. `sha256.Sum256` of the standard library is a parameter.
pub mod Validity
use regixtry.Base.{
  ℕ, ℤ, pos, int_eq, not, List, [], ◌∷◌, Option, none, some, Text, text_eq, length, if◌then◌else◌,
  Result, ok, err, ◌>>=◌, ◌>>◌,
}
use regixtry.Errors.{Error}
use regixtry.Strings.{is_nil}
use regixtry.Registry.Errors.{new_invalid_manifest_error, new_digest_mismatch_error}
use regixtry.Registry.Digest.{Digest, digest_from_bytes}
use regixtry.Registry.Descriptor.{Descriptor, validate_digest}
use regixtry.Registry.Descriptor

abbrev pub Annotations : Type 0
Annotations = List (Text × Text)

pub record Manifest : Type 0 where
  pub media_type : Text
  pub digest : Digest
  pub size : ℤ
  pub payload : List ℕ
  pub subject : Option Descriptor
  pub config : Option Descriptor
  pub layers : List Descriptor
  pub annotations : Annotations
  pub artifact_type : Text
  pub pushed_by : Text

-- `if config != nil { ... Validate() }`
unfoldable pub validate_optional : Option Descriptor → Result Error (Unit {0})
unfolding Descriptor.validate
validate_optional none = ok tt
validate_optional (some d) = Descriptor.validate d

-- `for _, layer := range layers { ... layer.Validate() }`
unfoldable pub validate_all : List Descriptor → Result Error (Unit {0})
unfolding Descriptor.validate
validate_all [] = ok tt
validate_all (d ∷ ds) = Descriptor.validate d >> validate_all ds

abbrev check_media_type : Text → Result Error (Unit {0})
check_media_type m =
    if is_nil m then err (new_invalid_manifest_error "media type is required") else ok tt

module _ (sha256 : List ℕ → List ℕ) where
  unfoldable pub new_manifest :
      Text
      → Text
      → List ℕ
      → Option Descriptor
      → List Descriptor
      → Option Descriptor
      → Annotations
      → Result Error Manifest
  unfolding validate_optional validate_all digest_from_bytes
  new_manifest media_type artifact_type payload config layers subject annotations =
      check_media_type media_type
      >> validate_optional config
      >> validate_optional subject
      >> validate_all layers
      >> ok (record {
        media_type = media_type;
        digest = digest_from_bytes sha256 payload;
        size = pos (length payload);
        payload = payload;
        subject = subject;
        config = config;
        layers = layers;
        annotations = annotations;
        artifact_type = artifact_type;
        pushed_by = [];
      })

  -- (Manifest).Validate
  unfoldable pub validate : Manifest → Result Error (Unit {0})
  unfolding validate_digest validate_optional validate_all digest_from_bytes text_eq
  validate m =
      check_media_type m.media_type
      >> validate_digest m.digest
      >> (if not (int_eq m.size (pos (length m.payload)))
          then err (new_invalid_manifest_error "manifest size does not match payload length")
          else ok tt)
      >> (if not (text_eq m.digest (digest_from_bytes sha256 m.payload))
          then err (new_digest_mismatch_error m.digest (digest_from_bytes sha256 m.payload))
          else ok tt)
      >> validate_optional m.config
      >> validate_optional m.subject
      >> validate_all m.layers

-- (Manifest).BlobReferences
unfoldable pub blob_references : Manifest → List Descriptor
blob_references m = elim m.config [ none ↦ m.layers | some d ↦ d ∷ m.layers ]
