-- ===== src/Registry/Manifest/Validity.antt =====
-- What the constructor of manifests guarantees, and what their validation checks.
use regixtry.Base.{
  ℕ, pos, sym, [], int_eq, List, Option, Text, text_eq, text_eq_iff, text_eq_refl, length, Result,
  ok, err, ◌≡◌, ==_iff, refl, arith, All, ◌>>◌, not, if◌then◌else◌,
}
use regixtry.Errors.{Error}
use regixtry.Registry.Errors.{new_invalid_manifest_error, new_digest_mismatch_error}
use regixtry.Registry.Digest.{digest_from_bytes, parse_digest}
use regixtry.Registry.Digest.Hex.{IsByte}
use regixtry.Registry.Digest.Parsing.{parse_digest_iff, digest_from_bytes-IsDigest}
use regixtry.Registry.Descriptor.{Descriptor, validate_digest}
use regixtry.Registry.Manifest.{
  Manifest, Annotations, check_media_type, validate_optional, validate_all, new_manifest, validate,
}

pub then_ok :
    {A : Type 0} (x : Result Error (Unit {0})) (y : Result Error A) {a : A}
    → x >> y ≡ ok a
    → (x ≡ ok tt) × (y ≡ ok a)
then_ok (ok tt) y e = (refl, e)
then_ok (err f) y e = cc

pub validate_digest-IsOk :
    (sha256 : List ℕ → List ℕ) (payload : List ℕ)
    → length (sha256 payload) ≡ 32
    → All IsByte (sha256 payload)
    → validate_digest (digest_from_bytes sha256 payload) ≡ ok tt
unfolding validate_digest
validate_digest-IsOk sha256 payload size bytes =
    let d = digest_from_bytes sha256 payload in
    let e : parse_digest d ≡ ok d =
      (parse_digest_iff d d).1 (refl, digest_from_bytes-IsDigest sha256 payload size bytes) in
    rw e refl

-- The manifest of these parts, as the constructor sets it up.
abbrev pub built :
    (List ℕ → List ℕ)
    → Text
    → Text
    → List ℕ
    → Option Descriptor
    → List Descriptor
    → Option Descriptor
    → Annotations
    → Manifest
built sha256 media_type artifact_type payload config layers subject annotations = record {
  media_type = media_type;
  digest = digest_from_bytes sha256 payload;
  size = pos (length payload);
  payload = payload;
  subject = subject;
  config = config;
  layers = layers;
  annotations = annotations;
  artifact_type = artifact_type;
  pushed_by = [];
}

-- Where the constructor returns, the checks of the parts were passed.
record Checked (media_type : Text) (config : Option Descriptor) (layers : List Descriptor)
    (subject : Option Descriptor) : Type 0 where
  named : check_media_type media_type ≡ ok tt
  config_checked : validate_optional config ≡ ok tt
  subject_checked : validate_optional subject ≡ ok tt
  layers_checked : validate_all layers ≡ ok tt

module _ (sha256 : List ℕ → List ℕ) (media_type artifact_type : Text) (payload : List ℕ)
    (config : Option Descriptor) (layers : List Descriptor) (subject : Option Descriptor)
    (annotations : Annotations) (m : Manifest)
    (e : new_manifest sha256 media_type artifact_type payload config layers subject annotations
      ≡ ok m) where
  new_manifest-Checked :
      Checked media_type config layers subject
      × (built sha256 media_type artifact_type payload config layers subject annotations ≡ m)
  unfolding new_manifest
  new_manifest-Checked =
      let (e4, f) =
        then_ok
          (check_media_type media_type
            >> validate_optional config
            >> validate_optional subject
            >> validate_all layers)
          _ e in
      let (e3, l) =
        then_ok
          (check_media_type media_type >> validate_optional config >> validate_optional subject)
          (validate_all layers) e4 in
      let (e2, b) =
        then_ok (check_media_type media_type >> validate_optional config)
          (validate_optional subject) e3 in
      let (a, c) = then_ok (check_media_type media_type) (validate_optional config) e2 in
      (record { named = a; config_checked = c; subject_checked = b; layers_checked = l }, cc f)

  -- What the constructor returns is the manifest of its arguments.
  pub new_manifest-built :
      built sha256 media_type artifact_type payload config layers subject annotations ≡ m
  new_manifest-built = new_manifest-Checked.1

  built-IsValid :
      length (sha256 payload) ≡ 32
      → All IsByte (sha256 payload)
      → validate sha256
          (built sha256 media_type artifact_type payload config layers subject annotations)
        ≡ ok tt
  unfolding validate
  built-IsValid size bytes =
      let k = new_manifest-Checked.0 in
      rw
        (
          k.named,
          validate_digest-IsOk sha256 payload size bytes,
          (==_iff (length payload) (length payload)).1 refl,
          text_eq_refl (digest_from_bytes sha256 payload),
          k.config_checked,
          k.subject_checked,
          k.layers_checked,
        )
        refl

  -- A manifest that the constructor returns passes validation, where the hash gives 32 bytes. It
  -- has the arguments as its media type, artifact type, payload, config, layers, subject and
  -- annotations, the digest of the payload, the payload's length, and nobody pushed it yet.
  pub new_manifest-IsValid :
      length (sha256 payload) ≡ 32
      → All IsByte (sha256 payload)
      → (validate sha256 m ≡ ok tt)
        × (m.media_type ≡ media_type)
        × (m.artifact_type ≡ artifact_type)
        × (m.payload ≡ payload)
        × (m.config ≡ config)
        × (m.layers ≡ layers)
        × (m.subject ≡ subject)
        × (m.annotations ≡ annotations)
        × (m.digest ≡ digest_from_bytes sha256 payload)
        × (m.size ≡ pos (length payload))
        × (m.pushed_by ≡ [])
  new_manifest-IsValid size bytes =
      rw (sym new_manifest-built)
        (built-IsValid size bytes, refl, refl, refl, refl, refl, refl, refl, refl, refl, refl)

digest_matches :
    (d e : Text) {a : Unit {0}}
    → (if not (text_eq d e) then err (new_digest_mismatch_error d e) else ok tt) ≡ ok a
    → d ≡ e
digest_matches d e h = ground (arith, text_eq_iff d e)

-- A manifest that passes validation has the digest of its payload.
pub validate-digest :
    (sha256 : List ℕ → List ℕ) (m : Manifest)
    → validate sha256 m ≡ ok tt
    → m.digest ≡ digest_from_bytes sha256 m.payload
unfolding validate
validate-digest sha256 m e =
    let checked = check_media_type m.media_type >> validate_digest m.digest in
    let sized =
      checked
      >> (if not (int_eq m.size (pos (length m.payload)))
          then err (new_invalid_manifest_error "manifest size does not match payload length")
          else ok tt) in
    let hashed =
      sized
      >> (if not (text_eq m.digest (digest_from_bytes sha256 m.payload))
          then err (new_digest_mismatch_error m.digest (digest_from_bytes sha256 m.payload))
          else ok tt) in
    let (e1, _) =
      then_ok (hashed >> validate_optional m.config >> validate_optional m.subject) _ e in
    let (e2, _) = then_ok (hashed >> validate_optional m.config) _ e1 in
    let (e3, _) = then_ok hashed _ e2 in digest_matches m.digest _ (then_ok sized _ e3).1

-- The digest of a manifest that the constructor returns is that of the payload.
pub new_manifest-digest :
    (sha256 : List ℕ → List ℕ) (media_type artifact_type : Text) (payload : List ℕ)
    (config : Option Descriptor) (layers : List Descriptor) (subject : Option Descriptor)
    (annotations : Annotations) {m : Manifest}
    → new_manifest sha256 media_type artifact_type payload config layers subject annotations ≡ ok m
    → (m.digest ≡ digest_from_bytes sha256 payload) × (m.payload ≡ payload)
new_manifest-digest sha256 media_type artifact_type payload config layers subject annotations {m}
      e =
    rw
      (sym (
        new_manifest-built sha256 media_type artifact_type payload config layers subject annotations
          m e))
      (refl, refl)
