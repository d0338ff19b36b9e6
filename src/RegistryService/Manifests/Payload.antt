-- ===== src/RegistryService/Manifests/Payload.antt =====
-- What a manifest that is read from a payload has of it (parseManifestPayload of
-- internal/app/regixtry/service.go).
use regixtry.Base.{
  ℕ, List, [], ◌∷◌, Option, none, some, Text, text_eq, Elem, Bool-cases, if◌then◌else◌, ◌≡◌, inl,
  inr, refl, sym, ap, ◌∙◌, Result, ok, err, ◌>>◌, >>=-eq-ok,
}
use regixtry.Errors.{Error}
use regixtry.Strings.{is_nil, trim_space}
use regixtry.Registry.Errors.{new_validation_error}
use regixtry.Registry.Digest.{Digest, parse_digest, digest_from_bytes}
use regixtry.Registry.Digest.Parsing.{parse_digest_iff}
use regixtry.Registry.Descriptor.{Descriptor}
use regixtry.Registry.Descriptor
use regixtry.Registry.Manifest.{Manifest, new_manifest, blob_references}
use regixtry.Registry.Manifest.Validity.{then_ok, new_manifest-built}
use regixtry.Storage.State.{Site, ManifestResource, ManifestEnvelope}
use regixtry.RegistryService.Payloads.{
  to_descriptor, to_optional, to_descriptors, referenced, parsed, parse_manifest_payload,
}

-- The manifest is that of the envelope in the payload.
pub record Read (site : Site) (payload : List ℕ) (m : Manifest) : Type 0 where
  pub envelope : ManifestEnvelope
  pub decoded : site.unmarshal_manifest payload ≡ some envelope
  pub config : to_optional envelope.config ≡ ok m.config
  pub layers : to_descriptors envelope.layers ≡ ok m.layers
  pub hashed : m.digest ≡ digest_from_bytes site.sha256 payload

parsed-some : (o : Option ManifestEnvelope) (e : ManifestEnvelope) → parsed o ≡ ok e → o ≡ some e
parsed-some none e q = cc
parsed-some (some x) e q = cc

referenced_same :
    (name : Text) (m x : Manifest) (tag : Text) (r : Result Error Digest)
    → referenced name m r ≡ ok (x, tag)
    → m ≡ x
referenced_same name m x tag (err f) q = cc
referenced_same name m x tag (ok d) q = elim (Bool-cases (text_eq d m.digest)) [
  | inl e ↦ let k = rw e at q in cc k
  | inr e ↦ let k = rw e at q in absurd (cc k)
]

pub parse_manifest_payload-Read :
    (site : Site) (reference media_type : Text) (payload : List ℕ) (m : Manifest) (tag : Text)
    → parse_manifest_payload site reference media_type payload ≡ ok (m, tag)
    → Read site payload m
unfolding parse_manifest_payload
parse_manifest_payload-Read site reference media_type payload m tag e =
    let name = trim_space reference in
    let (v, p, k) =
      >>=-eq-ok
        ((if is_nil name
            then err (new_validation_error "manifest reference is required")
            else ok tt)
          >> parsed (site.unmarshal_manifest payload))
        _ e in
    let (_, there) =
      then_ok
        (if is_nil name then err (new_validation_error "manifest reference is required") else ok tt)
        (parsed (site.unmarshal_manifest payload)) p in
    let (config, c, k1) = >>=-eq-ok (to_optional v.config) _ k in
    let (layers, l, k2) = >>=-eq-ok (to_descriptors v.layers) _ k1 in
    let (subject, s, k3) = >>=-eq-ok (to_optional v.subject) _ k2 in
    let kind = if is_nil media_type then trim_space v.media_type else media_type in
    let (x, n, k4) =
      >>=-eq-ok
        (new_manifest site.sha256 kind (trim_space v.artifact_type) payload config layers subject
          v.annotations)
        _ k3 in
    let made =
      new_manifest-built site.sha256 kind (trim_space v.artifact_type) payload config layers subject
        v.annotations x n
      ∙ referenced_same name x m tag (parse_digest name) k4 in
    record {
      envelope = v;
      decoded = parsed-some (site.unmarshal_manifest payload) v there;
      config = c ∙ ap (λ (y : Manifest). ok y.config) made;
      layers = l ∙ ap (λ (y : Manifest). ok y.layers) made;
      hashed = ap (λ (y : Manifest). y.digest) (sym made);
    }

to_descriptor-digest :
    (r : ManifestResource) (d : Descriptor) → to_descriptor r ≡ ok d → d.digest ≡ r.digest
unfolding to_descriptor
to_descriptor-digest r d e =
    let (digest, p, k) = >>=-eq-ok (parse_digest r.digest) _ e in
    let x : Descriptor = record { media_type = r.media_type; digest = digest; size = r.size } in
    let (_, q) = then_ok (Descriptor.validate x) (ok x) k in
    let same : x ≡ d = cc q in
    ap (λ (x : Descriptor). x.digest) (sym same) ∙ ((parse_digest_iff r.digest digest).0 p).0

-- Each layer of an envelope becomes a descriptor with its digest.
to_descriptors-Elem :
    (rs : List ManifestResource) (ds : List Descriptor) (r : ManifestResource)
    → to_descriptors rs ≡ ok ds
    → Elem r rs
    → (d : Descriptor) × Elem d ds × (d.digest ≡ r.digest)
to_descriptors-Elem [] ds r e m = absurd m
to_descriptors-Elem (x ∷ rs) ds r e m =
    let (d, p, k) = >>=-eq-ok (to_descriptor x) _ e in
    let (ks, q, l) = >>=-eq-ok (to_descriptors rs) _ k in
    let same : (d ∷ ks) ≡ ds = cc l in
    elim m [
      | inl a ↦ (
        d,
        rw (sym same) (inl refl),
        to_descriptor-digest x d p ∙ ap (λ (y : ManifestResource). y.digest) (sym a),
      )
      | inr n ↦ let (c, i, s) = to_descriptors-Elem rs ks r q n in (c, rw (sym same) (inr i), s)
    ]

layer-Elem : (m : Manifest) (d : Descriptor) → Elem d m.layers → Elem d (blob_references m)
unfolding blob_references
layer-Elem m d n = through m.config
  where
    through : (c : Option Descriptor) → Elem d (elim c [ none ↦ m.layers | some x ↦ x ∷ m.layers ])
    through none = n
    through (some x) = inr n

config-Elem : (m : Manifest) (d : Descriptor) → m.config ≡ some d → Elem d (blob_references m)
unfolding blob_references
config-Elem m d e = rw e (inl refl)

to_optional-some :
    (r : ManifestResource) (c : Option Descriptor)
    → to_optional (some r) ≡ ok c
    → (d : Descriptor) × (c ≡ some d) × (d.digest ≡ r.digest)
to_optional-some r c e =
    let (d, p, k) = >>=-eq-ok (to_descriptor r) _ e in (d, cc k, to_descriptor-digest r d p)

module _ {site : Site} {payload : List ℕ} {m : Manifest} (r : Read site payload m) where
  -- Each layer of the envelope, and its config, is among the blobs that the manifest refers to.
  pub layer_referenced :
      (l : ManifestResource)
      → Elem l r.envelope.layers
      → (d : Descriptor) × Elem d (blob_references m) × (d.digest ≡ l.digest)
  layer_referenced l n =
      let (d, k, e) = to_descriptors-Elem r.envelope.layers m.layers l r.layers n in
      (d, layer-Elem m d k, e)

  pub config_referenced :
      (c : ManifestResource)
      → r.envelope.config ≡ some c
      → (d : Descriptor) × Elem d (blob_references m) × (d.digest ≡ c.digest)
  config_referenced c e =
      let (d, k, q) = to_optional-some c m.config (rw e at r.config) in (d, config-Elem m d k, q)
