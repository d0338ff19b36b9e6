-- ===== src/RegistryService/Manifests/Complete.antt =====
-- A published manifest is complete (PublishManifest of internal/app/regixtry/service.go).
use regixtry.Base.{
  ℕ, true, List, [], ◌∷◌, Option, none, some, Text, Elem, Elem-map, find?-Elem, ◌≡◌, inl, inr, refl,
  sym, ◌∙◌, ap, arith, Result, ok, err,
}
use regixtry.Errors.{Error}
use regixtry.Registry.Digest.{Digest, digest_from_bytes}
use regixtry.Registry.Descriptor.{Descriptor}
use regixtry.Registry.Manifest.{Manifest, blob_references}
use regixtry.Auth.Principal.{Principal}
use regixtry.Registry.Repository.{RepositoryRef}
use regixtry.Storage.Files.{File, find_file}
use regixtry.Storage.State.{State, World, Site, Request, ManifestResource, ManifestEnvelope}
use regixtry.BlobStore.{is_some, stat, blob_path, blob_exists}
use regixtry.BlobStore.Addressing.{find_file-path}
use regixtry.MetadataStore.Manifests as Rows
use regixtry.MetadataStore.Integrity.Publishing.{per_row-Keeps}
use regixtry.RegistryService.Requests.{
  ManifestDetails, BlobDetails, new_blob_details, new_manifest_details, authorize,
}
use regixtry.RegistryService.Manifests.Payload.{
  Read, parse_manifest_payload-Read, layer_referenced, config_referenced,
}
use regixtry.RegistryService.Manifests.{
  pushed, require_blobs, subject_error, require_subject, publish_manifest,
}
use regixtry.Actions.Keeps.{
  Keeps, Keeps-bind, Keeps-pure, Keeps-lift, Keeps-gets, Keeps-raise, Keeps-try,
}
use regixtry.Actions.States.{Of, Keeps-puts, Keeps-sent, Keeps-when, after_sent, after_asked}
use regixtry.Actions.Triples.{
  Triple, then_do, kept, returns, rejects, lifts, reads, given, returned, weaken,
}

abbrev Anything : World → Type 0
Anything w = Unit

-- The files stay what they are.
abbrev Files : List File → World → Type 0
Files fs = Of (λ (s : State). s.files ≡ fs)

abbrev pub HasBlob : Site → List File → Digest → Type 0
HasBlob site fs d = (f : File) × Elem f fs × (f.path ≡ blob_path site d)

module _ (site : Site) (fs : List File) where
  list_blobs-Files :
      (tenant : Text) (repository : RepositoryRef) (d : Digest)
      → Keeps (Files fs) (Rows.list_manifest_blobs site tenant repository d)
  unfolding Rows.list_manifest_blobs
  list_blobs-Files tenant repository d = Keeps-bind _ _ (Keeps-lift _) (λ _.
      Keeps-bind _ _ (Keeps-lift _)
        (λ _. after_sent _ _ (λ _. Keeps-bind _ _ (Keeps-gets _) (λ _. Keeps-lift _))))

  resolve-Files :
      (tenant : Text) (repository : RepositoryRef) (reference : Text)
      → Keeps (Files fs) (Rows.resolve_manifest site tenant repository reference)
  unfolding Rows.resolve_manifest
  resolve-Files tenant repository reference = Keeps-bind _ _ (Keeps-lift _) (λ _.
      after_sent _ _ (λ _. Keeps-bind _ _ (Keeps-gets _) (λ _. Keeps-bind _ _ (Keeps-lift _) (λ m.
        Keeps-bind _ _ (list_blobs-Files tenant repository _)
          (λ _. Keeps-bind _ _ (Keeps-lift _) (λ _. Keeps-pure _))))))

  publish-Files :
      (tenant : Text) (repository : RepositoryRef) (tag : Text) (m : Manifest)
      (ds : List Descriptor)
      → Keeps (Files fs) (Rows.publish_manifest site tenant repository tag m ds)
  unfolding Rows.publish_manifest
  publish-Files tenant repository tag m ds = Keeps-bind _ _ (Keeps-lift _) (λ _.
      Keeps-bind _ _ (Keeps-lift _) (λ _. Keeps-bind _ _ (Keeps-lift _) (λ _. after_sent _ _ (λ _.
        Keeps-bind _ _ (Keeps-gets _) (λ _. after_asked _ _ (λ _. after_sent _ _ (λ _.
          after_sent _ _ (λ _. Keeps-bind _ _ (Keeps-lift _) (λ _. after_asked _ _ (λ _.
            after_sent _ _ (λ _. after_sent _ _ (λ _. Keeps-bind _ _ (Keeps-lift _) (λ _.
              after_sent _ _ (λ _. Keeps-bind _ _ (per_row-Keeps site ds) (λ _.
                after_asked _ _ (λ _. after_asked _ _ (λ _.
                  Keeps-bind _ _ (Keeps-when _ _ (Keeps-sent _))
                    (λ _. after_sent _ _ (λ _. Keeps-puts _ (λ s h. h))))))))))))))))))))

  subject_error-Files :
      (d : Digest) (name : Text) (r : Result Error Manifest)
      → Keeps (Files fs) (subject_error site d name r)
  subject_error-Files d name (ok m) = Keeps-pure tt
  subject_error-Files d name (err e) = Keeps-raise _

  require_subject-Files :
      (tenant : Text) (repository : RepositoryRef) (subject : Option Descriptor)
      → Keeps (Files fs) (require_subject site tenant repository subject)
  unfolding require_subject
  require_subject-Files tenant repository none = Keeps-pure tt
  require_subject-Files tenant repository (some d) =
      Keeps-bind _ _ (Keeps-try _ (resolve-Files tenant repository d.digest))
        (λ r. subject_error-Files d.digest repository.name r)

  found :
      (o : Option File) (d : Digest)
      → find_file (blob_path site d) fs ≡ o
      → is_some o ≡ true
      → HasBlob site fs d
  unfolding find_file
  found none d e h = cc h
  found (some f) d e h =
      (f, (find?-Elem _ fs e).0, unfold find_file in find_file-path (blob_path site d) fs e)

  blob_exists-There :
      (d : Digest)
      → Triple
          (Files fs)
          (blob_exists site d)
          (λ b w. (b ≡ true → HasBlob site fs d) × Files fs w)
          Anything
  unfolding blob_exists stat
  blob_exists-There d = then_do {Q = λ _. Files fs} (lifts _ (λ _ w h e. h) (λ w h. tt)) (λ _.
      then_do {Q = λ o w. ((find_file (blob_path site d) fs ≡ o) × Files fs w)}
        (then_do (kept (Keeps-sent site.env) (λ w h. tt))
          (λ _. reads _ (λ w h. (ap (find_file (blob_path site d)) (sym h.holds), h))))
        (λ o. given (λ e. returns _ (λ w h. (found o d e, h)))))

  require_blobs-There :
      (ds : List Descriptor)
      → Triple
          (Files fs)
          (require_blobs site ds)
          (λ _ w. ((d : Descriptor) → Elem d ds → HasBlob site fs d.digest) × Files fs w)
          Anything
  unfolding require_blobs
  require_blobs-There [] = returns _ (λ w h. (λ d m. absurd m, h))
  require_blobs-There (d ∷ ds) = then_do (blob_exists-There d.digest) (λ b. given (λ there.
      then_do {Q = λ _ w. ((b ≡ true) × Files fs w)}
        (rejects _ _ (λ w h e. (ground arith, h)) (λ w h. tt))
        (λ _. given (λ yes.
          weaken (λ w h. h) (require_blobs-There ds)
            (λ _ w k. (λ x m. one x (there yes) k.0 m, k.1))))))
    where
      one :
          (x : Descriptor)
          → HasBlob site fs d.digest
          → ((y : Descriptor) → Elem y ds → HasBlob site fs y.digest)
          → Elem x (d ∷ ds)
          → HasBlob site fs x.digest
      one x h k (inl e) = rw e h
      one x h k (inr m) = k x m

  -- What the answer to a push shows of the store, for the payload.
  Shown : List ℕ → ManifestDetails → Type 0
  Shown payload r =
      ((b : BlobDetails) → Elem b r.blobs → HasBlob site fs b.digest)
      × (m : Manifest) × Read site payload m
      × ((d : Descriptor) → Elem d (blob_references m) → HasBlob site fs d.digest)
      × (r.digest ≡ m.digest)

  listed :
      (name reference : Text) (m : Manifest) (ds : List Descriptor)
      → ((d : Descriptor) → Elem d ds → HasBlob site fs d.digest)
      → (b : BlobDetails) → Elem b (new_manifest_details name reference m ds).blobs
      → HasBlob site fs b.digest
  unfolding new_manifest_details new_blob_details
  listed name reference m ds h b n =
      let (d, k, e) = Elem-map (new_blob_details name) b ds n in rw e (h d k)

  shown :
      (name reference : Text) (payload : List ℕ) (p : Option Principal) (m : Manifest)
      → Read site payload m
      → ((d : Descriptor) → Elem d (blob_references (pushed p m)) → HasBlob site fs d.digest)
      → Shown payload
          (new_manifest_details name reference (pushed p m) (blob_references (pushed p m)))
  unfolding new_manifest_details blob_references Shown
  shown name reference payload none m r h = (listed name reference m _ h, m, r, h, refl)
  shown name reference payload (some p) m r h =
      (listed name reference (pushed (some p) m) _ h, m, r, h, refl)

  publish_manifest-Shown :
      (req : Request) (name reference media_type : Text) (payload : List ℕ)
      → Triple
          (Files fs)
          (publish_manifest site req name reference media_type payload)
          (λ r w. Shown payload r × Files fs w)
          Anything
  unfolding publish_manifest authorize
  publish_manifest-Shown req name reference media_type payload =
      then_do (kept (Keeps-lift _) (λ w h. tt)) (λ repository.
        then_do (kept (Keeps-lift _) (λ w h. tt)) (λ _.
          then_do {Q = λ x w. Read site payload x.0 × Files fs w}
            (lifts _
              (λ x w h e.
                (parse_manifest_payload-Read site reference media_type payload x.0 x.1 e, h))
              (λ w h. tt))
            (λ read. given (λ source.
              let m = pushed req.principal read.0 in
              then_do (require_blobs-There (blob_references m)) (λ _. given (λ there.
                then_do (kept (require_subject-Files req.tenant repository m.subject) (λ w h. tt))
                  (λ _.
                    then_do
                      (kept (publish-Files req.tenant repository read.1 m (blob_references m))
                        (λ w h. tt))
                      (λ _.
                        then_do (kept (Keeps-when _ _ (Keeps-puts _ (λ s h. h))) (λ w h. tt)) (λ _.
                          returns _ (λ w h. (
                            shown repository.name reference payload req.principal read.0 source
                                there,
                            h,
                          )))))))))))

-- The blob of the digest is a file, before and after.
abbrev pub Kept : Site → List File → List File → Digest → Type 0
Kept site before after d = HasBlob site before d × HasBlob site after d

-- What is so of a push that succeeded.
pub record Complete (site : Site) (before after : List File) (payload : List ℕ)
    (r : ManifestDetails) : Type 0 where
  pub envelope : ManifestEnvelope
  pub decoded : site.unmarshal_manifest payload ≡ some envelope
  pub config : (c : ManifestResource) → envelope.config ≡ some c → Kept site before after c.digest
  pub layers : (l : ManifestResource) → Elem l envelope.layers → Kept site before after l.digest
  pub listed : (b : BlobDetails) → Elem b r.blobs → Kept site before after b.digest
  pub hashed : r.digest ≡ digest_from_bytes site.sha256 payload

complete :
    (site : Site) (before after : List File) (payload : List ℕ) (r : ManifestDetails)
    → Shown site before payload r
    → after ≡ before
    → Complete site before after payload r
unfolding Shown
complete site before after payload r (listed, m, source, there, same) e = record {
  envelope = source.envelope;
  decoded = source.decoded;
  config =
      λ c q. let (d, n, k) = config_referenced source c q in both c.digest (rw (sym k) (there d n));
  layers =
      λ l q. let (d, n, k) = layer_referenced source l q in both l.digest (rw (sym k) (there d n));
  listed = λ b n. both b.digest (listed b n);
  hashed = same ∙ source.hashed;
}
  where
    both : (d : Digest) → HasBlob site before d → Kept site before after d
    both d (f, n, p) = ((f, n, p), (f, rw e n, p))

-- Where a push succeeds, the config and every layer of the manifest that the payload encodes, and
-- each blob that the answer lists, is a file of the blob store under its digest, before the push and
-- after it; and the digest in the answer is that of the payload.
pub publish_manifest-HasBlob :
    (site : Site) (req : Request) (name reference media_type : Text) (payload : List ℕ) (w : World)
    (r : ManifestDetails)
    → (publish_manifest site req name reference media_type payload w).0 ≡ ok r
    → Complete site w.db.files
        (publish_manifest site req name reference media_type payload w).1.db.files
        payload
        r
publish_manifest-HasBlob site req name reference media_type payload w r e =
    let (h, k) =
      returned w r (publish_manifest-Shown site w.db.files req name reference media_type payload)
        (record { holds = refl }) e in
    complete site w.db.files _ payload r h k.holds
