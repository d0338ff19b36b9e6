-- ===== src/BlobStore/Committing.antt =====
-- Committing an upload is an insertion into a map from digests to contents (CommitUpload of
-- internal/infra/storage/fsblob/store.go).
pub mod Lookups
use regixtry.Base.{
  ℕ, Bool, true, false, not, ◌&&◌, List, [], ◌∷◌, Option, none, some, Text, text_eq, text_eq_iff,
  Elem, find?-Elem, Bool-cases, if◌then◌else◌, ◌≡◌, ◌≢◌, ◌⊎◌, inl, inr, refl, sym, ◌∙◌, ap, arith,
  Result, ok, err,
}
use regixtry.Registry.Digest.{Digest, digest_from_bytes}
use regixtry.Registry.Digest.Parsing.{IsDigest}
use regixtry.Registry.Descriptor.{Descriptor}
use regixtry.Registry.Errors.{new_not_found_error}
use regixtry.Storage.Files.{FilePath, File, find_file, remove_tree}
use regixtry.Storage.State.{State, World, Site, M, ask, statement}
use regixtry.BlobStore.{
  is_some, upload_file, upload_dir, blob_path, stat, renamed, rename_or_exists, commit_upload,
}
use regixtry.BlobStore.Paths.{IsName, blob_path-inj, upload_file-ne-blob}
use regixtry.BlobStore.Addressing.{Addressed, validate_digest-IsDigest, found-some, find_file-path}
use regixtry.BlobStore.Listing.{Is}
use regixtry.BlobStore.Committing.Lookups.{
  find_file-put_same, find_file-put_other, find_file-remove_other, find_file-remove_tree,
  blob-outside, find_file-Elem,
}
use regixtry.Actions.Keeps.{Keeps-statement}
use regixtry.Actions.States.{Of, Keeps-sent, Keeps-asked}
use regixtry.Actions.Triples.{
  Triple, then_do, kept, asks, returns, rejects, lifts, reads, writes, given, returned,
}

abbrev contents : Option File → Option (List ℕ)
contents none = none
contents (some f) = some f.bytes

-- The store as a map from digests to contents.
unfoldable pub blob_at : Site → List File → Digest → Option (List ℕ)
unfolding find_file blob_path
blob_at site fs d = contents (find_file (blob_path site d) fs)

-- The digest had contents with that hash before, and has the same ones after.
abbrev pub Had : Site → List File → List File → Digest → Type 0
Had site before after d =
    (bytes : List ℕ) × (blob_at site before d ≡ some bytes)
    × (blob_at site after d ≡ some bytes)
    × (digest_from_bytes site.sha256 bytes ≡ d)

-- The files after are those before with the upload's contents under the digest, which is their
-- hash, where the digest had none.
pub record Inserted (site : Site) (before after : List File) (id : Text) (d : Digest) : Type 0 where
  pub uploaded : List ℕ
  pub sent : contents (find_file (upload_file site id) before) ≡ some uploaded
  pub hashed : digest_from_bytes site.sha256 uploaded ≡ d
  pub stored : (blob_at site after d ≡ some uploaded) ⊎ Had site before after d
  pub others : (e : Digest) → IsDigest e → e ≢ d → blob_at site after e ≡ blob_at site before e

abbrev Anything : World → Type 0
Anything w = Unit

-- The system reports that a target exists only where it does.
abbrev pub Truthful : Site → Type 0
Truthful site =
    (files : List File) (p : FilePath) (n : ℕ)
    → site.is_exist files p n ≡ true
    → is_some (find_file p files) ≡ true

module _ (site : Site) (s : State) (id : Text) (d : Digest) (k : IsDigest d) where
  abbrev Done : World → Type 0
  Done w = Inserted site s.files w.db.files id d

  renamed-Done :
      (f : File)
      → find_file (upload_file site id) s.files ≡ some f
      → digest_from_bytes site.sha256 f.bytes ≡ d
      → Inserted site s.files (renamed site f (blob_path site d) s).files id d
  unfolding blob_at
  renamed-Done f sent hash = record {
    uploaded = f.bytes;
    sent = rw sent refl;
    hashed = hash;
    stored = inl (rw (find_file-put_same (record f { path = blob_path site d }) _) refl);
    others = λ e h n.
        rw
          (
            find_file-put_other (record f { path = blob_path site d }) (blob_path site e) _
                (λ q. n (blob_path-inj site e d h k q)),
            find_file-remove_other (blob_path site e) f.path s.files (λ q.
                upload_file-ne-blob site id e h
                  (sym (find_file-path (upload_file site id) s.files sent) ∙ sym q)),
          )
          refl;
  }

  there-Had :
      (o : Option File)
      → Addressed site s
      → find_file (blob_path site d) s.files ≡ o
      → is_some o ≡ true
      → Had site s.files s.files d
  unfolding blob_at
  there-Had none h e q = cc q
  there-Had (some f) h e q = (
    f.bytes,
    rw e refl,
    rw e refl,
    h f (find_file-Elem (blob_path site d) s.files e) d k
        (find_file-path (blob_path site d) s.files e),
  )

  there-Done :
      (f : File) (o : Option File)
      → find_file (upload_file site id) s.files ≡ some f
      → digest_from_bytes site.sha256 f.bytes ≡ d
      → Addressed site s
      → find_file (blob_path site d) s.files ≡ o
      → is_some o ≡ true
      → Inserted site s.files s.files id d
  there-Done f o sent hash h e q = record {
    uploaded = f.bytes;
    sent = rw sent refl;
    hashed = hash;
    stored = inr (there-Had o h e q);
    others = λ x a n. refl;
  }

  stat-Is :
      (p : FilePath)
      → Triple (Is s) (stat site p) (λ o w. (find_file p s.files ≡ o) × Is s w) Anything
  unfolding stat
  stat-Is p =
      then_do (kept (Keeps-sent site.env) (λ w h. tt))
        (λ _. reads _ (λ w h. (ap (λ (x : State). find_file p x.files) (sym h.holds), h)))

  unchanged : (w : World) → Inserted site s.files s.files id d → Is s w → Done w
  unchanged w i h = rw (ap (λ (x : State). x.files) h.holds) i

  rename-Done :
      (f : File)
      → Truthful site
      → Addressed site s
      → find_file (upload_file site id) s.files ≡ some f
      → digest_from_bytes site.sha256 f.bytes ≡ d
      → Triple (Is s) (rename_or_exists site f (blob_path site d)) (λ _. Done) Anything
  unfolding rename_or_exists
  rename-Done f truthful all sent hash =
      then_do {Q = λ _. Is s} (kept (Keeps-asked _) (λ w h. tt)) (λ refused.
        then_do {Q = λ fs w. (s.files ≡ fs) × Is s w}
          (reads _ (λ w h. (sym (ap (λ (x : State). x.files) h.holds), h)))
          (λ fs. given (λ same.
            then_do
              {Q = λ b w.
                (b ≡ true → is_some (find_file (blob_path site d) s.files) ≡ true) × Is s w}
              (reported truthful fs same)
              (λ exists. given (λ there. elim (Bool-cases (not refused)) [
                | inl q ↦ rw q (
                    writes _ (λ w h.
                      rw (ap (λ (x : State). (renamed site f (blob_path site d) x).files) h.holds)
                        (renamed-Done f sent hash)))
                | inr q ↦ rw q (elim (Bool-cases exists) [
                  | inl r ↦ rw r (
                      returns _
                        (λ w h. unchanged w (there-Done f _ sent hash all refl (there r)) h))
                  | inr r ↦ rw r (
                      then_do (stat-Is (blob_path site d)) (λ o. given (λ found.
                        rejects _ _
                          (λ w h n.
                            unchanged w (there-Done f o sent hash all found (ground arith)) h)
                          (λ w h. tt))))
                ])
              ])))))
    where
      reported :
          Truthful site
          → (fs : List File) → s.files ≡ fs
          → Triple
              (Is s)
              (ask (site.is_exist fs (blob_path site d)))
              (λ b w. (b ≡ true → is_some (find_file (blob_path site d) s.files) ≡ true) × Is s w)
              Anything
      reported truthful fs same =
          asks {C = λ b. b ≡ true → is_some (find_file (blob_path site d) s.files) ≡ true} _
            (λ n e. rw same (truthful fs (blob_path site d) n e))

  removed-Done :
      (fs : List File)
      → IsName id
      → Inserted site s.files fs id d
      → Inserted site s.files (remove_tree (upload_dir site id) fs) id d
  unfolding blob_at
  removed-Done fs name i = record {
    uploaded = i.uploaded;
    sent = i.sent;
    hashed = i.hashed;
    stored =
        rw
          (find_file-remove_tree (blob_path site d) (upload_dir site id) fs
            (blob-outside site id d name k))
          i.stored;
    others = λ e h n.
        rw
          (find_file-remove_tree (blob_path site e) (upload_dir site id) fs
            (blob-outside site id e name h))
          (i.others e h n);
  }

commit_upload-Done :
    (site : Site) (s : State) (id : Text) (d : Digest)
    → Truthful site
    → Addressed site s
    → IsName id
    → Triple
        (Is s)
        (commit_upload site id d)
        (λ r w. (r.digest ≡ d) × Inserted site s.files w.db.files id d)
        Anything
unfolding commit_upload
commit_upload-Done site s id d truthful all name =
    then_do {Q = λ _ w. (IsDigest d × Is s w)}
      (lifts _ (λ _ w h e. (validate_digest-IsDigest d e, h)) (λ w h. tt))
      (λ _. given (λ k. then_do (stat-Is site s id d k (upload_file site id)) (λ o. given (λ e.
        then_do {Q = λ f w. ((find_file (upload_file site id) s.files ≡ some f) × Is s w)}
          (lifts _ (λ f w h q. (e ∙ found-some _ o q, h)) (λ w h. tt))
          (λ f. given (λ sent.
            then_do {Q = λ _. Is s} (kept (Keeps-sent site.env) (λ w h. tt)) (λ _.
              then_do {Q = λ _ w. ((digest_from_bytes site.sha256 f.bytes ≡ d) × Is s w)}
                (rejects _ _ (λ w h q. (matches _ d q, h)) (λ w h. tt))
                (λ _. given (λ hash.
                  then_do {Q = λ _. Is s} (kept (Keeps-sent site.env) (λ w h. tt)) (λ _.
                    then_do (rename_actual k f _ sent refl hash) (λ _.
                      then_do {Q = λ _. Done site s id d k} (settled k) (λ _.
                        then_do {Q = λ _. Done site s id d k}
                          (writes _ (λ w h. removed-Done site s id d k w.db.files name h))
                          (λ _. returns _ (λ w h. (hash, h)))))))))))))))
  where
    matches : (a b : Text) → not (text_eq a b) ≡ false → a ≡ b
    matches a b q = ground (arith, text_eq_iff a b)

    rename_actual :
        (k : IsDigest d) (f : File) (actual : Digest)
        → find_file (upload_file site id) s.files ≡ some f
        → actual ≡ digest_from_bytes site.sha256 f.bytes
        → actual ≡ d
        → Triple
            (Is s)
            (rename_or_exists site f (blob_path site actual))
            (λ _. Done site s id d k)
            Anything
    rename_actual k f actual sent own hash =
        rw hash (rename-Done site s id d k f truthful all sent (sym own ∙ hash))

    settled :
        (k : IsDigest d)
        → Triple (Done site s id d k) (statement site.env) (λ _. Done site s id d k) Anything
    settled k = kept (Keeps-statement (record { next = λ w h. h }) site.env) (λ w h. tt)

-- A commit that succeeds inserts the contents of the upload into the map from digests to contents:
-- the upload has contents that hash to the digest asked for, which has these contents afterwards,
-- or keeps contents with the same hash that it had before; and every other digest has what it had.
-- The store before is addressed by content, the id of the upload is a plain name, and the system
-- reports that the target of a rename exists only where it does.
pub commit_upload-Inserted :
    (site : Site) (id : Text) (expected : Digest) (w : World) (r : Descriptor)
    → Truthful site
    → Addressed site w.db
    → IsName id
    → (commit_upload site id expected w).0 ≡ ok r
    → (r.digest ≡ expected)
      × Inserted site w.db.files (commit_upload site id expected w).1.db.files id expected
commit_upload-Inserted site id expected w r truthful all name e =
    returned w r (commit_upload-Done site w.db id expected truthful all name)
      (record { holds = refl }) e
