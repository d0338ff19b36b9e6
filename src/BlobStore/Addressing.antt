-- ===== src/BlobStore/Addressing.antt =====
-- The blob store is addressed by content (internal/infra/storage/fsblob/store.go).
use regixtry.Base.{
  ℕ, true, false, not, List, [], ◌∷◌, Option, none, some, Text, text_eq, text_eq_iff, Elem,
  Elem-keep, find?-Elem, if◌then◌else◌, ◌≡◌, inl, inr, refl, sym, ◌∙◌, arith, Result, ok, err,
  >>=-eq-ok,
}
use regixtry.Errors.{Error}
use regixtry.Registry.Digest.{Digest, digest_from_bytes, parse_digest}
use regixtry.Registry.Digest.Parsing.{IsDigest, parse_digest_iff}
use regixtry.Registry.Descriptor.{validate_digest}
use regixtry.Registry.Repository.{RepositoryRef}
use regixtry.Registry.Upload.{UploadState}
use regixtry.Storage.Files.{
  FilePath, File, Entry, path_eq, find_file, put_file, remove_file, remove_tree,
}
use regixtry.Storage.State.{State, Site, M, ◌>>=◌}
use regixtry.BlobStore.{
  Reader, BlobFileInfo, found, blob_path, stat, create, write, write_upload_state,
  read_upload_state, new_state, begin_upload, get_upload, appended, copy_to, take, put_upload_chunk,
  renamed, rename_or_exists, commit_upload, cancel_upload, blob_exists, open_blob, listed_file,
  list_digests, in_directory, list_algorithms, list_blobs, delete_blob,
}
use regixtry.BlobStore.Paths.{blob_path-inj, upload_file-ne-blob, upload_state_file-ne-blob}
use regixtry.Actions.Keeps.{
  Keeps, Keeps-bind, Keeps-pure, Keeps-if, Keeps-lift, Keeps-gets, Keeps-reject,
}
use regixtry.Actions.States.{
  Of, Keeps-puts, Keeps-asked?, Keeps-lifted, Keeps-rejected, Keeps-read, Keeps-assoc, after_sent,
  after_asked,
}

pub validate_digest-IsDigest : (d : Digest) {a : Unit {0}} → validate_digest d ≡ ok a → IsDigest d
unfolding validate_digest
validate_digest-IsDigest d e =
    let (v, p, q) = >>=-eq-ok (parse_digest d) (λ _. ok tt) e in ((parse_digest_iff d v).0 p).1

module _ {P : State → Type 0} (site : Site) where
  pub stat-Keeps : (p : FilePath) → Keeps (Of P) (stat site p)
  unfolding stat
  stat-Keeps p = after_sent _ _ (λ _. Keeps-gets _)

  pub read_upload_state-Keeps : (id : Text) → Keeps (Of P) (read_upload_state site id)
  unfolding read_upload_state
  read_upload_state-Keeps id =
      Keeps-bind _ _ (stat-Keeps _) (λ _. Keeps-bind _ _ (Keeps-lift _) (λ _. Keeps-lift _))

  pub get_upload-Keeps : (id : Text) → Keeps (Of P) (get_upload site id)
  unfolding get_upload
  get_upload-Keeps id =
      Keeps-bind _ _ (read_upload_state-Keeps id) (λ _.
        Keeps-bind _ _ (stat-Keeps _) (λ _. Keeps-bind _ _ (Keeps-lift _) (λ _. Keeps-pure _)))

  pub blob_exists-Keeps : (d : Digest) → Keeps (Of P) (blob_exists site d)
  unfolding blob_exists
  blob_exists-Keeps d =
      Keeps-bind _ _ (Keeps-lift _) (λ _. Keeps-bind _ _ (stat-Keeps _) (λ _. Keeps-pure _))

  pub open_blob-Keeps : (d : Digest) → Keeps (Of P) (open_blob site d)
  unfolding open_blob
  open_blob-Keeps d = Keeps-bind _ _ (Keeps-lift _) (λ _.
      Keeps-bind _ _ (stat-Keeps _)
        (λ _. Keeps-bind _ _ (Keeps-lift _) (λ _. after_sent _ _ (λ _. Keeps-pure _))))

  listed_file-Keeps :
      (a n : Text) (r : Result Error Digest) (f : Option File)
      → Keeps (Of P) (listed_file site a n r f)
  listed_file-Keeps a n (ok d) (some f) = after_sent _ _ (λ _. Keeps-pure _)
  listed_file-Keeps a n (ok d) none = Keeps-pure _
  listed_file-Keeps a n (err e) f = Keeps-pure _

  list_digests-Keeps : (a : Text) (es : List Entry) → Keeps (Of P) (list_digests site a es)
  unfolding list_digests
  list_digests-Keeps a [] = Keeps-pure _
  list_digests-Keeps a (e ∷ es) =
      Keeps-bind _ _ (listed_file-Keeps a e.name _ e.file)
        (λ _. Keeps-bind _ _ (list_digests-Keeps a es) (λ _. Keeps-pure _))

  in_directory-Keeps :
      (f : Option File) (m : M (List BlobFileInfo))
      → Keeps (Of P) m
      → Keeps (Of P) (in_directory site f m)
  in_directory-Keeps none m k = k
  in_directory-Keeps (some f) m k = Keeps-pure _

  list_algorithms-Keeps : (es : List Entry) → Keeps (Of P) (list_algorithms site es)
  unfolding list_algorithms
  list_algorithms-Keeps [] = Keeps-pure _
  list_algorithms-Keeps (e ∷ es) =
      Keeps-bind _ _
        (in_directory-Keeps e.file _ (
          after_sent _ _
            (λ _. Keeps-bind _ _ (Keeps-gets _) (λ rows. list_digests-Keeps e.name rows))))
        (λ _. Keeps-bind _ _ (list_algorithms-Keeps es) (λ _. Keeps-pure _))

  pub list_blobs-Keeps : Keeps (Of P) (list_blobs site)
  unfolding list_blobs
  list_blobs-Keeps =
      after_sent _ _ (λ _. Keeps-bind _ _ (Keeps-gets _) (λ es. list_algorithms-Keeps es))

pub found-some : (e : Error) (o : Option File) {f : File} → found e o ≡ ok f → o ≡ some f
found-some e none q = cc q
found-some e (some g) q = cc q

pub path_eq-eq : (p q : FilePath) → path_eq p q ≡ true → p ≡ q
unfolding path_eq
path_eq-eq [] [] e = refl
path_eq-eq [] (b ∷ q) e = cc e
path_eq-eq (a ∷ p) [] e = cc e
path_eq-eq (a ∷ p) (b ∷ q) e = ground (arith, text_eq_iff a b, path_eq-eq p q)

pub find_file-path :
    (p : FilePath) (fs : List File) {f : File} → find_file p fs ≡ some f → f.path ≡ p
unfolding find_file
find_file-path p fs {f} e = path_eq-eq f.path p (find?-Elem _ fs e).1

module _ (site : Site) where
  -- The contents of the file hash to the digest that its path spells, where it spells one.
  abbrev pub IsAddressed : File → Type 0
  IsAddressed f =
      (d : Digest)
      → IsDigest d
      → f.path ≡ blob_path site d
      → digest_from_bytes site.sha256 f.bytes ≡ d

  abbrev pub Addressed : State → Type 0
  Addressed s = (f : File) → Elem f s.files → IsAddressed f

  put_file-Addressed :
      (f : File) (s : State)
      → IsAddressed f
      → Addressed s
      → Addressed (record s { files = put_file f s.files })
  unfolding put_file remove_file
  put_file-Addressed f s k h g (inl e) = rw e k
  put_file-Addressed f s k h g (inr m) = h g (Elem-keep _ s.files m).0

  remove_file-Addressed :
      (p : FilePath) (s : State)
      → Addressed s
      → Addressed (record s { files = remove_file p s.files })
  unfolding remove_file
  remove_file-Addressed p s h g m = h g (Elem-keep _ s.files m).0

  remove_tree-Addressed :
      (p : FilePath) (s : State)
      → Addressed s
      → Addressed (record s { files = remove_tree p s.files })
  unfolding remove_tree
  remove_tree-Addressed p s h g m = h g (Elem-keep _ s.files m).0

  write-Addressed :
      (p : FilePath) (bytes : List ℕ)
      → ((d : Digest) → IsDigest d → ¬ (p ≡ blob_path site d))
      → Keeps (Of Addressed) (write site p bytes)
  unfolding write
  write-Addressed p bytes n = after_sent _ _ (λ _. after_asked _ _ (λ refused.
      after_asked _ _ (λ count. after_asked _ _ (λ now.
        Keeps-bind _ _ (Keeps-puts _ (λ s h. put_file-Addressed _ s (λ d k e. absurd (n d k e)) h))
          (λ _. Keeps-reject _ _)))))

  create-Addressed :
      (p : FilePath)
      → ((d : Digest) → IsDigest d → ¬ (p ≡ blob_path site d))
      → Keeps (Of Addressed) (create site p)
  unfolding create
  create-Addressed p n = after_sent _ _ (λ _.
      after_asked _ _
        (λ now. Keeps-puts _ (λ s h. put_file-Addressed _ s (λ d k e. absurd (n d k e)) h)))

  write_upload_state-Addressed :
      (u : UploadState) → Keeps (Of Addressed) (write_upload_state site u)
  unfolding write_upload_state
  write_upload_state-Addressed u =
      write-Addressed _ _ (λ d k e. upload_state_file-ne-blob site u.id d k e)

  pub begin_upload-Addressed : (r : RepositoryRef) → Keeps (Of Addressed) (begin_upload site r)
  unfolding begin_upload
  begin_upload-Addressed r = Keeps-bind _ _ (Keeps-lift _) (λ _.
      Keeps-bind _ _ (Keeps-asked? _) (λ id. after_sent _ _ (λ _.
        Keeps-bind _ _ (stat-Keeps site _) (λ _. Keeps-bind _ _ (Keeps-reject _ _) (λ _.
          Keeps-bind _ _ (create-Addressed _ (λ d k e. upload_file-ne-blob site id d k e)) (λ _.
            after_sent _ _ (λ _. after_asked _ _ (λ now.
              Keeps-bind _ _ (write_upload_state-Addressed (new_state site id r now))
                (λ _. Keeps-pure _)))))))))

  stat-found :
      {B : Type 0} {P : State → Type 0} (p : FilePath) (k : Option File → M B)
      → ((o : Option File) → ((f : File) → o ≡ some f → f.path ≡ p) → Keeps (Of P) (k o))
      → Keeps (Of P) (stat site p >>= k)
  unfolding stat
  stat-found p k h = Keeps-assoc _ _ k (
      after_sent _ _ (λ _.
        Keeps-read (λ (o : Option File). (f : File) → o ≡ some f → f.path ≡ p) _ k
          (λ s _ f e. find_file-path p s.files e) h))

  copy_to-Addressed :
      (f : File) (content : Reader)
      → ((d : Digest) → IsDigest d → ¬ (f.path ≡ blob_path site d))
      → Keeps (Of Addressed) (copy_to site f content)
  unfolding copy_to
  copy_to-Addressed f content n = after_asked _ _ (λ refused. after_asked _ _ (λ count.
      after_asked _ _ (λ now.
        Keeps-bind _ _
          (Keeps-puts _ (λ s h.
            put_file-Addressed
              (appended site f (if refused then take count content.content else content.content)
                now)
              s (λ d k e. absurd (n d k e)) h))
          (λ _. Keeps-bind _ _ (Keeps-reject _ _) (λ _. Keeps-reject _ _)))))

  pub put_upload_chunk-Addressed :
      (id : Text) (content : Reader) → Keeps (Of Addressed) (put_upload_chunk site id content)
  unfolding put_upload_chunk
  put_upload_chunk-Addressed id content = stat-found _ _ (λ o at. Keeps-lifted _ _ (λ f e.
      Keeps-bind _ _
        (copy_to-Addressed f content
          (λ d k q. upload_file-ne-blob site id d k (sym (at f (found-some _ o e)) ∙ q)))
        (λ _.
          Keeps-bind _ _ (get_upload-Keeps site id)
            (λ u. Keeps-bind _ _ (write_upload_state-Addressed u) (λ _. Keeps-pure _)))))

  renamed-Addressed :
      (f : File) (d : Digest) (s : State)
      → IsDigest d
      → digest_from_bytes site.sha256 f.bytes ≡ d
      → Addressed s
      → Addressed (renamed site f (blob_path site d) s)
  renamed-Addressed f d s k q h =
      put_file-Addressed (record f { path = blob_path site d })
        (record s { files = remove_file f.path s.files })
        (λ e m p. q ∙ blob_path-inj site d e k m p) (remove_file-Addressed f.path s h)

  rename-Addressed :
      (f : File) (d : Digest)
      → IsDigest d
      → digest_from_bytes site.sha256 f.bytes ≡ d
      → Keeps (Of Addressed) (rename_or_exists site f (blob_path site d))
  unfolding rename_or_exists
  rename-Addressed f d k q = after_asked _ _ (λ refused. Keeps-bind _ _ (Keeps-gets _) (λ files.
      after_asked _ _ (λ exists.
        Keeps-if _ _ _ (Keeps-puts _ (λ s h. renamed-Addressed f d s k q h)) (
          Keeps-if _ _ _ (Keeps-pure _)
            (Keeps-bind _ _ (stat-Keeps site _) (λ _. Keeps-reject _ _))))))

  pub commit_upload-Addressed :
      (id : Text) (expected : Digest) → Keeps (Of Addressed) (commit_upload site id expected)
  unfolding commit_upload
  commit_upload-Addressed id expected = Keeps-lifted _ _ (λ _ valid.
      Keeps-bind _ _ (stat-Keeps site _) (λ o. Keeps-bind _ _ (Keeps-lift _) (λ f.
        after_sent _ _ (λ _. Keeps-rejected _ _ _ (λ e. after_sent _ _ (λ _.
          let actual = digest_from_bytes site.sha256 f.bytes in
          let same : actual ≡ expected = matches actual expected e in
          let k : IsDigest actual = rw same (validate_digest-IsDigest expected valid) in
          Keeps-bind _ _ (rename-Addressed f actual k refl) (λ _. after_sent _ _ (λ _.
            Keeps-bind _ _ (Keeps-puts _ (λ s h. remove_tree-Addressed _ s h))
              (λ _. Keeps-pure _)))))))))
    where
      matches : (a b : Text) → not (text_eq a b) ≡ false → a ≡ b
      matches a b e = ground (arith, text_eq_iff a b)

  pub cancel_upload-Addressed : (id : Text) → Keeps (Of Addressed) (cancel_upload site id)
  unfolding cancel_upload
  cancel_upload-Addressed id =
      after_sent _ _ (λ _. Keeps-puts _ (λ s h. remove_tree-Addressed _ s h))

  pub delete_blob-Addressed : (d : Digest) → Keeps (Of Addressed) (delete_blob site d)
  unfolding delete_blob
  delete_blob-Addressed d = Keeps-bind _ _ (Keeps-lift _) (λ _.
      Keeps-bind _ _ (stat-Keeps site _) (λ _.
        Keeps-bind _ _ (Keeps-puts _ (λ s h. remove_file-Addressed _ s h)) (λ _. Keeps-pure _)))
