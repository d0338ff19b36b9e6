-- ===== src/BlobStore.antt =====
-- The blob store (internal/infra/storage/fsblob/store.go): blobs below `blobs/<algorithm>/<hex>`,
-- uploads in progress below `uploads/<id>`. Each call of the operating system may fail; a missing
-- file is told apart from other failures.
pub mod Paths
pub mod Addressing
pub mod Operations
pub mod Listing
pub mod Committing
use regixtry.Base.{
  ℕ, zero, suc, ◌+◌, ◌&&◌, ℤ, pos, Bool, true, false, not, List, [], ◌∷◌, ◌++◌, Option, none, some,
  Text, codes, text_eq, length, if◌then◌else◌, Result, ok, err,
}
use regixtry.Errors.{Error, infra}
use regixtry.Registry.Errors.{new_not_found_error, new_digest_mismatch_error}
use regixtry.Registry.Digest.{Digest, parse_digest, digest_from_bytes, algorithm, encoded}
use regixtry.Registry.Descriptor.{Descriptor, validate_digest}
use regixtry.Registry.Repository.{RepositoryRef}
use regixtry.Registry.Repository
use regixtry.Registry.Upload.{UploadState, upload_status_active}
use regixtry.Storage.Files.{
  FilePath, File, Entry, join_path, path_eq, find_file, remove_file, remove_tree, put_file,
  read_dir,
}
use regixtry.Storage.State.{
  State, Site, M, pure, raise, lift, try, ◌>>=◌, ◌>>◌, reject, gets, puts, ask, ask?, statement,
}

-- ports.BlobFileInfo
pub record BlobFileInfo : Type 0 where
  pub digest : Digest
  pub size : ℕ
  pub mod_time : ℕ

-- What an io.Reader yields, and whether it ends in an error.
pub record Reader : Type 0 where
  pub content : List ℕ
  pub broken : Bool

abbrev pub take : ℕ → List ℕ → List ℕ
take zero bs = []
take (suc n) [] = []
take (suc n) (b ∷ bs) = b ∷ take n bs

abbrev pub found : Error → Option File → Result Error File
found e none = err e
found e (some f) = ok f

abbrev pub is_some : Option File → Bool
is_some none = false
is_some (some f) = true

abbrev pub decoded : Option UploadState → Result Error UploadState
decoded none = err infra
decoded (some u) = ok u

module _ (site : Site) where
  unfoldable pub blobs_root : FilePath
  unfolding join_path
  blobs_root = join_path site.root_dir (codes "blobs")

  unfoldable pub uploads_root : FilePath
  unfolding join_path
  uploads_root = join_path site.root_dir (codes "uploads")

  unfoldable pub upload_dir : Text → FilePath
  unfolding join_path uploads_root
  upload_dir upload_id = join_path uploads_root upload_id

  unfoldable pub upload_file : Text → FilePath
  unfolding join_path upload_dir
  upload_file upload_id = join_path (upload_dir upload_id) (codes "data")

  unfoldable pub upload_state_file : Text → FilePath
  unfolding join_path upload_dir
  upload_state_file upload_id = join_path (upload_dir upload_id) (codes "state.json")

  unfoldable pub blob_path : Digest → FilePath
  unfolding join_path blobs_root algorithm encoded
  blob_path digest = join_path (join_path blobs_root (algorithm digest)) (encoded digest)

  -- The path of a file as a text, for the location that an upload reports.
  abbrev pub location : FilePath → Text
  location [] = []
  location (c ∷ p) = location p ++ (b'/' ∷ c)

  -- os.Stat, and opening a file to read it
  unfoldable pub stat : FilePath → M (Option File)
  unfolding find_file
  stat p = do statement site.env; gets (λ s. find_file p s.files)

  -- os.OpenFile, where it creates the file
  unfoldable pub create : FilePath → M (Unit {0})
  unfolding put_file
  create p = do
    statement site.env
    now ← ask site.env.now
    puts (λ s. record s {
      files = put_file (record { path = p; bytes = []; modified = now }) s.files;
    })

  -- os.WriteFile: opening the file may fail, and then it is what it was; where writing fails, it
  -- holds a part of the bytes.
  unfoldable pub write : FilePath → List ℕ → M (Unit {0})
  unfolding put_file
  write p bytes = do
    statement site.env
    refused ← ask site.env.fails
    count ← ask site.written
    now ← ask site.env.now
    let content = if refused then take count bytes else bytes
    puts (λ s. record s {
      files = put_file (record { path = p; bytes = content; modified = now }) s.files;
    })
    reject refused infra

  unfoldable pub write_upload_state : UploadState → M (Unit {0})
  unfolding write upload_state_file
  write_upload_state u = write (upload_state_file u.id) (site.marshal_upload u)

  unfoldable pub read_upload_state : Text → M UploadState
  unfolding stat upload_state_file
  read_upload_state upload_id = do
    file ← stat (upload_state_file upload_id)
    payload ← lift (found (new_not_found_error (codes "upload") upload_id) file)
    lift (decoded (site.unmarshal_upload payload.bytes))

  abbrev pub new_state : Text → RepositoryRef → ℕ → UploadState
  new_state upload_id repository now = record {
    id = upload_id;
    repository = repository;
    status = upload_status_active;
    size = pos 0;
    started_at = now;
    updated_at = now;
    location = location (upload_file upload_id);
  }

  unfoldable pub begin_upload : RepositoryRef → M UploadState
  unfolding Repository.validate upload_file stat create write_upload_state
  begin_upload repository = do
    lift (Repository.validate repository)
    upload_id ← ask? site.env.random
    statement site.env
    old ← stat (upload_file upload_id)
    reject (is_some old) infra
    create (upload_file upload_id)
    statement site.env
    now ← ask site.env.now
    write_upload_state (new_state upload_id repository now)
    pure (new_state upload_id repository now)

  unfoldable pub get_upload : Text → M UploadState
  unfolding read_upload_state stat upload_file
  get_upload upload_id = do
    state ← read_upload_state upload_id
    file ← stat (upload_file upload_id)
    info ← lift (found (new_not_found_error (codes "upload") upload_id) file)
    pure (record state {
      size = pos (length info.bytes);
      updated_at = info.modified;
      location = location (upload_file upload_id);
    })

  abbrev pub appended : File → List ℕ → ℕ → File
  appended f bytes now = record f { bytes = f.bytes ++ bytes; modified = now }

  -- io.Copy to the end of a file: where writing fails, a part may be written.
  unfoldable pub copy_to : File → Reader → M (Unit {0})
  unfolding put_file
  copy_to f content = do
    refused ← ask site.env.fails
    count ← ask site.written
    now ← ask site.env.now
    puts (λ s. record s {
      files =
          put_file
            (appended f (if refused then take count content.content else content.content) now)
            s.files;
    })
    reject refused infra
    reject content.broken infra

  unfoldable pub put_upload_chunk : Text → Reader → M UploadState
  unfolding stat upload_file copy_to get_upload write_upload_state
  put_upload_chunk upload_id content = do
    opened ← stat (upload_file upload_id)
    file ← lift (found (new_not_found_error (codes "upload") upload_id) opened)
    copy_to file content
    state ← get_upload upload_id
    write_upload_state state
    pure state

  -- os.Rename, which replaces the target
  abbrev pub renamed : File → FilePath → State → State
  renamed f target s = record s {
    files = put_file (record f { path = target }) (remove_file f.path s.files);
  }

  -- The rename of CommitUpload: its failure is an error where the system does not report that the
  -- target exists and the blob is not there either.
  unfoldable pub rename_or_exists : File → FilePath → M (Unit {0})
  unfolding put_file remove_file stat
  rename_or_exists f target = do
    refused ← ask site.env.fails
    files ← gets (λ s. s.files)
    exists ← ask (site.is_exist files target)
    let settle = stat target >>= λ there. reject (not (is_some there)) infra
    if not refused then puts (renamed f target) else if exists then pure tt else settle

  unfoldable pub commit_upload : Text → Digest → M Descriptor
  unfolding validate_digest stat upload_file digest_from_bytes text_eq blob_path rename_or_exists
      upload_dir remove_tree
  commit_upload upload_id expected = do
    lift (validate_digest expected)
    opened ← stat (upload_file upload_id)
    file ← lift (found (new_not_found_error (codes "upload") upload_id) opened)
    statement site.env
    let actual = digest_from_bytes site.sha256 file.bytes
    reject (not (text_eq actual expected)) (new_digest_mismatch_error expected actual)
    statement site.env
    rename_or_exists file (blob_path actual)
    statement site.env
    puts (λ s. record s { files = remove_tree (upload_dir upload_id) s.files })
    pure (record { media_type = []; digest = actual; size = pos (length file.bytes) })

  unfoldable pub cancel_upload : Text → M (Unit {0})
  unfolding upload_dir remove_tree
  cancel_upload upload_id = do
    statement site.env
    puts (λ s. record s { files = remove_tree (upload_dir upload_id) s.files })

  unfoldable pub blob_exists : Digest → M Bool
  unfolding validate_digest stat blob_path
  blob_exists digest = do
    lift (validate_digest digest)
    file ← stat (blob_path digest)
    pure (is_some file)

  -- The bytes of the blob stand for the open file.
  unfoldable pub open_blob : Digest → M (List ℕ × Descriptor)
  unfolding validate_digest stat blob_path
  open_blob digest = do
    lift (validate_digest digest)
    opened ← stat (blob_path digest)
    file ← lift (found (new_not_found_error (codes "blob") digest) opened)
    statement site.env
    pure (file.bytes, record { media_type = []; digest = digest; size = pos (length file.bytes) })

  abbrev pub listed_file : Text → Text → Result Error Digest → Option File → M (List BlobFileInfo)
  listed_file algorithm name (ok digest) (some f) =
      statement site.env
      >> pure (record { digest = digest; size = length f.bytes; mod_time = f.modified } ∷ [])
  listed_file algorithm name _ _ = pure []

  -- The entries of one directory of an algorithm.
  unfoldable pub list_digests : Text → List Entry → M (List BlobFileInfo)
  unfolding parse_digest
  list_digests algorithm [] = pure []
  list_digests algorithm (e ∷ es) = do
    blob ← listed_file algorithm e.name (parse_digest (algorithm ++ (b':' ∷ e.name))) e.file
    rest ← list_digests algorithm es
    pure (blob ++ rest)

  abbrev pub in_directory : Option File → M (List BlobFileInfo) → M (List BlobFileInfo)
  in_directory none m = m
  in_directory (some f) m = pure []

  unfoldable pub list_algorithms : List Entry → M (List BlobFileInfo)
  unfolding blobs_root join_path read_dir list_digests
  list_algorithms [] = pure []
  list_algorithms (a ∷ rest_entries) = do
    blobs ← in_directory a.file (do
      statement site.env
      digest_entries ← gets (λ s. read_dir (join_path blobs_root a.name) s.files)
      list_digests a.name digest_entries)
    rest ← list_algorithms rest_entries
    pure (blobs ++ rest)

  unfoldable pub list_blobs : M (List BlobFileInfo)
  unfolding blobs_root read_dir list_algorithms
  list_blobs = do
    statement site.env
    algorithm_entries ← gets (λ s. read_dir blobs_root s.files)
    list_algorithms algorithm_entries

  -- Whether there was a file to remove.
  unfoldable pub delete_blob : Digest → M Bool
  unfolding validate_digest stat blob_path remove_file
  delete_blob digest = do
    lift (validate_digest digest)
    file ← stat (blob_path digest)
    puts (λ s. record s { files = remove_file (blob_path digest) s.files })
    pure (is_some file)
