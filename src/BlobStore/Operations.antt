-- ===== src/BlobStore/Operations.antt =====
-- Sequences of calls of the blob store (internal/infra/storage/fsblob/store.go), each of which may
-- fail.
use regixtry.Base.{Text}
use regixtry.Registry.Digest.{Digest}
use regixtry.Registry.Repository.{RepositoryRef}
use regixtry.Storage.State.{World, Site, M, pure, ◌>>=◌}
use regixtry.BlobStore.{
  Reader, begin_upload, get_upload, put_upload_chunk, commit_upload, cancel_upload, blob_exists,
  open_blob, list_blobs, delete_blob,
}
use regixtry.BlobStore.Addressing.{
  Addressed, get_upload-Keeps, blob_exists-Keeps, open_blob-Keeps, list_blobs-Keeps,
  begin_upload-Addressed, put_upload_chunk-Addressed, commit_upload-Addressed,
  cancel_upload-Addressed, delete_blob-Addressed,
}
use regixtry.Actions.Keeps.{Keeps, Keeps-bind, Keeps-pure}
use regixtry.Actions.States.{Of}

module _ (site : Site) where
  -- The calls of the blob store (ports.BlobStore).
  pub data BlobCall : Type 0 where
    begins : RepositoryRef → BlobCall
    gets_upload : Text → BlobCall
    puts_chunk : Text → Reader → BlobCall
    commits : Text → Digest → BlobCall
    cancels : Text → BlobCall
    checks : Digest → BlobCall
    opens : Digest → BlobCall
    lists : BlobCall
    deletes : Digest → BlobCall

  abbrev then_nothing : {A : Type 0} → M A → M (Unit {0})
  then_nothing m = m >>= λ _. pure tt

  unfoldable pub call : BlobCall → M (Unit {0})
  unfolding begin_upload get_upload put_upload_chunk commit_upload cancel_upload blob_exists
      open_blob list_blobs delete_blob
  call (begins r) = then_nothing (begin_upload site r)
  call (gets_upload id) = then_nothing (get_upload site id)
  call (puts_chunk id content) = then_nothing (put_upload_chunk site id content)
  call (commits id d) = then_nothing (commit_upload site id d)
  call (cancels id) = cancel_upload site id
  call (checks d) = then_nothing (blob_exists site d)
  call (opens d) = then_nothing (open_blob site d)
  call lists = then_nothing (list_blobs site)
  call (deletes d) = then_nothing (delete_blob site d)

  nothing-Keeps :
      {A : Type 0} (m : M A)
      → Keeps (Of (Addressed site)) m
      → Keeps (Of (Addressed site)) (then_nothing m)
  nothing-Keeps m k = Keeps-bind m _ k (λ _. Keeps-pure tt)

  pub call-Addressed : (c : BlobCall) → Keeps (Of (Addressed site)) (call c)
  unfolding call
  call-Addressed (begins r) = nothing-Keeps _ (begin_upload-Addressed site r)
  call-Addressed (gets_upload id) = nothing-Keeps _ (get_upload-Keeps site id)
  call-Addressed (puts_chunk id content) =
      nothing-Keeps _ (put_upload_chunk-Addressed site id content)
  call-Addressed (commits id d) = nothing-Keeps _ (commit_upload-Addressed site id d)
  call-Addressed (cancels id) = cancel_upload-Addressed site id
  call-Addressed (checks d) = nothing-Keeps _ (blob_exists-Keeps site d)
  call-Addressed (opens d) = nothing-Keeps _ (open_blob-Keeps site d)
  call-Addressed lists = nothing-Keeps _ (list_blobs-Keeps site)
  call-Addressed (deletes d) = nothing-Keeps _ (delete_blob-Addressed site d)

  -- The worlds that a sequence of calls leads to; each call may return or fail.
  pub data Reaches (w : World) : World → Type 0 where
    start : Reaches w w
    next : {v : World} → Reaches w v → (c : BlobCall) → Reaches w (call c v).1

  -- From a store that is addressed by content, an empty one say, every sequence of calls, whether
  -- they return or fail, leads to one: what lies under the path of a digest hashes to that digest.
  pub Reaches-Addressed : (w v : World) → Reaches w v → Addressed site w.db → Addressed site v.db
  Reaches-Addressed w v start h = h
  Reaches-Addressed w _ (next r c) h =
      ((call-Addressed c).at _ (record { holds = Reaches-Addressed w _ r h })).holds
