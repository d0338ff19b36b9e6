-- ===== src/BlobStore/Listing.antt =====
-- What the blob store lists (ListBlobs of internal/infra/storage/fsblob/store.go).
use regixtry.Base.{
  ℕ, List, [], ◌∷◌, ◌++◌, Option, none, some, Text, text_eq, length, any, Elem, Elem-sort, All,
  Bool-cases, ◌==◌, ◌≡◌, ◌⊎◌, inl, inr, refl, sym, ◌∙◌, ap, arith, Result, ok, err,
}
use regixtry.Errors.{Error}
use regixtry.Strings.Splitting.{Lacks}
use regixtry.Registry.Digest.{Digest, digest_algorithm_sha256, parse_digest}
use regixtry.Registry.Digest.Hex.{IsHex, hex_value}
use regixtry.Registry.Digest.Parsing.{IsDigest, parse_digest_iff}
use regixtry.Storage.Files.{
  FilePath, File, Entry, path_eq, join_path, entry_at, add_entry, entries, read_dir,
}
use regixtry.Storage.State.{State, World, Site, M, ◌>>=◌, gets, statement}
use regixtry.BlobStore.{
  BlobFileInfo, blobs_root, blob_path, listed_file, list_digests, in_directory, list_algorithms,
  list_blobs,
}
use regixtry.BlobStore.Paths.{join_path-IsName, sha256-IsName, blob_path-form}
use regixtry.BlobStore.Addressing.{path_eq-eq}
use regixtry.MetadataStore.Integrity.Rows.{append-Elem}
use regixtry.Actions.States.{Of, Keeps-sent}
use regixtry.Actions.Triples.{Triple, then_do, kept, reads, returns, given}

-- The entry is a file of the directory, where it is no directory itself.
abbrev pub IsEntry : List File → FilePath → Entry → Type 0
IsEntry fs dir e = (f : File) → e.file ≡ some f → Elem f fs × (f.path ≡ e.name ∷ dir)

entry_at-IsEntry :
    (dir p : FilePath) (f : File) (e : Entry) → entry_at dir p f ≡ some e → IsEntry (f ∷ []) dir e
entry_at-IsEntry dir [] f e h = absurd (cc h)
entry_at-IsEntry dir (c ∷ p) f e h = elim (Bool-cases (path_eq p dir)) [
  | inr q ↦ entry_at-IsEntry dir p f e (rw q at h)
  | inl q ↦ elim (Bool-cases (path_eq f.path (c ∷ p))) [
    | inl r ↦ λ g k.
        let built : Entry = record { name = c; file = some f } in
        let same : some built ≡ some e = rw (q, r) at h in
        let entry : built ≡ e = cc same in
        let file : some f ≡ e.file = ap (λ (x : Entry). x.file) entry in
        let name : c ≡ e.name = ap (λ (x : Entry). x.name) entry in
        let found : g ≡ f = cc (file, k) in
        (
          inl found,
          rw found (
              path_eq-eq f.path (c ∷ p) r
              ∙ (ap (λ x. c ∷ x) (path_eq-eq p dir q) ∙ ap (λ x. x ∷ dir) name)),
        )
    | inr r ↦ λ g k.
        let built : Entry = record { name = c; file = none } in
        let same : some built ≡ some e = rw (q, r) at h in
        let entry : built ≡ e = cc same in
        let file : none ≡ e.file = ap (λ (x : Entry). x.file) entry in absurd (cc (file, k))
  ]
]

add_entry-Elem :
    (o : Option Entry) (es : List Entry) (e : Entry)
    → Elem e (add_entry o es)
    → (o ≡ some e) ⊎ Elem e es
add_entry-Elem none es e m = inr m
add_entry-Elem (some x) es e m = elim (Bool-cases (any (λ y. text_eq y.name x.name) es)) [
  | inl q ↦ inr (rw q at m)
  | inr q ↦ elim (the_cons (rw q at m)) [ inl p ↦ inl (ap some (sym p)) | inr n ↦ inr n ]
]
  where
    the_cons : Elem e (x ∷ es) → (e ≡ x) ⊎ Elem e es
    the_cons h = h

entries-IsEntry :
    (dir : FilePath) (fs : List File) (e : Entry) → Elem e (entries dir fs) → IsEntry fs dir e
entries-IsEntry dir [] e m = absurd m
entries-IsEntry dir (f ∷ fs) e m =
    elim (add_entry-Elem (entry_at dir f.path f) (entries dir fs) e m) [
      | inl q ↦ λ g k. let (n, p) = entry_at-IsEntry dir f.path f e q g k in (from n, p)
      | inr n ↦ λ g k. let (i, p) = entries-IsEntry dir fs e n g k in (inr i, p)
    ]
  where
    from : {g : File} → Elem g (f ∷ []) → Elem g (f ∷ fs)
    from (inl q) = inl q
    from (inr n) = absurd n

pub read_dir-IsEntry :
    (dir : FilePath) (fs : List File) (e : Entry) → Elem e (read_dir dir fs) → IsEntry fs dir e
unfolding read_dir
read_dir-IsEntry dir fs e m = entries-IsEntry dir fs e (Elem-sort _ e _ m)

-- A text in which the separator stands once is cut there in one way.
cut_once :
    (sep : ℕ) (a b n m : Text)
    → Lacks (λ x. x == sep) b
    → Lacks (λ x. x == sep) m
    → a ++ (sep ∷ n) ≡ b ++ (sep ∷ m)
    → (a ≡ b) × (n ≡ m)
cut_once sep [] [] n m h k e = (refl, cc e)
cut_once sep [] (y ∷ b) n m h k e = let q : sep ≡ y = cc e in absurd (ground (arith, h.0, q))
cut_once sep (x ∷ a) [] n m h k e =
    let q : a ++ (sep ∷ n) ≡ m = cc e in absurd (never a (rw (sym q) at k))
  where
    never : (a : Text) → Lacks (λ x. x == sep) (a ++ (sep ∷ n)) → ⊥
    never [] k = ground (arith, k.0)
    never (x ∷ a) k = never a k.1
cut_once sep (x ∷ a) (y ∷ b) n m h k e =
    let p : x ≡ y = cc e in
    let q : a ++ (sep ∷ n) ≡ b ++ (sep ∷ m) = cc e in
    let (r, s) = cut_once sep a b n m h.1 k q in (rw (p, r) refl, s)

hex-Lacks : (s : Text) → All IsHex s → Lacks (λ x. x == b':') s
unfolding hex_value
hex-Lacks [] h = tt
hex-Lacks (c ∷ s) ((x, e), h) = (ground arith, hex-Lacks s h)

-- Where a directory and a file name spell a digest, its blob is that file.
pub spelled :
    (site : Site) (a n : Text) (d : Digest)
    → parse_digest (a ++ (b':' ∷ n)) ≡ ok d
    → IsDigest d × (n ∷ join_path (blobs_root site) a ≡ blob_path site d)
spelled site a n d e =
    let (same, h) = (parse_digest_iff (a ++ (b':' ∷ n)) d).0 e in
    let (p, q) =
      cut_once b':' a digest_algorithm_sha256 n h.hex
        (refl, (refl, (refl, (refl, (refl, (refl, tt)))))) (hex-Lacks h.hex h.digits) h.form in
    let left : n ∷ join_path (blobs_root site) a
        ≡ h.hex ∷ digest_algorithm_sha256 ∷ blobs_root site =
      rw (p, q, join_path-IsName (blobs_root site) digest_algorithm_sha256 sha256-IsName) refl in
    (
      rw same h,
      left ∙ (sym (blob_path-form site (a ++ (b':' ∷ n)) h) ∙ ap (blob_path site) (sym same)),
    )

-- The listed blob is a file of the store, under the path of its digest.
pub record FromFile (site : Site) (fs : List File) (b : BlobFileInfo) : Type 0 where
  pub is_digest : IsDigest b.digest
  pub file : File
  pub there : Elem file fs
  pub at : file.path ≡ blob_path site b.digest
  pub size : b.size ≡ length file.bytes
  pub time : b.mod_time ≡ file.modified

abbrev pub AllFrom : Site → List File → List BlobFileInfo → Type 0
AllFrom site fs bs = (b : BlobFileInfo) → Elem b bs → FromFile site fs b

AllFrom-append :
    (site : Site) (fs : List File) (xs ys : List BlobFileInfo)
    → AllFrom site fs xs
    → AllFrom site fs ys
    → AllFrom site fs (xs ++ ys)
AllFrom-append site fs xs ys h k b m = elim (append-Elem b xs ys m) [
  | inl n ↦ h b n
  | inr n ↦ k b n
]

-- The state stays what it is.
abbrev pub Is : State → World → Type 0
Is s = Of (λ x. x ≡ s)

module _ (site : Site) (s : State) where
  listed_file-From :
      (a n : Text) (r : Result Error Digest) (f : Option File)
      → parse_digest (a ++ (b':' ∷ n)) ≡ r
      → ((g : File) → f ≡ some g → Elem g s.files × (g.path ≡ n ∷ join_path (blobs_root site) a))
      → Triple (Is s) (listed_file site a n r f) (λ bs w. AllFrom site s.files bs × Is s w) (Is s)
  listed_file-From a n (ok d) (some f) e h =
      then_do (kept (Keeps-sent site.env) (λ w k. k)) (λ _. returns _ (λ w k. (found, k)))
    where
      found :
          AllFrom site s.files
            (record { digest = d; size = length f.bytes; mod_time = f.modified } ∷ [])
      found b (inl q) =
          let (k, p) = spelled site a n d e in
          let (m, at) = h f refl in
          rw q
            (record { is_digest = k; file = f; there = m; at = at ∙ p; size = refl; time = refl })
      found b (inr m) = absurd m
  listed_file-From a n (ok d) none e h = returns _ (λ w k. (λ b m. absurd m, k))
  listed_file-From a n (err x) f e h = returns _ (λ w k. (λ b m. absurd m, k))

  list_digests-From :
      (a : Text) (es : List Entry)
      → ((e : Entry) → Elem e es → IsEntry s.files (join_path (blobs_root site) a) e)
      → Triple (Is s) (list_digests site a es) (λ bs w. AllFrom site s.files bs × Is s w) (Is s)
  unfolding list_digests
  list_digests-From a [] h = returns _ (λ w k. (λ b m. absurd m, k))
  list_digests-From a (e ∷ es) h =
      then_do (listed_file-From a e.name _ e.file refl (h e (inl refl))) (λ xs. given (λ from.
        then_do (list_digests-From a es (λ x m. h x (inr m)))
          (λ ys. returns _ (λ w k. (AllFrom-append site s.files xs ys from k.0, k.1)))))

  in_directory-From :
      (f : Option File) (m : M (List BlobFileInfo))
      → Triple (Is s) m (λ bs w. AllFrom site s.files bs × Is s w) (Is s)
      → Triple (Is s) (in_directory site f m) (λ bs w. AllFrom site s.files bs × Is s w) (Is s)
  in_directory-From none m t = t
  in_directory-From (some f) m t = returns _ (λ w k. (λ b n. absurd n, k))

  list_algorithms-From :
      (es : List Entry)
      → Triple (Is s) (list_algorithms site es) (λ bs w. AllFrom site s.files bs × Is s w) (Is s)
  unfolding list_algorithms
  list_algorithms-From [] = returns _ (λ w k. (λ b m. absurd m, k))
  list_algorithms-From (e ∷ es) = then_do (in_directory-From e.file _ inside) (λ xs. given (λ from.
      then_do (list_algorithms-From es)
        (λ ys. returns _ (λ w k. (AllFrom-append site s.files xs ys from k.0, k.1)))))
    where
      dir : FilePath
      dir = join_path (blobs_root site) e.name

      inside :
          Triple
            (Is s)
            (statement site.env >>= λ _.
              gets (λ x. read_dir dir x.files) >>= λ rows. list_digests site e.name rows)
            (λ bs w. AllFrom site s.files bs × Is s w)
            (Is s)
      inside = then_do (kept (Keeps-sent site.env) (λ w k. k)) (λ _.
          then_do {Q = λ rows w. (((x : Entry) → Elem x rows → IsEntry s.files dir x) × Is s w)}
            (reads _ (λ w k. (
              λ x m.
                  read_dir-IsEntry dir s.files x
                    (rw (ap (λ (y : State). read_dir dir y.files) k.holds) at m),
              k,
            )))
            (λ rows. given (λ h. list_digests-From e.name rows h)))

  -- Every blob that is listed is a file of the store, and listing changes nothing.
  pub list_blobs-From :
      Triple (Is s) (list_blobs site) (λ bs w. AllFrom site s.files bs × Is s w) (Is s)
  unfolding list_blobs
  list_blobs-From =
      then_do (kept (Keeps-sent site.env) (λ w k. k))
        (λ _. then_do {Q = λ _. Is s} (reads _ (λ w k. k)) (λ es. list_algorithms-From es))
