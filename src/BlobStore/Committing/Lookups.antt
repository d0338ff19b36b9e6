-- ===== src/BlobStore/Committing/Lookups.antt =====
-- Looking up files after others were written or removed.
use regixtry.Base.{
  ℕ, suc, ◌+◌, Bool, true, false, ◌||◌, List, [], ◌∷◌, some, Text, codes, text_eq, text_eq_refl,
  length, Elem, find?-Elem, find?, keep, Bool-cases, ◌≡◌, ◌≢◌, inl, inr, refl, sym, ◌∙◌, ap, arith,
}
use regixtry.Registry.Digest.{Digest, digest_algorithm_sha256}
use regixtry.Registry.Digest.Parsing.{IsDigest}
use regixtry.Storage.Files.{
  FilePath, File, path_eq, is_within, find_file, remove_file, remove_tree, put_file,
}
use regixtry.Storage.State.{Site}
use regixtry.BlobStore.{blobs_root, uploads_root, upload_dir, blob_path}
use regixtry.BlobStore.Paths.{IsName, join_path-IsName, blob_path-form}
use regixtry.BlobStore.Addressing.{path_eq-eq}

pub path_eq_refl : (p : FilePath) → path_eq p p ≡ true
unfolding path_eq
path_eq_refl [] = refl
path_eq_refl (c ∷ p) = rw (text_eq_refl c) (path_eq_refl p)

pub path_eq-ne : (p q : FilePath) → p ≢ q → path_eq p q ≡ false
path_eq-ne p q h = elim (Bool-cases (path_eq p q)) [
  | inl e ↦ absurd (h (path_eq-eq p q e))
  | inr e ↦ e
]

-- Dropping what is not looked for.
find?-keep :
    {A : Type 0} (q r : A → Bool) (xs : List A)
    → ((x : A) → q x ≡ true → r x ≡ true)
    → find? q (keep r xs) ≡ find? q xs
find?-keep q r [] h = refl
find?-keep q r (x ∷ xs) h = elim (Bool-cases (q x)) [
  | inl e ↦ rw (h x e, e) refl
  | inr e ↦ elim (Bool-cases (r x)) [
    | inl f ↦ rw (f, e) (find?-keep q r xs h)
    | inr f ↦ rw (f, e) (find?-keep q r xs h)
  ]
]

pub find_file-remove_other :
    (p q : FilePath) (fs : List File) → p ≢ q → find_file p (remove_file q fs) ≡ find_file p fs
unfolding find_file remove_file
find_file-remove_other p q fs h =
    find?-keep _ _ fs
      (λ f e. rw (path_eq-ne f.path q (λ k. h (sym (path_eq-eq f.path p e) ∙ k))) refl)

pub find_file-remove_tree :
    (p dir : FilePath) (fs : List File)
    → is_within dir p ≡ false
    → find_file p (remove_tree dir fs) ≡ find_file p fs
unfolding find_file remove_tree
find_file-remove_tree p dir fs h = find?-keep _ _ fs (λ f e. rw (path_eq-eq f.path p e, h) refl)

pub find_file-put_same : (f : File) (fs : List File) → find_file f.path (put_file f fs) ≡ some f
unfolding find_file put_file
find_file-put_same f fs = rw (path_eq_refl f.path) refl

pub find_file-put_other :
    (f : File) (p : FilePath) (fs : List File)
    → p ≢ f.path
    → find_file p (put_file f fs) ≡ find_file p fs
unfolding find_file put_file
find_file-put_other f p fs h =
    rw (path_eq-ne f.path p (λ k. h (sym k)))
      (unfold find_file in find_file-remove_other p f.path fs h)

pub find_file-Elem :
    (p : FilePath) (fs : List File) {f : File} → find_file p fs ≡ some f → Elem f fs
unfolding find_file
find_file-Elem p fs e = (find?-Elem _ fs e).0

-- A shorter path is in no directory.
too_short : (dir p : FilePath) (n : ℕ) → length dir ≡ suc (n + length p) → is_within dir p ≡ false
unfolding is_within
too_short dir [] n h = path_eq-ne [] dir (λ e. absurd (omega (arith, h, ap length e)))
too_short dir (c ∷ p) n h =
    rw
      (
        path_eq-ne (c ∷ p) dir (λ e. absurd (omega (arith, h, ap length e))),
        too_short dir p (suc n) (omega (arith, h)),
      )
      refl

module _ (site : Site) where
  roots :
      (blobs_root site ≡ codes "blobs" ∷ site.root_dir)
      × (uploads_root site ≡ codes "uploads" ∷ site.root_dir)
  unfolding blobs_root uploads_root
  roots = (
    join_path-IsName site.root_dir (codes "blobs") (record {
      whole = (refl, (refl, (refl, (refl, (refl, tt)))));
      plain = unfold text_eq in refl;
      below = unfold text_eq in refl;
    }),
    join_path-IsName site.root_dir (codes "uploads") (record {
      whole = (refl, (refl, (refl, (refl, (refl, (refl, (refl, tt)))))));
      plain = unfold text_eq in refl;
      below = unfold text_eq in refl;
    }),
  )

  upload_dir-form :
      (id : Text) → IsName id → upload_dir site id ≡ id ∷ codes "uploads" ∷ site.root_dir
  unfolding upload_dir
  upload_dir-form id h = join_path-IsName (uploads_root site) id h ∙ ap (λ p. id ∷ p) roots.1

  -- No blob is in the directory of an upload.
  pub blob-outside :
      (id : Text) (d : Digest)
      → IsName id
      → IsDigest d
      → is_within (upload_dir site id) (blob_path site d) ≡ false
  unfolding is_within
  blob-outside id d h k =
      let dir = id ∷ codes "uploads" ∷ site.root_dir in
      let tail = codes "blobs" ∷ site.root_dir in
      let far : (path_eq tail dir || is_within dir site.root_dir) ≡ false =
        rw
          (
            path_eq-ne tail dir (λ e. absurd (omega (arith, ap length e))),
            too_short dir site.root_dir 1 (omega arith),
          )
          refl in
      let near : path_eq (digest_algorithm_sha256 ∷ tail) dir ≡ false =
        path_eq-ne (digest_algorithm_sha256 ∷ tail) dir (λ e. cc e) in
      let top : path_eq (k.hex ∷ digest_algorithm_sha256 ∷ tail) dir ≡ false =
        path_eq-ne (k.hex ∷ digest_algorithm_sha256 ∷ tail) dir
          (λ e. absurd (omega (arith, ap length e))) in
      rw (upload_dir-form id h, blob_path-form site d k, roots.0, top, near, far) refl
