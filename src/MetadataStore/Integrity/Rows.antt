-- ===== src/MetadataStore/Integrity/Rows.antt =====
-- The invariant of the tables of repositories, manifests, tags and blobs.
use regixtry.Base.{ℕ, List, [], ◌∷◌, ◌++◌, Elem, ◌≡◌, ◌⊎◌, inl, inr}
use regixtry.Registry.Digest.{digest_from_bytes}
use regixtry.Storage.Tables.{Tables, RepositoryRow, ManifestRow, TagRow, BlobRow}
use regixtry.Storage.State.{State}

abbrev pub HasRepository : List RepositoryRow → ℕ → Type 0
HasRepository rs id = (r : RepositoryRow) × Elem r rs × (r.id ≡ id)

abbrev pub HasManifest : List ManifestRow → ℕ → Type 0
HasManifest ms id = (m : ManifestRow) × Elem m ms × (m.id ≡ id)

-- Every reference leads to a row, and the digest of a manifest is that of its payload.
pub record Integral (sha256 : List ℕ → List ℕ) (t : Tables) : Type 0 where
  pub owned : (m : ManifestRow) → Elem m t.manifests → HasRepository t.repositories m.repository_id
  pub hashed :
      (m : ManifestRow) → Elem m t.manifests → m.digest ≡ digest_from_bytes sha256 m.payload
  pub tagged : (g : TagRow) → Elem g t.tags → HasManifest t.manifests g.manifest_id
  pub placed : (g : TagRow) → Elem g t.tags → HasRepository t.repositories g.repository_id
  pub listed : (b : BlobRow) → Elem b t.blobs → HasManifest t.manifests b.manifest_id

-- The tables of the state are integral.
abbrev pub IsIntegral : (List ℕ → List ℕ) → State → Type 0
IsIntegral sha256 s = Integral sha256 s.tables

pub append-Elem : {A : Type 0} (a : A) (xs ys : List A) → Elem a (xs ++ ys) → Elem a xs ⊎ Elem a ys
append-Elem a [] ys m = inr m
append-Elem a (x ∷ xs) ys (inl e) = inl (inl e)
append-Elem a (x ∷ xs) ys (inr m) = elim (append-Elem a xs ys m) [
  | inl n ↦ inl (inr n)
  | inr n ↦ inr n
]

pub Elem-left : {A : Type 0} (a : A) (xs ys : List A) → Elem a xs → Elem a (xs ++ ys)
Elem-left a [] ys m = absurd m
Elem-left a (x ∷ xs) ys (inl e) = inl e
Elem-left a (x ∷ xs) ys (inr m) = inr (Elem-left a xs ys m)

pub Elem-right : {A : Type 0} (a : A) (xs ys : List A) → Elem a ys → Elem a (xs ++ ys)
Elem-right a [] ys m = m
Elem-right a (x ∷ xs) ys m = inr (Elem-right a xs ys m)
