-- ===== src/RegistryService/Collection/Sparing.antt =====
-- The loop of the garbage collector deletes only what it may (DeleteByGCReport of internal/app/regixtry/service_gc.go).
use regixtry.Base.{
  Bool, true, false, List, [], ◌∷◌, text_eq, any, Elem, keep-Elem, Bool-cases, ◌≡◌, ◌⊎◌, inl, inr,
  refl, ap, Result, ok, err,
}
use regixtry.Errors.{Error}
use regixtry.Registry.Digest.{Digest, parse_digest}
use regixtry.Storage.Files.{FilePath, File, path_eq, remove_file}
use regixtry.Storage.Tables.{Tables, GcReportCandidate}
use regixtry.Storage.State.{State, Site, M}
use regixtry.BlobStore.{blob_path, delete_blob}
use regixtry.BlobStore.Addressing.{path_eq-eq, stat-Keeps}
use regixtry.MetadataStore.Reports.{is_referenced, is_blob_digest_referenced}
use regixtry.RegistryService.Collection.{Tally, count, unlink, verify, collect_one, collect}
use regixtry.Actions.Keeps.{Keeps, Keeps-bind, Keeps-pure, Keeps-lift}
use regixtry.Actions.States.{Of, Keeps-puts, Keeps-sent}
use regixtry.Actions.Triples.{Triple, then_do, kept, returns, reads, tried, given}

remove_file-Elem :
    (p : FilePath) (fs : List File) (f : File)
    → Elem f fs
    → Elem f (remove_file p fs) ⊎ (f.path ≡ p)
unfolding remove_file
remove_file-Elem p fs f m = elim (Bool-cases (path_eq f.path p)) [
  | inl e ↦ inr (path_eq-eq f.path p e)
  | inr e ↦ inl (keep-Elem _ fs m (rw e refl))
]

module _ (site : Site) (Allowed : Digest → Type 0) (fs : List File) (t : Tables) where
  -- Of these files, those that are gone were blobs of allowed digests.
  abbrev pub Spared : State → Type 0
  Spared s =
      (f : File)
      → Elem f fs
      → Elem f s.files ⊎ ((d : Digest) × Allowed d × (f.path ≡ blob_path site d))

  pub record Sparing (s : State) : Type 0 where
    pub spared : Spared s
    pub same : s.tables ≡ t

  delete_blob-Sparing : (d : Digest) → Allowed d → Keeps (Of Sparing) (delete_blob site d)
  unfolding delete_blob
  delete_blob-Sparing d a = Keeps-bind _ _ (Keeps-lift _) (λ _.
      Keeps-bind _ _ (stat-Keeps site _) (λ _.
        Keeps-bind _ _
          (Keeps-puts _
            (λ s h. record { spared = λ f m. removed s h f (h.spared f m); same = h.same }))
          (λ _. Keeps-pure _)))
    where
      removed :
          (s : State)
          → Sparing s
          → (f : File) → Elem f s.files ⊎ ((e : Digest) × Allowed e × (f.path ≡ blob_path site e))
          → Elem f (remove_file (blob_path site d) s.files)
            ⊎ ((e : Digest) × Allowed e × (f.path ≡ blob_path site e))
      removed s h f (inr x) = inr x
      removed s h f (inl m) = elim (remove_file-Elem (blob_path site d) s.files f m) [
        | inl n ↦ inl n
        | inr p ↦ inr (d, a, p)
      ]

  -- A triple between one property and itself.
  abbrev pub Stable : {A : Type 0} → M A → Type 0
  Stable m = Triple (Of Sparing) m (λ _. Of Sparing) (Of Sparing)

  unlink-Sparing :
      (name digest : Digest) (r : Result Error Bool)
      → (r ≡ ok false → Allowed digest)
      → Stable (unlink site name digest r)
  unlink-Sparing name digest (err e) h = returns _ (λ w k. k)
  unlink-Sparing name digest (ok true) h = returns _ (λ w k. k)
  unlink-Sparing name digest (ok false) h =
      then_do
        (tried (kept (delete_blob-Sparing digest (h refl)) (λ w k. k)) (λ _ w k. k) (λ _ w k. k))
        (λ _. returns _ (λ w k. k))

  asked :
      (name : Digest)
      → Triple
          (Of Sparing)
          (is_blob_digest_referenced site name)
          (λ b w. (b ≡ is_referenced name t) × Of Sparing w)
          (Of Sparing)
  unfolding is_blob_digest_referenced
  asked name =
      then_do (kept (Keeps-sent site.env) (λ w k. k))
        (λ _. reads _ (λ w k. (ap (is_referenced name) k.holds.same, k)))

  verify-Sparing :
      (name : Digest) (r : Result Error Digest)
      → ((d : Digest) → r ≡ ok d → is_referenced name t ≡ false → Allowed d)
      → Stable (verify site name r)
  verify-Sparing name (err e) h = returns _ (λ w k. k)
  verify-Sparing name (ok d) h =
      then_do {Q = λ r w. ((r ≡ ok false → is_referenced name t ≡ false) × Of Sparing w)}
        (tried (asked name) (λ b w k. (λ e. cc (k.0, e), k.1)) (λ e w k. (λ q. cc q, k)))
        (λ r. given (λ e. unlink-Sparing name d r (λ q. h d refl (e q))))

  module _ (fresh : List Digest) where
    abbrev pub Permits : List GcReportCandidate → Type 0
    Permits cs =
        (c : GcReportCandidate) (d : Digest)
        → Elem c cs
        → any (λ x. text_eq x c.digest) fresh ≡ true
        → parse_digest c.digest ≡ ok d
        → is_referenced c.digest t ≡ false
        → Allowed d

    chosen :
        (b : Bool) (c : GcReportCandidate)
        → any (λ x. text_eq x c.digest) fresh ≡ b
        → Permits (c ∷ [])
        → Stable (collect_one site fresh c)
    unfolding collect_one
    chosen true c e h =
        rw e (verify-Sparing c.digest (parse_digest c.digest) (λ d q un. h c d (inl refl) e q un))
    chosen false c e h = rw e (returns _ (λ w k. k))

    pub collect-Sparing :
        (t : Tally) (cs : List GcReportCandidate) → Permits cs → Stable (collect site fresh t cs)
    unfolding collect
    collect-Sparing tally [] h = returns _ (λ w k. k)
    collect-Sparing tally (c ∷ cs) h =
        then_do (chosen _ c refl (λ x d m. h x d (first m)))
          (λ o. collect-Sparing (count c o tally) cs (λ x d m. h x d (inr m)))
      where
        first : {x : GcReportCandidate} → Elem x (c ∷ []) → Elem x (c ∷ cs)
        first (inl q) = inl q
        first (inr m) = absurd m
