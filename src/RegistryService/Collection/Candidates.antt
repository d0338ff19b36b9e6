-- ===== src/RegistryService/Collection/Candidates.antt =====
-- Which blobs are candidates (gcCandidates of internal/app/regixtry/service_gc.go).
use regixtry.Base.{
  ℕ, ◌+◌, ◌-◌, ◌<◌, true, false, List, [], ◌∷◌, text_eq, text_eq_iff, text_lt, any, Elem, Elem-keep,
  Elem-map, Elem-sort, keep, map, sort_by, length, Bool-cases, ◌≡◌, inl, inr, refl, sym, ap, arith,
}
use regixtry.Registry.Digest.{Digest}
use regixtry.Registry.Digest.Parsing.{IsDigest}
use regixtry.Storage.Files.{File}
use regixtry.Storage.Tables.{BlobRow, Tables, GcReportCandidate}
use regixtry.Storage.State.{State, Site}
use regixtry.BlobStore.{BlobFileInfo, blob_path}
use regixtry.BlobStore.Listing.{AllFrom, Is, list_blobs-From}
use regixtry.MetadataStore.Reports.{
  distinct_digests, referenced_digests, is_referenced, list_referenced_blob_digests,
}
use regixtry.RegistryService.Collection.{gc_grace_window, is_candidate, candidate, gc_candidates}
use regixtry.Actions.States.{Keeps-sent}
use regixtry.Actions.Triples.{Triple, then_do, kept, reads, returns, given}

distinct-any :
    (bs : List BlobRow) (d : Digest)
    → any (λ b. text_eq b.digest d) bs ≡ true
    → any (λ x. text_eq x d) (distinct_digests bs) ≡ true
distinct-any [] d h = h
distinct-any (b ∷ bs) d h =
    elim (Bool-cases (any (λ x. text_eq x b.digest) (distinct_digests bs))) [
      | inl q ↦ elim (Bool-cases (text_eq b.digest d)) [
        | inl e ↦ let same : b.digest ≡ d = (text_eq_iff b.digest d).0 e in rw q (rw same at q)
        | inr e ↦ rw q (distinct-any bs d (rw e at h))
      ]
      | inr q ↦ elim (Bool-cases (text_eq b.digest d)) [
        | inl e ↦ rw (q, e) refl
        | inr e ↦ rw (q, e) (distinct-any bs d (rw e at h))
      ]
    ]

pub unmarked :
    (t : Tables) (d : Digest)
    → any (λ x. text_eq x d) (referenced_digests t) ≡ false
    → is_referenced d t ≡ false
unfolding referenced_digests is_referenced
unmarked t d h = ground (arith, distinct-any t.blobs d)

-- What is so of a candidate at a time: it is a file of the store under the path of its digest, no
-- manifest refers to it, and a day has passed since it was written.
pub record IsCandidate (site : Site) (s : State) (now : ℕ) (c : GcReportCandidate) : Type 0 where
  pub is_digest : IsDigest c.digest
  pub file : File
  pub there : Elem file s.files
  pub at : file.path ≡ blob_path site c.digest
  pub size : c.size ≡ length file.bytes
  pub unreferenced : is_referenced c.digest s.tables ≡ false
  pub old : file.modified + gc_grace_window < now

abbrev pub AllCandidates : Site → State → ℕ → List GcReportCandidate → Type 0
AllCandidates site s now cs = (c : GcReportCandidate) → Elem c cs → IsCandidate site s now c

module _ (site : Site) (s : State) (now : ℕ) where
  tested :
      (b : BlobFileInfo)
      → is_candidate (referenced_digests s.tables) (now - gc_grace_window) b ≡ true
      → (any (λ d. text_eq d b.digest) (referenced_digests s.tables) ≡ false)
        × (b.mod_time + gc_grace_window < now)
  unfolding is_candidate
  tested b h = (ground arith, ground arith)

  candidate-Is :
      (bs : List BlobFileInfo) (c : GcReportCandidate)
      → AllFrom site s.files bs
      → Elem c (
          sort_by
            (λ (a b : GcReportCandidate). text_lt a.digest b.digest)
            (map candidate
              (keep (is_candidate (referenced_digests s.tables) (now - gc_grace_window)) bs)))
      → IsCandidate site s now c
  candidate-Is bs c h m =
      let kept = keep (is_candidate (referenced_digests s.tables) (now - gc_grace_window)) bs in
      let unsorted =
        Elem-sort (λ (a b : GcReportCandidate). text_lt a.digest b.digest) c (map candidate kept)
          m in
      let (b, n, e) = Elem-map candidate c kept unsorted in
      let (k, q) =
        Elem-keep (is_candidate (referenced_digests s.tables) (now - gc_grace_window)) bs n in
      let from = h b k in
      let (un, old) = tested b q in
      rw e (record {
        is_digest = from.is_digest;
        file = from.file;
        there = from.there;
        at = from.at;
        size = from.size;
        unreferenced = unmarked s.tables b.digest un;
        old = rw (sym from.time) old;
      })

  -- Every blob that the collector takes for a candidate is a file of the blob store under the path
  -- of its digest, no manifest of any tenant refers to it, and it was last written more than a day
  -- before the time given. Finding the candidates changes nothing.
  pub gc_candidates-AllCandidates :
      Triple (Is s) (gc_candidates site now) (λ r w. AllCandidates site s now r.0 × Is s w) (Is s)
  unfolding gc_candidates
  gc_candidates-AllCandidates = then_do (list_blobs-From site s) (λ bs. given (λ from.
      then_do {Q = λ marked w. ((marked ≡ referenced_digests s.tables) × Is s w)} marks
        (λ marked. given (λ e. returns _ (λ w k. (λ c m. candidate-Is bs c from (rw e at m), k))))))
    where
      marks :
          Triple
            (Is s)
            (list_referenced_blob_digests site)
            (λ marked w. (marked ≡ referenced_digests s.tables) × Is s w)
            (Is s)
      marks =
          unfold list_referenced_blob_digests in
          then_do (kept (Keeps-sent site.env) (λ w k. k))
            (λ _. reads _ (λ w k. (ap (λ (x : State). referenced_digests x.tables) k.holds, k)))
