-- ===== src/RegistryService/Collection/Gate.antt =====
-- The gate of the garbage collector (scanGate of internal/app/regixtry/service.go, as
-- internal/app/regixtry/service_gc.go uses it).
use regixtry.Base.{
  ℕ, suc, ◌-◌, Bool, true, false, List, [], ◌∷◌, Text, ◌≡◌, refl, ◌∙◌, ap, arith, Result, ok, err,
}
use regixtry.Errors.{Error}
use regixtry.Registry.Digest.{Digest, parse_digest}
use regixtry.Storage.Tables.{GcReport, GcReportCandidate, GcDeleteOutcome}
use regixtry.Storage.State.{State, World, Site, Request, M}
use regixtry.BlobStore.{delete_blob}
use regixtry.BlobStore.Addressing.{stat-Keeps, list_blobs-Keeps}
use regixtry.MetadataStore.Reports.{
  per_candidate, list_referenced_blob_digests, is_blob_digest_referenced, create_gc_report,
  get_gc_report, prune_expired_gc_reports, mark_gc_report_deleted,
}
use regixtry.RegistryService.Collection.{
  acquire, release, gated, gc_candidates, Tally, count, unlink, verify, collect_one, collect,
  computing, compute_gc_report, deleting, delete_by_gc_report,
}
use regixtry.Actions.Keeps.{
  Keeps, Keeps-bind, Keeps-pure, Keeps-lift, Keeps-gets, Keeps-reject, Keeps-try, Keeps-if,
}
use regixtry.Actions.States.{Of, Keeps-puts, Keeps-asked, after_sent, after_asked}
use regixtry.Actions.Triples.{Triple, then_do, kept, reads, writes, rejects, tried, finally}

-- So many runs hold the gate.
abbrev Held : ℕ → State → Type 0
Held n s = s.in_flight ≡ n

module _ (site : Site) (n : ℕ) where
  abbrev Holds : {A : Type 0} → M A → Type 0
  Holds m = Keeps (Of (Held n)) m

  delete_blob-Held : (d : Digest) → Holds (delete_blob site d)
  unfolding delete_blob
  delete_blob-Held d = Keeps-bind _ _ (Keeps-lift _) (λ _.
      Keeps-bind _ _ (stat-Keeps site _)
        (λ _. Keeps-bind _ _ (Keeps-puts _ (λ s h. h)) (λ _. Keeps-pure _)))

  gc_candidates-Held : (now : ℕ) → Holds (gc_candidates site now)
  unfolding gc_candidates list_referenced_blob_digests
  gc_candidates-Held now =
      Keeps-bind _ _ (list_blobs-Keeps site)
        (λ _. Keeps-bind _ _ (after_sent _ _ (λ _. Keeps-gets _)) (λ _. Keeps-pure _))

  unlink-Held : (name digest : Digest) (r : Result Error Bool) → Holds (unlink site name digest r)
  unlink-Held name digest (err e) = Keeps-pure _
  unlink-Held name digest (ok true) = Keeps-pure _
  unlink-Held name digest (ok false) =
      Keeps-bind _ _ (Keeps-try _ (delete_blob-Held digest)) (λ _. Keeps-pure _)

  verify-Held : (name : Digest) (r : Result Error Digest) → Holds (verify site name r)
  unfolding is_blob_digest_referenced
  verify-Held name (err e) = Keeps-pure _
  verify-Held name (ok d) =
      Keeps-bind _ _ (Keeps-try _ (after_sent _ _ (λ _. Keeps-gets _))) (λ r. unlink-Held name d r)

  collect-Held :
      (fresh : List Digest) (t : Tally) (cs : List GcReportCandidate)
      → Holds (collect site fresh t cs)
  unfolding collect collect_one
  collect-Held fresh t [] = Keeps-pure _
  collect-Held fresh t (c ∷ cs) =
      Keeps-bind _ _ (Keeps-if _ _ _ (Keeps-pure _) (verify-Held c.digest (parse_digest c.digest)))
        (λ o. collect-Held fresh (count c o t) cs)

  per_candidate-Held : {A : Type 0} (cs : List A) → Holds (per_candidate site cs)
  per_candidate-Held [] = Keeps-pure tt
  per_candidate-Held (c ∷ cs) = after_sent _ _ (λ _. per_candidate-Held cs)

  create-Held : (r : GcReport) (cs : List GcReportCandidate) → Holds (create_gc_report site r cs)
  unfolding create_gc_report
  create-Held r cs = after_sent _ _ (λ _. after_sent _ _ (λ _. Keeps-bind _ _ (Keeps-gets _) (λ _.
      Keeps-bind _ _ (Keeps-reject _ _) (λ _.
        Keeps-bind _ _ (per_candidate-Held cs)
          (λ _. after_sent _ _ (λ _. Keeps-puts _ (λ s h. h)))))))

  prune-Held : (now : ℕ) → Holds (prune_expired_gc_reports site now)
  unfolding prune_expired_gc_reports
  prune-Held now = after_sent _ _ (λ _.
      Keeps-bind _ _ (Keeps-gets _)
        (λ _. Keeps-bind _ _ (Keeps-puts _ (λ s h. h)) (λ _. Keeps-pure _)))

  mark-Held : (id : Text) (o : GcDeleteOutcome) → Holds (mark_gc_report_deleted site id o)
  unfolding mark_gc_report_deleted
  mark-Held id o = after_sent _ _ (λ _. after_sent _ _ (λ _. Keeps-bind _ _ (Keeps-gets _) (λ _.
      Keeps-bind _ _ (Keeps-reject _ _) (λ _.
        Keeps-bind _ _ (per_candidate-Held o.candidates)
          (λ _. after_sent _ _ (λ _. Keeps-puts _ (λ s h. h)))))))

  get-Held : (id : Text) → Holds (get_gc_report site id)
  unfolding get_gc_report
  get-Held id = after_sent _ _ (λ _.
      Keeps-bind _ _ (Keeps-gets _)
        (λ _. Keeps-bind _ _ (Keeps-lift _) (λ _. after_sent _ _ (λ _. Keeps-pure _))))

  computing-Held : (req : Request) → Holds (computing site req)
  computing-Held req = after_asked _ _ (λ now. after_asked _ _ (λ _.
      Keeps-bind _ _ (prune-Held now) (λ _. Keeps-bind _ _ (gc_candidates-Held now) (λ r.
        after_asked _ _
          (λ _. after_asked _ _ (λ _. Keeps-bind _ _ (create-Held _ r.0) (λ _. Keeps-pure _)))))))

  deleting-Held :
      (req : Request) (id : Text) (now : ℕ) (cs : List GcReportCandidate)
      → Holds (deleting site req id now cs)
  deleting-Held req id now cs = Keeps-bind _ _ (gc_candidates-Held now) (λ r.
      Keeps-bind _ _ (collect-Held _ _ cs)
        (λ t. Keeps-bind _ _ (mark-Held id _) (λ _. get-Held id)))

abbrev Between : {A : Type 0} → ℕ → M A → Type 0
Between n m = Triple (Of (Held n)) m (λ _. Of (Held n)) (Of (Held n))

gated-Held : {A : Type 0} (n : ℕ) (m : M A) → Keeps (Of (Held (suc n))) m → Between n (gated m)
unfolding gated acquire release
gated-Held n m k = then_do {Q = λ _. Of (Held (suc n))} acquired (λ _.
    then_do {Q = λ _. Of (Held (suc n))} (tried (kept k (λ w h. h)) (λ _ w h. h) (λ _ w h. h)) (λ r.
      then_do {Q = λ _. Of (Held n)}
        (writes _ (λ w h. record { holds = ap (λ x. x - 1) h.holds ∙ less n }))
        (λ _. kept (Keeps-lift r) (λ w h. h))))
  where
    less : (n : ℕ) → suc n - 1 ≡ n
    less n = omega arith

    acquired : Triple (Of (Held n)) acquire (λ _. Of (Held (suc n))) (Of (Held n))
    acquired =
        unfold acquire in
        then_do {Q = λ _. Of (Held n)} (reads _ (λ w h. h)) (λ busy.
          then_do {Q = λ _. Of (Held n)} (rejects busy _ (λ w h e. h) (λ w h. h))
            (λ _. writes _ (λ w h. record { holds = ap suc h.holds })))

-- However a run of the garbage collector ends, computing a report or deleting by one, the gate is
-- held by as many runs afterwards as before: a gate that was free is free again.
pub gc_gate-IsReleased :
    (site : Site) (req : Request) (report_id : Text) (w : World)
    → ((compute_gc_report site req w).1.db.in_flight ≡ w.db.in_flight)
      × ((delete_by_gc_report site req report_id w).1.db.in_flight ≡ w.db.in_flight)
unfolding compute_gc_report delete_by_gc_report
gc_gate-IsReleased site req report_id w =
    let n = w.db.in_flight in
    let deletes = then_do {Q = λ _. Of (Held n)} (stays (Keeps-reject _ _)) (λ _.
      then_do {Q = λ _. Of (Held n)} (stays (get-Held site n report_id)) (λ detail.
        then_do {Q = λ _. Of (Held n)} (stays (Keeps-reject _ _)) (λ _.
          then_do {Q = λ _. Of (Held n)} (stays (Keeps-asked _)) (λ now.
            then_do {Q = λ _. Of (Held n)} (stays (Keeps-reject _ _)) (λ _.
              gated-Held n _
                (deleting-Held site (suc n) req report_id now detail.candidates)))))) in
    (
      (finally w (gated-Held n _ (computing-Held site (suc n) req))
          (record { holds = refl })).holds,
      (finally w deletes (record { holds = refl })).holds,
    )
  where
    stays : {A : Type 0} {m : M A} → Keeps (Of (Held w.db.in_flight)) m → Between w.db.in_flight m
    stays k = kept k (λ x h. h)
