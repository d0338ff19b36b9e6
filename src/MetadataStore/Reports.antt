-- ===== src/MetadataStore/Reports.antt =====
-- What the garbage collector asks of the metadata store: the digests in use, and the reports
-- (internal/infra/metadata/sqlite/store.go). None of these looks at a tenant.
use regixtry.Base.{
  ℕ, Bool, true, false, not, ◌&&◌, List, [], ◌∷◌, ◌++◌, Option, none, some, Text, codes, text_eq,
  length, if◌then◌else◌, any, find?, keep, map, Result, ok, err,
}
use regixtry.Errors.{Error, infra}
use regixtry.Registry.Errors.{new_not_found_error, new_conflict_error}
use regixtry.Registry.Digest.{Digest}
use regixtry.Storage.Tables.{
  Tables, BlobRow, ReportStatus, GcReport, GcReportCandidate, GcReportDetail, GcCandidateOutcome,
  GcDeleteOutcome,
}
use regixtry.Storage.State.{Site, M, pure, lift, ◌>>=◌, ◌>>◌, reject, gets, puts, statement}

-- SELECT DISTINCT digest
abbrev pub distinct_digests : List BlobRow → List Digest
distinct_digests [] = []
distinct_digests (b ∷ bs) =
    let rest = distinct_digests bs in
    if any (λ d. text_eq d b.digest) rest then rest else b.digest ∷ rest

unfoldable pub referenced_digests : Tables → List Digest
unfolding text_eq
referenced_digests t = distinct_digests t.blobs

unfoldable pub is_referenced : Digest → Tables → Bool
unfolding text_eq
is_referenced digest t = any (λ b. text_eq b.digest digest) t.blobs

abbrev pub is_reported : ReportStatus → Bool
is_reported ReportStatus.reported = true
is_reported ReportStatus.deleted = false

unfoldable pub has_id : Text → GcReportDetail → Bool
unfolding text_eq
has_id report_id d = text_eq d.report.id report_id

abbrev pub scan_report : Text → Option GcReportDetail → Result Error GcReportDetail
scan_report report_id none = err (new_not_found_error (codes "gc_report") report_id)
scan_report report_id (some d) = ok d

-- `UPDATE gc_report_candidates SET outcome = ?, error = ? WHERE report_id = ? AND digest = ?`
unfoldable pub record_outcome : GcCandidateOutcome → List GcReportCandidate → List GcReportCandidate
unfolding text_eq
record_outcome o cs =
    map
      (λ c.
        if text_eq c.digest o.digest then record c { outcome = o.outcome; error = o.error } else c)
      cs

abbrev pub record_outcomes :
    List GcCandidateOutcome → List GcReportCandidate → List GcReportCandidate
record_outcomes [] cs = cs
record_outcomes (o ∷ os) cs = record_outcomes os (record_outcome o cs)

-- The update of a report, which is its last.
unfoldable pub finish_report : GcDeleteOutcome → GcReportDetail → GcReportDetail
unfolding record_outcome
finish_report o d = record d {
  report = record d.report {
    status = ReportStatus.deleted;
    deleted_at = some o.deleted_at;
    deleted_by = o.deleted_by;
    deleted_count = o.deleted_count;
    bytes_reclaimed = o.bytes_reclaimed;
    error = o.error;
  };
  candidates = record_outcomes o.candidates d.candidates;
}

-- `WHERE id = ? AND status = 'reported'`
unfoldable pub is_open : Text → GcReportDetail → Bool
unfolding has_id
is_open report_id d = has_id report_id d && is_reported d.report.status

module _ (site : Site) where
  abbrev pub per_candidate : {A : Type 0} → List A → M (Unit {0})
  per_candidate [] = pure tt
  per_candidate (c ∷ cs) = statement site.env >> per_candidate cs

  abbrev pub set_reports : (List GcReportDetail → List GcReportDetail) → M (Unit {0})
  set_reports f = puts (λ s. record s { tables = record s.tables { reports = f s.tables.reports } })

  unfoldable pub list_referenced_blob_digests : M (List Digest)
  unfolding referenced_digests
  list_referenced_blob_digests = do statement site.env; gets (λ s. referenced_digests s.tables)

  unfoldable pub is_blob_digest_referenced : Digest → M Bool
  unfolding is_referenced
  is_blob_digest_referenced digest = do
    statement site.env
    gets (λ s. is_referenced digest s.tables)

  -- The id is a primary key.
  unfoldable pub create_gc_report : GcReport → List GcReportCandidate → M (Unit {0})
  unfolding has_id
  create_gc_report report candidates = do
    statement site.env
    statement site.env
    taken ← gets (λ s. any (has_id report.id) s.tables.reports)
    reject taken infra
    per_candidate candidates
    statement site.env
    set_reports (λ rs. rs ++ record { report = report; candidates = candidates } ∷ [])

  unfoldable pub get_gc_report : Text → M GcReportDetail
  unfolding has_id
  get_gc_report report_id = do
    statement site.env
    row ← gets (λ s. find? (has_id report_id) s.tables.reports)
    detail ← lift (scan_report report_id row)
    statement site.env
    pure detail

  -- The number of the reports that go. The times are compared as the texts that are stored.
  unfoldable pub prune_expired_gc_reports : ℕ → M ℕ
  prune_expired_gc_reports now = do
    statement site.env
    let expired : GcReportDetail → Bool =
        λ d. is_reported d.report.status && not (site.env.collate_time now d.report.expires_at)
    gone ← gets (λ s. keep expired s.tables.reports)
    set_reports (keep (λ d. not (expired d)))
    pure (length gone)

  unfoldable pub mark_gc_report_deleted : Text → GcDeleteOutcome → M (Unit {0})
  unfolding is_open finish_report
  mark_gc_report_deleted report_id outcome = do
    statement site.env
    statement site.env
    found ← gets (λ s. any (is_open report_id) s.tables.reports)
    reject (not found) (new_conflict_error "gc report %q is not in reported state" (report_id ∷ []))
    per_candidate outcome.candidates
    statement site.env
    set_reports (map (λ d. if is_open report_id d then finish_report outcome d else d))
