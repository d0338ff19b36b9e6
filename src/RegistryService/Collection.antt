-- ===== src/RegistryService/Collection.antt =====
-- The garbage collector of blobs (internal/app/regixtry/service_gc.go) and its gate
-- (internal/app/regixtry/service.go). One request runs at a time here: a gate that is taken stays
-- taken, and waiting for it ends with the context of the request.
pub mod Candidates
pub mod Sparing
pub mod Safety
pub mod Gate
pub mod Once
use regixtry.Base.{
  ℕ, zero, suc, ◌+◌, ◌-◌, ◌*◌, ◌==◌, Bool, true, false, not, ◌&&◌, List, [], ◌∷◌, ◌++◌, Option,
  none, some, Text, text_eq, text_lt, ltb, leb, if◌then◌else◌, any, keep, map, sort_by, length,
  Result, ok, err,
}
use Prim.Native.Nat.{◌/◌}
use regixtry.Errors.{Error, infra}
use regixtry.Registry.Errors.{new_unsupported_error, new_conflict_error, new_validation_error}
use regixtry.Registry.Digest.{Digest, parse_digest}
use regixtry.BlobStore.{BlobFileInfo, list_blobs, delete_blob}
use regixtry.Storage.Tables.{
  ReportStatus, Outcome, GcReport, GcReportCandidate, GcReportDetail, GcCandidateOutcome,
  GcDeleteOutcome,
}
use regixtry.MetadataStore.Reports.{
  is_reported, list_referenced_blob_digests, is_blob_digest_referenced, create_gc_report,
  get_gc_report, prune_expired_gc_reports, mark_gc_report_deleted,
}
use regixtry.Storage.State.{
  State, Site, Request, M, pure, lift, try, ◌>>=◌, ◌>>◌, reject, gets, puts, ask,
}
use regixtry.RegistryService.Requests.{principal_id}

-- gcGraceWindow and gcReportTTL: a day
abbrev pub gc_grace_window : ℕ
gc_grace_window = 86400000000000

abbrev pub gc_report_ttl : ℕ
gc_report_ttl = 86400000000000

-- (*scanGate).acquire with room for one
unfoldable pub acquire : M (Unit {0})
acquire = do
  busy ← gets (λ s. not (ltb s.in_flight 1))
  reject busy infra
  puts (λ s. record s { in_flight = suc s.in_flight })

-- (*scanGate).release
unfoldable pub release : M (Unit {0})
release = puts (λ s. record s { in_flight = s.in_flight - 1 })

-- `defer release()`
unfoldable pub gated : {A : Type 0} → M A → M A
unfolding acquire release
gated m = acquire >> (try m >>= λ r. release >> lift r)

-- A blob that nothing refers to and that is older than the cutoff.
unfoldable pub is_candidate : List Digest → ℕ → BlobFileInfo → Bool
unfolding text_eq
is_candidate marked cutoff b = not (any (λ d. text_eq d b.digest) marked) && ltb b.mod_time cutoff

abbrev pub candidate : BlobFileInfo → GcReportCandidate
candidate b = record {
  digest = b.digest;
  size = b.size;
  mod_time = b.mod_time;
  outcome = Outcome.pending;
  error = none;
}

abbrev pub total_size : List GcReportCandidate → ℕ
total_size [] = 0
total_size (c ∷ cs) = c.size + total_size cs

-- What the loop of DeleteByGCReport has counted.
pub record Tally : Type 0 where
  pub deleted_count : ℕ
  pub bytes_reclaimed : ℕ
  pub failure_count : ℕ
  pub outcomes : List GcCandidateOutcome

unfoldable pub count : GcReportCandidate → GcCandidateOutcome → Tally → Tally
count c o t =
    let more : Tally = record t { outcomes = t.outcomes ++ o ∷ [] } in
    elim o.outcome [
      | Outcome.deleted ↦ record more {
        deleted_count = suc t.deleted_count;
        bytes_reclaimed = t.bytes_reclaimed + c.size;
      }
      | Outcome.failed ↦ record more { failure_count = suc t.failure_count }
      | _ ↦ more
    ]

abbrev pub outcome_of : Digest → Outcome → Option Error → GcCandidateOutcome
outcome_of digest outcome error = record { digest = digest; outcome = outcome; error = error }

abbrev pub removal_outcome : Digest → Result Error Bool → GcCandidateOutcome
removal_outcome digest (err e) = outcome_of digest Outcome.failed (some e)
removal_outcome digest (ok true) = outcome_of digest Outcome.deleted none
removal_outcome digest (ok false) = outcome_of digest Outcome.missing none

module _ (site : Site) where
  -- gcCandidates, which gives the cutoff too
  unfoldable pub gc_candidates : ℕ → M (List GcReportCandidate × ℕ)
  unfolding list_blobs list_referenced_blob_digests is_candidate text_lt
  gc_candidates now = do
    let cutoff = now - gc_grace_window
    blobs ← list_blobs site
    marked ← list_referenced_blob_digests site
    pure (
      sort_by (λ (a b : GcReportCandidate). text_lt a.digest b.digest)
          (map candidate (keep (is_candidate marked cutoff) blobs)),
      cutoff,
    )

  abbrev pub unlink : Digest → Digest → Result Error Bool → M GcCandidateOutcome
  unlink name digest (err e) = pure (outcome_of name Outcome.failed (some e))
  unlink name digest (ok true) = pure (outcome_of name Outcome.retained none)
  unlink name digest (ok false) =
      try (delete_blob site digest) >>= λ r. pure (removal_outcome name r)

  abbrev pub verify : Digest → Result Error Digest → M GcCandidateOutcome
  verify name (err e) = pure (outcome_of name Outcome.failed (some e))
  verify name (ok digest) = try (is_blob_digest_referenced site name) >>= λ r. unlink name digest r

  -- One candidate of the report, given the digests of the fresh computation.
  unfoldable pub collect_one : List Digest → GcReportCandidate → M GcCandidateOutcome
  unfolding text_eq parse_digest is_blob_digest_referenced delete_blob
  collect_one fresh c =
      if not (any (λ d. text_eq d c.digest) fresh)
      then pure (outcome_of c.digest Outcome.retained none)
      else verify c.digest (parse_digest c.digest)

  unfoldable pub collect : List Digest → Tally → List GcReportCandidate → M Tally
  unfolding collect_one count
  collect fresh t [] = pure t
  collect fresh t (c ∷ cs) = do o ← collect_one fresh c; collect fresh (count c o t) cs

  module _ (req : Request) where
    abbrev pub computing : M GcReportDetail
    computing = do
      now ← ask site.env.now
      started ← ask site.env.now
      prune_expired_gc_reports site now
      (candidates, cutoff) ← gc_candidates now
      id ← ask site.env.uuid
      ended ← ask site.env.now
      let report : GcReport = record {
        id = id;
        status = ReportStatus.reported;
        computed_at = now;
        expires_at = now + gc_report_ttl;
        grace_cutoff = cutoff;
        candidate_count = length candidates;
        candidate_bytes = total_size candidates;
        duration_millis = (ended - started) / 1000000;
        requested_by = principal_id req.principal;
        triggered_in_tenant = req.tenant;
        deleted_at = none;
        deleted_by = [];
        deleted_count = 0;
        bytes_reclaimed = 0;
        error = none;
      }
      create_gc_report site report candidates
      pure (record { report = report; candidates = candidates })

    unfoldable pub compute_gc_report : M GcReportDetail
    unfolding gated prune_expired_gc_reports gc_candidates create_gc_report
    compute_gc_report = gated computing

    -- The report of a finished loop.
    abbrev pub finished : ℕ → List GcReportCandidate → Tally → GcDeleteOutcome
    finished now candidates t = record {
      deleted_at = now;
      deleted_by = principal_id req.principal;
      deleted_count = t.deleted_count;
      bytes_reclaimed = t.bytes_reclaimed;
      error = if t.failure_count == 0 then none else some (t.failure_count, length candidates);
      candidates = t.outcomes;
    }

    abbrev pub deleting : Text → ℕ → List GcReportCandidate → M GcReportDetail
    deleting report_id now candidates = do
      (fresh, cutoff) ← gc_candidates now
      t ←
          collect (map (λ (c : GcReportCandidate). c.digest) fresh)
            (record { deleted_count = 0; bytes_reclaimed = 0; failure_count = 0; outcomes = [] })
            candidates
      mark_gc_report_deleted site report_id (finished now candidates t)
      get_gc_report site report_id

    unfoldable pub delete_by_gc_report : Text → M GcReportDetail
    unfolding gated get_gc_report gc_candidates collect mark_gc_report_deleted
    delete_by_gc_report report_id = do
      reject (not site.gc_delete_enabled) (
          new_unsupported_error
            "blob garbage collection delete is disabled (REGISTRY_GC_DELETE_ENABLED)")
      detail ← get_gc_report site report_id
      reject (not (is_reported detail.report.status))
          (new_conflict_error "gc report %q is not in reported state" (report_id ∷ []))
      now ← ask site.env.now
      reject (not (ltb now detail.report.expires_at))
          (new_validation_error "gc report %q has expired")
      gated (deleting report_id now detail.candidates)
