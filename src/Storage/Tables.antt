-- ===== src/Storage/Tables.antt =====
-- The rows of the metadata database (the schema in internal/infra/metadata/sqlite/store.go) and the
-- types of reports (internal/ports/regixtry.go).
use regixtry.Base.{ℕ, ℤ, List, Option, Text}
use regixtry.Errors.{Error}
use regixtry.Registry.Digest.{Digest}
use regixtry.Registry.Upload.{UploadState}

pub record RepositoryRow : Type 0 where
  pub id : ℕ
  pub tenant : Text
  pub name : Text
  pub created_at : ℕ

pub record ManifestRow : Type 0 where
  pub id : ℕ
  pub tenant : Text
  pub repository_id : ℕ
  pub digest : Digest
  pub media_type : Text
  pub size : ℤ
  pub payload : List ℕ
  pub created_at : ℕ
  pub pushed_by : Text
  pub subject_digest : Digest

pub record TagRow : Type 0 where
  pub id : ℕ
  pub tenant : Text
  pub repository_id : ℕ
  pub name : Text
  pub manifest_id : ℕ
  pub created_at : ℕ
  pub updated_at : ℕ

pub record BlobRow : Type 0 where
  pub manifest_id : ℕ
  pub digest : Digest
  pub media_type : Text
  pub size : ℤ
  pub position : ℕ

pub record UploadRow : Type 0 where
  pub tenant : Text
  pub upload : UploadState

-- type GCReportStatus
pub data ReportStatus : Type 0 where
  reported deleted : ReportStatus

-- The outcomes of a candidate.
pub data Outcome : Type 0 where
  pending deleted retained missing failed : Outcome

-- The error of a report counts the failures and the candidates.
pub record GcReport : Type 0 where
  pub id : Text
  pub status : ReportStatus
  pub computed_at : ℕ
  pub expires_at : ℕ
  pub grace_cutoff : ℕ
  pub candidate_count : ℕ
  pub candidate_bytes : ℕ
  pub duration_millis : ℕ
  pub requested_by : Text
  pub triggered_in_tenant : Text
  pub deleted_at : Option ℕ
  pub deleted_by : Text
  pub deleted_count : ℕ
  pub bytes_reclaimed : ℕ
  pub error : Option (ℕ × ℕ)

pub record GcReportCandidate : Type 0 where
  pub digest : Digest
  pub size : ℕ
  pub mod_time : ℕ
  pub outcome : Outcome
  pub error : Option Error

pub record GcReportDetail : Type 0 where
  pub report : GcReport
  pub candidates : List GcReportCandidate

pub record GcCandidateOutcome : Type 0 where
  pub digest : Digest
  pub outcome : Outcome
  pub error : Option Error

pub record GcDeleteOutcome : Type 0 where
  pub deleted_at : ℕ
  pub deleted_by : Text
  pub deleted_count : ℕ
  pub bytes_reclaimed : ℕ
  pub error : Option (ℕ × ℕ)
  pub candidates : List GcCandidateOutcome

-- A report stands with its candidates, which the database keeps in a table of their own, ordered by
-- position, and deletes with it. The counters give the next ids of the tables that count them.
pub record Tables : Type 0 where
  pub repositories : List RepositoryRow
  pub manifests : List ManifestRow
  pub tags : List TagRow
  pub blobs : List BlobRow
  pub uploads : List UploadRow
  pub reports : List GcReportDetail
  pub next_repository : ℕ
  pub next_manifest : ℕ
  pub next_tag : ℕ
