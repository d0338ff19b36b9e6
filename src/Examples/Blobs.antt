-- ===== src/Examples/Blobs.antt =====
-- A registry with one blob that nothing refers to, and a report that lists it; pushes of manifests.
use regixtry.Base.{
  ℕ, ◌+◌, pos, true, false, List, [], ◌∷◌, Option, none, some, codes, length, text_lt, ltb, ◌≡◌,
  ◌⊎◌, inl, refl, Elem, ok, err,
}
use Prim.Native.Nat.{◌%◌}
use regixtry.Errors.{Error}
use regixtry.Registry.Digest.{Digest}
use regixtry.Registry.Repository.{RepositoryRef}
use regixtry.Storage.Files.{File}
use regixtry.Storage.Tables.{
  Tables, ReportStatus, Outcome, GcReport, GcReportCandidate, GcReportDetail,
}
use regixtry.Storage.State.{
  Env, World, Site, Request, ManifestEnvelope, ◌>>=◌, statement, gets, ask, ask?, reject, puts,
  pure, lift, try,
}
use regixtry.Base.{text_eq}
use regixtry.Registry.Descriptor.{Descriptor}
use regixtry.BlobStore.Paths.{IsName}
use regixtry.BlobStore.Committing.{Inserted, Truthful, commit_upload-Inserted}
use regixtry.BlobStore.{Reader, blob_path, commit_upload}
use regixtry.BlobStore.Addressing.{Addressed}
use regixtry.BlobStore.Operations.{BlobCall, Reaches, call, Reaches-Addressed}
use regixtry.BlobStore.Listing.{Is}
use regixtry.RegistryService.Collection.{compute_gc_report, delete_by_gc_report, gc_candidates}
use regixtry.RegistryService.Collection.Candidates.{AllCandidates, gc_candidates-AllCandidates}
use regixtry.RegistryService.Collection.Safety.{Collectable, delete_by_gc_report-Spared}
use regixtry.RegistryService.Collection.Gate.{gc_gate-IsReleased}
use regixtry.RegistryService.Collection.Once.{delete_by_gc_report-IsOnce}
use regixtry.Actions.Triples.{Triple}

abbrev pub zeros : ℕ → List ℕ
zeros ℕ.zero = []
zeros (ℕ.suc n) = 0 ∷ zeros n

abbrev pub registry_env : Env
registry_env = record {
  fails = λ t. false;
  now = λ t. 1000000000000000 + t;
  uuid = λ t. codes "report";
  random = λ t. some (codes "0a");
  hash_secret = λ s. s;
  hash_password = λ t s. some s;
  check_password = λ h p. true;
  lower = λ c. c;
  collate = λ a b. text_lt a b;
  collate_time = λ a b. ltb a b;
}

abbrev pub registry_site : (List ℕ → Option ManifestEnvelope) → Site
registry_site unmarshal = record {
  env = registry_env;
  root_dir = codes "srv" ∷ [];
  sha256 = λ bs. length bs % 256 ∷ zeros 31;
  marshal_upload = λ u. u.id;
  unmarshal_upload = λ id. some (record {
    id = id;
    repository = record { name = codes "app" };
    status = codes "active";
    size = pos 0;
    started_at = 1;
    updated_at = 1;
    location = [];
  });
  unmarshal_manifest = unmarshal;
  written = λ t. 0;
  is_exist = λ files target t. false;
  access = λ a. ok tt;
  delete_enabled = true;
  gc_delete_enabled = true;
}

abbrev site : Site
site = registry_site (λ bs. none)

abbrev pub request : Request
request = record { tenant = codes "main"; principal = none }

abbrev pub blob_digest : Digest
blob_digest = codes "sha256:0200000000000000000000000000000000000000000000000000000000000000"

abbrev pub blob_file : File
blob_file = record {
  path =
      codes "0200000000000000000000000000000000000000000000000000000000000000"
      ∷ codes "sha256"
      ∷ codes "blobs"
      ∷ codes "srv"
      ∷ [];
  bytes = 7 ∷ 7 ∷ [];
  modified = 5;
}

abbrev pub no_tables : Tables
no_tables = record {
  repositories = [];
  manifests = [];
  tags = [];
  blobs = [];
  uploads = [];
  reports = [];
  next_repository = 1;
  next_manifest = 1;
  next_tag = 1;
}

abbrev report : GcReport
report = record {
  id = codes "r1";
  status = ReportStatus.reported;
  computed_at = 999999999999000;
  expires_at = 1086399999999000;
  grace_cutoff = 913599999999000;
  candidate_count = 1;
  candidate_bytes = 2;
  duration_millis = 0;
  requested_by = [];
  triggered_in_tenant = codes "main";
  deleted_at = none;
  deleted_by = [];
  deleted_count = 0;
  bytes_reclaimed = 0;
  error = none;
}

abbrev listed : GcReportCandidate
listed = record {
  digest = blob_digest;
  size = 2;
  mod_time = 5;
  outcome = Outcome.pending;
  error = none;
}

abbrev stored : World
stored = record {
  db = record {
    files = blob_file ∷ [];
    tables = record no_tables {
      reports = record { report = report; candidates = listed ∷ [] } ∷ [];
    };
    in_flight = 0;
    scans = [];
  };
  tick = 0;
}

delete_by_gc_report-Spared_example :
    Elem blob_file (delete_by_gc_report site request (codes "r1") stored).1.db.files
    ⊎ ((d : Digest) × Collectable site stored.db (codes "r1") d
        × (blob_file.path ≡ blob_path site d))
delete_by_gc_report-Spared_example =
    delete_by_gc_report-Spared site request (codes "r1") stored blob_file (inl refl)

gc_gate-IsReleased_example :
    ((compute_gc_report site request stored).1.db.in_flight ≡ 0)
    × ((delete_by_gc_report site request (codes "r1") stored).1.db.in_flight ≡ 0)
gc_gate-IsReleased_example = gc_gate-IsReleased site request (codes "r1") stored

gc_candidates-AllCandidates_example :
    Triple
      (Is stored.db)
      (gc_candidates site 1000000000000000)
      (λ r w. AllCandidates site stored.db 1000000000000000 r.0 × Is stored.db w)
      (Is stored.db)
gc_candidates-AllCandidates_example = gc_candidates-AllCandidates site stored.db 1000000000000000

abbrev empty : World
empty = record {
  db = record { files = []; tables = no_tables; in_flight = 0; scans = [] };
  tick = 0;
}

abbrev app : RepositoryRef
app = record { name = codes "app" }

abbrev chunk : Reader
chunk = record { content = 7 ∷ 7 ∷ []; broken = false }

abbrev begun : World
begun = (call site (BlobCall.begins app) empty).1

abbrev filled : World
filled = (call site (BlobCall.puts_chunk (codes "0a") chunk) begun).1

Reaches-Addressed_example :
    Addressed site (call site (BlobCall.commits (codes "0a") blob_digest) filled).1.db
Reaches-Addressed_example =
    Reaches-Addressed site empty _
      (Reaches.next
        (Reaches.next (Reaches.next Reaches.start (BlobCall.begins app))
          (BlobCall.puts_chunk (codes "0a") chunk))
        (BlobCall.commits (codes "0a") blob_digest))
      (λ f m. absurd m)

deleted : (delete_by_gc_report site request (codes "r1") stored).1.db.files ≡ []
unfolding delete_by_gc_report ◌>>=◌ statement gets ask ask? reject puts pure lift try
deleted = refl

committed :
    (call site (BlobCall.commits (codes "0a") blob_digest) filled).1.db.files
    ≡ record blob_file { modified = 1000000000000014 } ∷ []
unfolding call ◌>>=◌ statement gets ask ask? reject puts pure lift try
committed = refl

abbrev used : GcReportDetail
used = record {
  report = record report {
    status = ReportStatus.deleted;
    deleted_at = some 1000000000000002;
    deleted_count = 1;
    bytes_reclaimed = 2;
  };
  candidates = record listed { outcome = Outcome.deleted } ∷ [];
}

abbrev swept : World
swept = record {
  db = record {
    files = [];
    tables = record no_tables { reports = used ∷ [] };
    in_flight = 0;
    scans = [];
  };
  tick = 15;
}

sweeps : delete_by_gc_report site request (codes "r1") stored ≡ (ok used, swept)
unfolding delete_by_gc_report ◌>>=◌ statement gets ask ask? reject puts pure lift try
sweeps = refl

delete_by_gc_report-IsOnce_example :
    ((e : Error) × ((delete_by_gc_report site request (codes "r1") swept).0 ≡ err e))
    × ((delete_by_gc_report site request (codes "r1") swept).1.db.files ≡ [])
delete_by_gc_report-IsOnce_example =
    delete_by_gc_report-IsOnce site request request (codes "r1") stored swept used sweeps

abbrev committed_blob : Descriptor
committed_blob = record { media_type = []; digest = blob_digest; size = pos 2 }

commits_ok : (commit_upload site (codes "0a") blob_digest filled).0 ≡ ok committed_blob
unfolding call commit_upload ◌>>=◌ statement gets ask ask? reject puts pure lift try
commits_ok = refl

filled-Addressed : Addressed site filled.db
filled-Addressed =
    Reaches-Addressed site empty filled
      (Reaches.next (Reaches.next Reaches.start (BlobCall.begins app))
        (BlobCall.puts_chunk (codes "0a") chunk))
      (λ f m. absurd m)

upload-IsName : IsName (codes "0a")
upload-IsName = record {
  whole = (refl, (refl, tt));
  plain = unfold text_eq in refl;
  below = unfold text_eq in refl;
}

site-Truthful : Truthful site
site-Truthful files p n e = absurd (cc e)

commit_upload-Inserted_example :
    (blob_digest ≡ blob_digest)
    × Inserted site filled.db.files
        (commit_upload site (codes "0a") blob_digest filled).1.db.files
        (codes "0a")
        blob_digest
commit_upload-Inserted_example =
    commit_upload-Inserted site (codes "0a") blob_digest filled committed_blob site-Truthful
      filled-Addressed upload-IsName commits_ok
