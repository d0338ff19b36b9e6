-- ===== src/RegistryService/Collection/Safety.antt =====
-- What the garbage collector may delete (DeleteByGCReport of internal/app/regixtry/service_gc.go).
use regixtry.Base.{
  ℕ, suc, ◌+◌, ◌<◌, Bool, true, false, not, List, [], ◌∷◌, Option, none, some, Text, text_eq,
  text_eq_iff, any, Elem-of_any, Elem, Elem-map, find?-Elem, map, ◌≡◌, ◌⊎◌, inl, refl, sym, ◌∙◌, ap,
  arith, ok,
}
use regixtry.Registry.Digest.{Digest, parse_digest}
use regixtry.Registry.Digest.Parsing.{parse_digest_iff}
use regixtry.Storage.Files.{File}
use regixtry.Storage.Tables.{GcReportCandidate, GcReportDetail, GcDeleteOutcome}
use regixtry.Storage.State.{State, World, Site, Request, M, ask}
use regixtry.BlobStore.{blob_path}
use regixtry.BlobStore.Listing.{Is}
use regixtry.MetadataStore.Reports.{
  is_referenced, is_reported, has_id, scan_report, per_candidate, get_gc_report,
  mark_gc_report_deleted,
}
use regixtry.RegistryService.Collection.{
  gc_grace_window, gated, acquire, release, finished, deleting, delete_by_gc_report,
}
use regixtry.RegistryService.Collection.Candidates.{AllCandidates, gc_candidates-AllCandidates}
use regixtry.RegistryService.Collection.Sparing.{Spared, Sparing, collect-Sparing}
use regixtry.Actions.Keeps.{Keeps, Keeps-bind, Keeps-pure, Keeps-lift, Keeps-gets, Keeps-reject}
use regixtry.Actions.States.{Of, Keeps-puts, Keeps-sent, after_sent}
use regixtry.Actions.Triples.{
  Triple, then_do, kept, returns, rejects, lifts, reads, writes, weaken, tried, given, excuse,
  finally,
}

module _ (site : Site) (s : State) (report_id : Text) where
  -- What lets the blob of a digest go, in the state that the request finds.
  pub record Collectable (d : Digest) : Type 0 where
    pub enabled : site.gc_delete_enabled ≡ true
    pub detail : GcReportDetail
    pub known : Elem detail s.tables.reports
    pub named : detail.report.id ≡ report_id
    pub reported : is_reported detail.report.status ≡ true
    pub candidate : GcReportCandidate
    pub listed : Elem candidate detail.candidates
    pub digest : candidate.digest ≡ d
    pub unreferenced : is_referenced d s.tables ≡ false
    pub clock : ℕ
    pub unexpired : site.env.now clock < detail.report.expires_at
    pub file : File
    pub there : Elem file s.files
    pub at : file.path ≡ blob_path site d
    pub old : file.modified + gc_grace_window < site.env.now clock

  abbrev Goal : World → Type 0
  Goal = Of (Spared site Collectable s.files s.tables)

  untouched : (w : World) → Is s w → Goal w
  untouched w h = record { holds = λ f m. inl (rw (ap (λ (x : State). x.files) h.holds) m) }

  scan_report-some :
      (o : Option GcReportDetail) (d : GcReportDetail) → scan_report report_id o ≡ ok d → o ≡ some d
  scan_report-some none d e = cc e
  scan_report-some (some x) d e = cc e

  get_gc_report-Known :
      Triple
        (Is s)
        (get_gc_report site report_id)
        (λ d w. (Elem d s.tables.reports × (d.report.id ≡ report_id)) × Is s w)
        Goal
  unfolding get_gc_report has_id
  get_gc_report-Known = then_do (kept (Keeps-sent site.env) untouched) (λ _.
      then_do
        {Q = λ row w.
          (((d : GcReportDetail)
              → row ≡ some d
              → Elem d s.tables.reports × (d.report.id ≡ report_id))
            × Is s w)}
        (reads _ (λ w h. (
          λ d e.
              let (m, q) = find?-Elem _ w.db.tables.reports e in
              (
                rw (ap (λ (x : State). x.tables.reports) h.holds) at m,
                (text_eq_iff d.report.id report_id).0 q,
              ),
          h,
        )))
        (λ row. given (λ known.
          then_do {Q = λ d w. ((Elem d s.tables.reports × (d.report.id ≡ report_id)) × Is s w)}
            (lifts (scan_report report_id row) (λ d w h e. (known d (scan_report-some row d e), h))
              untouched)
            (λ d. given (λ k.
              then_do (kept (Keeps-sent site.env) untouched) (λ _. returns _ (λ w h. (k, h))))))))

  per_candidate-Keeps :
      {A : Type 0} {P : State → Type 0} (cs : List A) → Keeps (Of P) (per_candidate site cs)
  per_candidate-Keeps [] = Keeps-pure tt
  per_candidate-Keeps (c ∷ cs) = after_sent _ _ (λ _. per_candidate-Keeps cs)

  marks-Keeps : (o : GcDeleteOutcome) → Keeps Goal (mark_gc_report_deleted site report_id o)
  unfolding mark_gc_report_deleted
  marks-Keeps o = after_sent _ _ (λ _. after_sent _ _ (λ _. Keeps-bind _ _ (Keeps-gets _) (λ _.
      Keeps-bind _ _ (Keeps-reject _ _) (λ _.
        Keeps-bind _ _ (per_candidate-Keeps o.candidates)
          (λ _. after_sent _ _ (λ _. Keeps-puts _ (λ x h. h)))))))

  get-Keeps : Keeps Goal (get_gc_report site report_id)
  unfolding get_gc_report
  get-Keeps = after_sent _ _ (λ _.
      Keeps-bind _ _ (Keeps-gets _)
        (λ _. Keeps-bind _ _ (Keeps-lift _) (λ _. after_sent _ _ (λ _. Keeps-pure _))))

  -- What the request has found out before it takes the gate.
  record Ready (d : GcReportDetail) (clock : ℕ) : Type 0 where
    enabled : site.gc_delete_enabled ≡ true
    known : Elem d s.tables.reports
    named : d.report.id ≡ report_id
    reported : is_reported d.report.status ≡ true
    unexpired : site.env.now clock < d.report.expires_at

  -- The state while the gate is taken.
  abbrev taken : State
  taken = record s { in_flight = suc s.in_flight }

  collectable :
      (detail : GcReportDetail) (clock : ℕ) (fresh : List GcReportCandidate) (c : GcReportCandidate)
      (d : Digest)
      → Ready detail clock
      → AllCandidates site taken (site.env.now clock) fresh
      → Elem c detail.candidates
      → any (λ x. text_eq x c.digest) (map (λ (x : GcReportCandidate). x.digest) fresh) ≡ true
      → parse_digest c.digest ≡ ok d
      → is_referenced c.digest s.tables ≡ false
      → Collectable d
  collectable detail clock fresh c d h all m found parses un =
      let (x, n, e) = Elem-of_any _ _ found in
      let (f, k, q) = Elem-map (λ (y : GcReportCandidate). y.digest) x fresh n in
      let is = all f k in
      let same : d ≡ c.digest = ((parse_digest_iff c.digest d).0 parses).0 in
      let twin : f.digest ≡ d = sym q ∙ ((text_eq_iff x c.digest).0 e ∙ sym same) in
      record {
        enabled = h.enabled;
        detail = detail;
        known = h.known;
        named = h.named;
        reported = h.reported;
        candidate = c;
        listed = m;
        digest = sym same;
        unreferenced = rw same un;
        clock = clock;
        unexpired = h.unexpired;
        file = is.file;
        there = is.there;
        at = is.at ∙ ap (blob_path site) twin;
        old = is.old;
      }

  abbrev SparingAll : World → Type 0
  SparingAll = Of (Sparing site Collectable s.files s.tables)

  spared : (w : World) → SparingAll w → Goal w
  spared w h = record { holds = h.holds.spared }

  -- Up to `in_flight` the state is the one that the request found.
  sparing :
      (x : State) (w : World) → x.files ≡ s.files → x.tables ≡ s.tables → Is x w → SparingAll w
  sparing x w p q h = record {
    holds = record {
      spared = λ f m. inl (rw (ap (λ (y : State). y.files) h.holds ∙ p) m);
      same = ap (λ (y : State). y.tables) h.holds ∙ q;
    };
  }

  deleting-Goal :
      (req : Request) (detail : GcReportDetail) (clock : ℕ)
      → Ready detail clock
      → Triple
          (Is taken)
          (deleting site req report_id (site.env.now clock) detail.candidates)
          (λ _. Goal)
          Goal
  deleting-Goal req detail clock h =
      then_do
        (excuse (gc_candidates-AllCandidates site taken (site.env.now clock))
          (λ w k. spared w (sparing taken w refl refl k)))
        (λ r. given (λ all.
          then_do
            (excuse
              (weaken (λ w k. sparing taken w refl refl k)
                (collect-Sparing site Collectable s.files s.tables
                  (map (λ (c : GcReportCandidate). c.digest) r.0) _ detail.candidates
                  (λ c d m found parses un.
                    collectable detail clock r.0 c d h all m found parses un))
                (λ _ w k. k))
              spared)
            (λ t.
              weaken spared
                (kept
                  (Keeps-bind _ _
                    (marks-Keeps (finished site req (site.env.now clock) detail.candidates t))
                    (λ _. get-Keeps))
                  (λ w k. k))
                (λ _ w k. k))))

  gated-Goal :
      {A : Type 0} (m : M A)
      → Triple (Is taken) m (λ _. Goal) Goal
      → Triple (Is s) (gated m) (λ _. Goal) Goal
  unfolding gated acquire release
  gated-Goal m t = then_do {Q = λ _. Is taken} acquired (λ _.
      then_do {Q = λ _. Goal} (tried t (λ _ w k. k) (λ _ w k. k))
        (λ r. kept (Keeps-bind _ _ (Keeps-puts _ (λ x k. k)) (λ _. Keeps-lift r)) (λ w k. k)))
    where
      acquired : Triple (Is s) acquire (λ _. Is taken) Goal
      acquired =
          unfold acquire in
          then_do {Q = λ _. Is s} (reads _ (λ w k. k)) (λ busy.
            then_do {Q = λ _. Is s} (rejects busy _ (λ w k e. k) untouched) (λ _. writes _ (λ w k.
              record {
                holds = ap (λ (x : State). record x { in_flight = suc x.in_flight }) k.holds;
              })))

  clock_read :
      Triple (Is s) (ask site.env.now) (λ n w. ((t : ℕ) × (n ≡ site.env.now t)) × Is s w) Goal
  unfolding ask
  clock_read = record { at = λ w h. ((w.tick, refl), record { holds = h.holds }) }

  delete-Goal :
      (req : Request) → Triple (Is s) (delete_by_gc_report site req report_id) (λ _. Goal) Goal
  unfolding delete_by_gc_report
  delete-Goal req =
      then_do {Q = λ _ w. ((site.gc_delete_enabled ≡ true) × Is s w)}
        (rejects _ _ (λ w h e. (on e, h)) untouched)
        (λ _. given (λ enabled. then_do get_gc_report-Known (λ detail. given (λ known.
          then_do {Q = λ _ w. ((is_reported detail.report.status ≡ true) × Is s w)}
            (rejects _ _ (λ w h e. (on e, h)) untouched)
            (λ _. given (λ reported. then_do clock_read (λ now. given (λ clock.
              then_do {Q = λ _ w. ((now < detail.report.expires_at) × Is s w)}
                (rejects _ _ (λ w h e. (ground arith, h)) untouched)
                (λ _. given (λ unexpired.
                  gated-Goal (deleting site req report_id now detail.candidates) (
                    rw clock.1 (
                      deleting-Goal req detail clock.0 (record {
                        enabled = enabled;
                        known = known.0;
                        named = known.1;
                        reported = reported;
                        unexpired = rw clock.1 at unexpired;
                      })))))))))))))
    where
      on : {b : Bool} → not b ≡ false → b ≡ true
      on e = ground arith

-- However a request to delete by a report ends, a file that it took away was the blob of a digest
-- that it was allowed to collect: deletion is switched on; there is a report with the given id, in
-- the state `reported` and unexpired, that lists the digest; no manifest of any tenant referred to
-- the digest; and a file under the path of the digest was last written more than a day before.
pub delete_by_gc_report-Spared :
    (site : Site) (req : Request) (report_id : Text) (w : World) (f : File)
    → Elem f w.db.files
    → Elem f (delete_by_gc_report site req report_id w).1.db.files
      ⊎ ((d : Digest) × Collectable site w.db report_id d × (f.path ≡ blob_path site d))
delete_by_gc_report-Spared site req report_id w f m =
    (finally w (delete-Goal site w.db report_id req) (record { holds = refl })).holds f m
