-- ===== src/RegistryService/Collection/Once.antt =====
-- A report is used once (MarkGCReportDeleted of internal/infra/metadata/sqlite/store.go and
-- DeleteByGCReport of internal/app/regixtry/service_gc.go).
use regixtry.Base.{
  ℕ, Bool, true, false, not, List, Option, none, some, Text, Elem, Elem-map, find?-Elem, Bool-cases,
  if◌then◌else◌, ◌≡◌, inl, inr, refl, ap, arith, Result, ok, err,
}
use regixtry.Errors.{Error}
use regixtry.Storage.Files.{File}
use regixtry.Storage.Tables.{GcReportCandidate, GcReportDetail, GcDeleteOutcome}
use regixtry.Storage.State.{State, World, Site, Request, M}
use regixtry.MetadataStore.Reports.{
  is_reported, has_id, is_open, scan_report, finish_report, get_gc_report, mark_gc_report_deleted,
}
use regixtry.RegistryService.Collection.{release, gated, deleting, delete_by_gc_report}
use regixtry.Actions.Keeps.{Keeps, Keeps-bind, Keeps-pure, Keeps-lift, Keeps-gets}
use regixtry.Actions.States.{Of, Keeps-sent, after_sent}
use regixtry.Actions.Triples.{
  Triple, Post, then_do, kept, returns, reads, writes, rejects, lifts, tried, given, returned,
}

abbrev Anything : World → Type 0
Anything w = Unit

always : {A : Type 0} {m : M A} → Keeps Anything m
always = record { at = λ w h. tt }

module _ (site : Site) (report_id : Text) where
  -- No report with the id is in the state `reported`.
  abbrev Closed : State → Type 0
  Closed s = (d : GcReportDetail) → Elem d s.tables.reports → is_open report_id d ≡ false

  closes :
      (o : GcDeleteOutcome) (d : GcReportDetail) → is_open report_id (finish_report o d) ≡ false
  unfolding is_open finish_report
  closes o d = ground arith

  finished-Closed :
      (o : GcDeleteOutcome) (d : GcReportDetail)
      → is_open report_id (if is_open report_id d then finish_report o d else d) ≡ false
  finished-Closed o d = elim (Bool-cases (is_open report_id d)) [
    | inl e ↦ rw e (closes o d)
    | inr e ↦ rw e e
  ]

  marked-Closed :
      (o : GcDeleteOutcome)
      → Triple Anything (mark_gc_report_deleted site report_id o) (λ _. Of Closed) Anything
  unfolding mark_gc_report_deleted
  marked-Closed o = then_do (kept always (λ w h. tt)) (λ _. then_do (kept always (λ w h. tt)) (λ _.
      then_do (kept always (λ w h. tt)) (λ _. then_do (kept always (λ w h. tt)) (λ _.
        then_do (kept always (λ w h. tt)) (λ _. then_do (kept always (λ w h. tt)) (λ _.
          writes _ (λ w h. record {
            holds = λ d m.
                let (x, n, e) = Elem-map _ d w.db.tables.reports m in rw e (finished-Closed o x);
          })))))))

  get-Closed : Keeps (Of Closed) (get_gc_report site report_id)
  unfolding get_gc_report
  get-Closed = after_sent _ _ (λ _.
      Keeps-bind _ _ (Keeps-gets _)
        (λ _. Keeps-bind _ _ (Keeps-lift _) (λ _. after_sent _ _ (λ _. Keeps-pure _))))

  deleting-Closed :
      (req : Request) (now : ℕ) (cs : List GcReportCandidate)
      → Triple Anything (deleting site req report_id now cs) (λ _. Of Closed) Anything
  deleting-Closed req now cs = then_do (kept always (λ w h. tt)) (λ _.
      then_do (kept always (λ w h. tt))
        (λ _. then_do (marked-Closed _) (λ _. kept get-Closed (λ w h. tt))))

  -- What is so after an action that returned is so after its run in the gate.
  gated-Closed :
      {A : Type 0} (m : M A)
      → Triple Anything m (λ _. Of Closed) Anything
      → Triple Anything (gated m) (λ _. Of Closed) Anything
  unfolding gated release
  gated-Closed {A} m t = then_do (kept always (λ w h. tt)) (λ _.
      then_do {Q = λ r w. ((a : A) → r ≡ ok a → Of Closed w)}
        (tried t (λ a w h b e. h) (λ e w h b q. cc q))
        (λ r.
          then_do {Q = λ _ w. ((a : A) → r ≡ ok a → Of Closed w)}
            (writes _ (λ w h a e. record { holds = (h a e).holds }))
            (λ _. lifts r (λ a w h e. h a e) (λ w h. tt))))

  deleted-Closed :
      (req : Request)
      → Triple Anything (delete_by_gc_report site req report_id) (λ _. Of Closed) Anything
  unfolding delete_by_gc_report
  deleted-Closed req = then_do (kept always (λ w h. tt)) (λ _.
      then_do (kept always (λ w h. tt)) (λ detail. then_do (kept always (λ w h. tt)) (λ _.
        then_do (kept always (λ w h. tt)) (λ now.
          then_do (kept always (λ w h. tt))
            (λ _. gated-Closed _ (deleting-Closed req now detail.candidates))))))

  -- With these files, and no report to use.
  record Spent (fs : List File) (s : State) : Type 0 where
    same : s.files ≡ fs
    closed : Closed s

  abbrev Same : List File → World → Type 0
  Same fs = Of (λ (s : State). s.files ≡ fs)

  spent : (fs : List File) (w : World) → Of (Spent fs) w → Same fs w
  spent fs w h = record { holds = h.holds.same }

  closed_status :
      (d : GcReportDetail)
      → has_id report_id d ≡ true
      → is_open report_id d ≡ false
      → is_reported d.report.status ≡ false
  unfolding is_open
  closed_status d h e = ground arith

  got-Closed :
      (fs : List File)
      → Triple
          (Of (Spent fs))
          (get_gc_report site report_id)
          (λ d w. (is_reported d.report.status ≡ false) × Of (Spent fs) w)
          (Same fs)
  unfolding get_gc_report
  got-Closed fs = then_do (kept (Keeps-sent site.env) (spent fs)) (λ _.
      then_do
        {Q = λ row w.
          (((d : GcReportDetail) → row ≡ some d → is_reported d.report.status ≡ false)
            × Of (Spent fs) w)}
        (reads _ (λ w h. (
          λ d e.
              let (m, q) = find?-Elem (has_id report_id) w.db.tables.reports e in
              closed_status d q (h.holds.closed d m),
          h,
        )))
        (λ row. given (λ k.
          then_do {Q = λ d w. ((is_reported d.report.status ≡ false) × Of (Spent fs) w)}
            (lifts _ (λ d w h e. (k d (is_some row d e), h)) (spent fs))
            (λ d. given (λ c.
              then_do (kept (Keeps-sent site.env) (spent fs)) (λ _. returns _ (λ w h. (c, h))))))))
    where
      is_some :
          (o : Option GcReportDetail) (d : GcReportDetail)
          → scan_report report_id o ≡ ok d
          → o ≡ some d
      is_some none d e = cc e
      is_some (some x) d e = cc e

  refused :
      (req : Request) (fs : List File)
      → Triple (Of (Spent fs)) (delete_by_gc_report site req report_id) (λ _ _. ⊥) (Same fs)
  unfolding delete_by_gc_report
  refused req fs = then_do {Q = λ _. Of (Spent fs)} (rejects _ _ (λ w h e. h) (spent fs)) (λ _.
      then_do (got-Closed fs) (λ detail. given (λ closed.
        then_do {Q = λ _ _. ⊥} (rejects _ _ (λ w h e. clash closed e) (spent fs))
          (λ _. record { at = λ w h. absurd h }))))
    where
      clash : {b : Bool} → b ≡ false → not b ≡ false → ⊥
      clash p q = ground arith

never :
    {A : Type 0} (E : World → Type 0) (r : Result Error A) (w : World)
    → Post (λ _ _. ⊥) E (r, w)
    → ((e : Error) × (r ≡ err e)) × E w
never E (ok a) w h = absurd h
never E (err e) w h = ((e, refl), h)

-- A report is used once: after a request to delete by it that succeeded, every other such request
-- fails, whoever makes it, and leaves every file where it is.
pub delete_by_gc_report-IsOnce :
    (site : Site) (req other : Request) (report_id : Text) (w v : World) (d : GcReportDetail)
    → delete_by_gc_report site req report_id w ≡ (ok d, v)
    → ((e : Error) × ((delete_by_gc_report site other report_id v).0 ≡ err e))
      × ((delete_by_gc_report site other report_id v).1.db.files ≡ v.db.files)
delete_by_gc_report-IsOnce site req other report_id w v d e =
    let closed : Of (Closed site report_id) (delete_by_gc_report site req report_id w).1 =
      returned w d (deleted-Closed site report_id req) tt (ap (λ x. x.0) e) in
    let start : Of (Spent site report_id v.db.files) v = record {
      holds = record { same = refl; closed = (rw (ap (λ x. x.1) e) at closed).holds };
    } in
    let run = delete_by_gc_report site other report_id v in
    let (r, h) =
      never (Same site report_id v.db.files) run.0 run.1
        ((refused site report_id other v.db.files).at v start) in
    (r, h.holds)
