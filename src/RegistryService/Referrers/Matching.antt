-- ===== src/RegistryService/Referrers/Matching.antt =====
-- What the referrers of a manifest are (Referrers of internal/app/regixtry/queries.go).
use regixtry.Base.{
  ℕ, Bool, true, false, not, ◌&&◌, List, [], ◌∷◌, Text, text_eq, text_eq_iff, text_lt, Elem,
  Elem-sort, Elem-keep, keep, sort_by, Bool-cases, if◌then◌else◌, >>=-eq-ok, ◌≡◌, ◌⊎◌, inl, inr,
  refl, sym, ◌∙◌, ap, arith, Result, ok, err,
}
use regixtry.Base
use regixtry.Errors.{Error}
use regixtry.Strings.{is_nil, trim_space}
use regixtry.Registry.Digest.{Digest, parse_digest}
use regixtry.Registry.Digest.Parsing.{parse_digest_iff}
use regixtry.Registry.Manifest.{Manifest}
use regixtry.Registry.Repository.{RepositoryRef}
use regixtry.Storage.Tables.{ManifestRow, Tables}
use regixtry.Storage.State.{State, World, Site, Request}
use regixtry.MetadataStore.Joins.{belongs}
use regixtry.MetadataStore.Listings.{ReferrerRow, scan_each, referrer, list_referrers}
use regixtry.RegistryService.Payloads.{parse_manifest_payload}
use regixtry.RegistryService.Requests.{authorize}
use regixtry.RegistryService.Referrers.{
  ReferrerDescriptor, resolve_artifact_type, referrer_of, is_skipped, add_referrer, matching,
  referrers,
}
use regixtry.BlobStore.Listing.{Is}
use regixtry.Actions.Keeps.{Keeps-lift}
use regixtry.Actions.States.{Keeps-sent}
use regixtry.Actions.Triples.{Triple, then_do, kept, reads, lifts, given, returned}

-- No filter, or the artifact type asked for.
abbrev pub IsWanted : Text → ReferrerDescriptor → Type 0
IsWanted wanted d = (is_nil wanted ≡ true) ⊎ (d.artifact_type ≡ wanted)

abbrev IsMatch : Text → List ReferrerRow → ReferrerDescriptor → Type 0
IsMatch wanted rows d =
    IsWanted wanted d × ((row : ReferrerRow) × Elem row rows × (d.digest ≡ row.digest))

unskipped :
    (wanted : Text) (m : Manifest)
    → is_skipped wanted m ≡ false
    → (is_nil wanted ≡ true) ⊎ (resolve_artifact_type m ≡ wanted)
unskipped wanted m h = ground (arith, text_eq_iff (resolve_artifact_type m) wanted)

added :
    (wanted : Text) (row : ReferrerRow) (m : Manifest)
    (rest : Result Error (List ReferrerDescriptor)) (ds : List ReferrerDescriptor)
    (d : ReferrerDescriptor)
    → add_referrer wanted row m rest ≡ ok ds
    → Elem d ds
    → (IsWanted wanted d × (d.digest ≡ row.digest))
      ⊎ ((es : List ReferrerDescriptor) × (rest ≡ ok es) × Elem d es)
added wanted row m rest ds d e n = elim (Bool-cases (is_skipped wanted m)) [
  | inl s ↦ inr (ds, rw s at e, n)
  | inr s ↦
      let q : Base.◌>>=◌ rest (λ es. ok (referrer_of row m ∷ es)) ≡ ok ds = rw s at e in
      let (es, p, r) = >>=-eq-ok rest _ q in
      let same : referrer_of row m ∷ es ≡ ds = cc r in
      elim (rw (sym same) at n) [
        | inl k ↦ inl (rw k (unskipped wanted m s), ap (λ (x : ReferrerDescriptor). x.digest) k)
        | inr k ↦ inr (es, p, k)
      ]
]

matching-IsMatch :
    (site : Site) (wanted : Text) (rows : List ReferrerRow) (ds : List ReferrerDescriptor)
    (d : ReferrerDescriptor)
    → matching site wanted rows ≡ ok ds
    → Elem d ds
    → IsMatch wanted rows d
unfolding matching
matching-IsMatch site wanted [] ds d e n = let q : [] ≡ ds = cc e in absurd (rw (sym q) at n)
matching-IsMatch site wanted (row ∷ rows) ds d e n =
    let (r, _, q) =
      >>=-eq-ok (parse_manifest_payload site row.digest row.media_type row.payload) _ e in
    elim (added wanted row r.0 (matching site wanted rows) ds d q n) [
      | inl (w, k) ↦ (w, (row, inl refl, k))
      | inr (es, p, k) ↦
          let (w, (x, m, same)) = matching-IsMatch site wanted rows es d p k in
          (w, (x, inr m, same))
    ]

consed :
    {B : Type 0} (r : Result Error B) (rest : Result Error (List B)) (ys : List B)
    → (elim r [ err e ↦ err e | ok y ↦ elim rest [ err e ↦ err e | ok vs ↦ ok (y ∷ vs) ] ]) ≡ ok ys
    → (v : B) × (vs : List B) × (r ≡ ok v) × (rest ≡ ok vs) × (v ∷ vs ≡ ys)
consed (ok v) (ok vs) ys e = (v, vs, refl, refl, cc e)
consed (ok v) (err x) ys e = cc e
consed (err x) rest ys e = cc e

scan_each-Elem :
    {A B : Type 0} (f : A → Result Error B) (xs : List A) (ys : List B) (y : B)
    → scan_each f xs ≡ ok ys
    → Elem y ys
    → (x : A) × Elem x xs × (f x ≡ ok y)
scan_each-Elem f [] ys y e n = let q : [] ≡ ys = cc e in absurd (rw (sym q) at n)
scan_each-Elem f (x ∷ xs) ys y e n =
    let (v, vs, p, q, r) = consed (f x) (scan_each f xs) ys e in
    elim (rw (sym r) at n) [
      | inl k ↦ (x, inl refl, rw k p)
      | inr k ↦ let (z, m, t) = scan_each-Elem f xs vs y q k in (z, inr m, t)
    ]

referrer-row : (m : ManifestRow) (r : ReferrerRow) → referrer m ≡ ok r → r.digest ≡ m.digest
referrer-row m r e = from (parse_digest m.digest) refl e
  where
    from :
        (x : Result Error Digest)
        → parse_digest m.digest ≡ x
        → (elim x [
          | err y ↦ err y
          | ok d ↦
              ok (record {
                digest = d;
                media_type = m.media_type;
                size = m.size;
                payload = m.payload;
              })
        ])
          ≡ ok r
        → r.digest ≡ m.digest
    from (err y) p q = cc q
    from (ok d) p q =
        let built : ReferrerRow = record {
          digest = d;
          media_type = m.media_type;
          size = m.size;
          payload = m.payload;
        } in
        let same : built ≡ r = cc q in
        sym (ap (λ (x : ReferrerRow). x.digest) same) ∙ ((parse_digest_iff m.digest d).0 p).0

-- A manifest of the tenant, stored with this digest as that of its subject.
pub record Refers (t : Tables) (tenant subject : Text) (digest : Text) : Type 0 where
  pub row : ManifestRow
  pub there : Elem row t.manifests
  pub tenant_is : row.tenant ≡ tenant
  pub subject_is : row.subject_digest ≡ subject
  pub digest_is : digest ≡ row.digest

abbrev Anything : World → Type 0
Anything w = Unit

module _ (site : Site) (req : Request) where
  selected :
      (t : Tables) (repository : RepositoryRef) (subject : Digest) (rows : List ReferrerRow)
      (r : ReferrerRow)
      → scan_each referrer (
          sort_by
            (λ (a b : ManifestRow). text_lt a.digest b.digest)
            (keep
              (λ (m : ManifestRow).
                text_eq m.tenant req.tenant
                && belongs req.tenant repository.name t m.repository_id
                && text_eq m.subject_digest subject
                && not (is_nil m.subject_digest))
              t.manifests))
        ≡ ok rows
      → Elem r rows
      → Refers t req.tenant subject r.digest
  selected t repository subject rows r e n =
      let (m, k, q) = scan_each-Elem referrer _ rows r e n in
      let (there, p) =
        Elem-keep
          (λ (x : ManifestRow).
            text_eq x.tenant req.tenant
            && belongs req.tenant repository.name t x.repository_id
            && text_eq x.subject_digest subject
            && not (is_nil x.subject_digest))
          t.manifests (Elem-sort (λ (a b : ManifestRow). text_lt a.digest b.digest) m _ k) in
      record {
        row = m;
        there = there;
        tenant_is = ground (arith, text_eq_iff m.tenant req.tenant);
        subject_is = ground (arith, text_eq_iff m.subject_digest subject);
        digest_is = referrer-row m r q;
      }

  -- The rows that the store lists refer to the subject.
  abbrev AllRefer : Tables → Digest → List ReferrerRow → Type 0
  AllRefer t subject rows = (r : ReferrerRow) → Elem r rows → Refers t req.tenant subject r.digest

  list_referrers-AllRefer :
      (s : State) (repository : RepositoryRef) (subject : Digest)
      → Triple
          (Is s)
          (list_referrers site req.tenant repository subject)
          (λ rows _. AllRefer s.tables subject rows)
          Anything
  unfolding list_referrers
  list_referrers-AllRefer s repository subject = then_do (kept (Keeps-lift _) (λ w h. tt)) (λ _.
      then_do (kept (Keeps-lift _) (λ w h. tt)) (λ _.
        then_do (kept (Keeps-sent site.env) (λ w h. tt)) (λ _.
          then_do
            {Q = λ found w.
              ((rows : List ReferrerRow)
                → scan_each referrer found ≡ ok rows
                → AllRefer s.tables subject rows)}
            (reads _ (λ w h rows e r n.
              rw (ap (λ (x : State). x.tables) (sym h.holds))
                (selected w.db.tables repository subject rows r e n)))
            (λ found. lifts _ (λ rows w h e. h rows e) (λ w h. tt)))))

  -- What is so of a referrer in the answer.
  abbrev pub IsReferrer : Tables → Text → Text → ReferrerDescriptor → Type 0
  IsReferrer t subject artifact_type d =
      IsWanted (trim_space artifact_type) d × Refers t req.tenant subject d.digest

  referrers-All :
      (s : State) (name subject artifact_type : Text)
      → Triple
          (Is s)
          (referrers site req name subject artifact_type)
          (λ ds _.
            (d : ReferrerDescriptor) → Elem d ds → IsReferrer s.tables subject artifact_type d)
          Anything
  unfolding referrers authorize
  referrers-All s name subject artifact_type =
      then_do (kept (Keeps-lift _) (λ w h. tt)) (λ repository.
        then_do (kept (Keeps-lift _) (λ w h. tt)) (λ _.
          then_do {Q = λ digest w. ((digest ≡ subject) × Is s w)}
            (lifts _ (λ d w h e. (((parse_digest_iff subject d).0 e).0, h)) (λ w h. tt))
            (λ digest. given (λ same. then_do (list_referrers-AllRefer s repository digest) (λ rows.
              lifts _
                (λ ds w h e d n.
                  let (wanted, (row, m, q)) =
                    matching-IsMatch site (trim_space artifact_type) rows ds d e n in
                  (wanted, rw (q, sym same) (h row m)))
                (λ w h. tt))))))

-- Every referrer in the answer to a request is a stored manifest of the request's tenant that has
-- the digest asked for as its subject, under the digest that the answer gives; and it has the
-- artifact type asked for, where one is asked for.
pub referrers-IsReferrer :
    (site : Site) (req : Request) (name subject artifact_type : Text) (w : World)
    (ds : List ReferrerDescriptor) (d : ReferrerDescriptor)
    → (referrers site req name subject artifact_type w).0 ≡ ok ds
    → Elem d ds
    → IsReferrer site req w.db.tables subject artifact_type d
referrers-IsReferrer site req name subject artifact_type w ds d e n =
    returned w ds (referrers-All site req w.db name subject artifact_type) (record { holds = refl })
      e d n
