-- ===== src/AuthService/Sessions/Rights.antt =====
-- The grants that a session's principal carries (buildPrincipal of internal/app/auth/service.go).
use regixtry.Base.{
  ℕ, suc, Bool, true, false, List, [], ◌∷◌, Text, text_eq, text_eq_iff, ◌≡◌, ◌⊎◌, inl, inr, refl,
  sym, ap, ◌∙◌, Elem, Elem-keep, keep-Elem, Elem-sort, sort-Elem, keep, sort_by, if◌then◌else◌,
  Result, ok, err,
}
use regixtry.Errors.{Error, infra}
use regixtry.Strings.{trim_space}
use regixtry.Auth.Grant.{RepoGrant}
use regixtry.AuthStore.Actions.{Env, Db, World, try, statement}
use regixtry.AuthStore.Grants.{list_repo_grants, scan_grants, parse_grant, cons_ok}
use regixtry.AuthService.Grants.Delegation.{parse_grant-same, scan_grants-Elem, consed}
use regixtry.Actions.Triples.{Post, Triple, then_do, reads, lifts_or, tried, excuse}
use regixtry.Actions.States.{Of}
use regixtry.AuthService.Sessions.{or_none}
use regixtry.AuthService.Sessions.Reading.{Anything}

-- A row of the table for the user.
pub record Row (rows : List RepoGrant) (id : Text) (g : RepoGrant) : Type 0 where
  pub row : RepoGrant
  pub stored : Elem row rows
  pub owner : row.user_id ≡ trim_space id
  pub same_role : g.role ≡ row.role
  pub same_repository : g.repository.name ≡ row.repository.name

-- The listing failed: in the database, or on a row of the user that is not well formed.
abbrev pub Unlisted : Env → List RepoGrant → Text → Type 0
Unlisted env rows id =
    ((n : ℕ) × (env.fails n ≡ true))
    ⊎ ((row : RepoGrant) × Elem row rows
        × (row.user_id ≡ trim_space id)
        × (e : Error) × (parse_grant id row ≡ err e))

-- The grants are those of the user's rows in the table: each of them stands for such a row, and
-- each such row for one of them, unless the listing failed; then there are none.
pub record Holds (env : Env) (rows : List RepoGrant) (id : Text) (gs : List RepoGrant)
    : Type 0 where
  pub own : (g : RepoGrant) → Elem g gs → Row rows id g
  pub all :
      ((row : RepoGrant)
        → Elem row rows
        → row.user_id ≡ trim_space id
        → (g : RepoGrant) × Elem g gs
          × (g.role ≡ row.role)
          × (g.repository.name ≡ row.repository.name))
      ⊎ ((gs ≡ []) × Unlisted env rows id)

scanned-Elem :
    (scan : RepoGrant → Result Error RepoGrant) (h : RepoGrant) (gs hs : List RepoGrant)
    → scan_grants scan gs ≡ ok hs
    → Elem h hs
    → (g : RepoGrant) × Elem g gs × (scan g ≡ ok h)
unfolding scan_grants
scanned-Elem scan h [] hs e m = absurd (empty hs e m)
  where
    empty :
        (hs : List RepoGrant)
        → ◌≡◌ {A = Result Error (List RepoGrant)} (ok []) (ok hs)
        → Elem h hs
        → ⊥
    empty [] e m = m
    empty (x ∷ xs) e m = cc e
scanned-Elem scan h (x ∷ gs) hs e m =
    let (k, ks, p, q, s) = consed (scan x) _ hs e in
    elim (rw s at m) [
      | inl a ↦ (x, inl refl, p ∙ ap (λ (g : RepoGrant). ok g) (sym a))
      | inr n ↦ let (g, i, r) = scanned-Elem scan h gs ks q n in (g, inr i, r)
    ]

scan_grants-err :
    (scan : RepoGrant → Result Error RepoGrant) (gs : List RepoGrant) (e : Error)
    → scan_grants scan gs ≡ err e
    → (g : RepoGrant) × Elem g gs × (f : Error) × (scan g ≡ err f)
unfolding scan_grants
scan_grants-err scan [] e q = absurd (cc)
scan_grants-err scan (x ∷ gs) e q =
    failed (scan x) (scan_grants scan gs) refl q (λ f p. scan_grants-err scan gs f p)
  where
    failed :
        (r : Result Error RepoGrant) (rs : Result Error (List RepoGrant))
        → scan x ≡ r
        → cons_ok r rs ≡ err e
        → ((f : Error) → rs ≡ err f → (g : RepoGrant) × Elem g gs × (f : Error) × (scan g ≡ err f))
        → (g : RepoGrant) × Elem g (x ∷ gs) × (f : Error) × (scan g ≡ err f)
    failed (ok v) (ok vs) s q k = absurd (cc)
    failed (ok v) (err f) s q k = let (g, m, c, p) = k f refl in (g, inr m, c, p)
    failed (err f) rs s q k = (x, inl refl, f, s)

abbrev own_rows : Env → Text → List RepoGrant → List RepoGrant
own_rows env id rows =
    sort_by (λ a b. env.collate a.repository.name b.repository.name)
      (keep (λ g. text_eq g.user_id (trim_space id)) rows)

module _ (env : Env) (rows : List RepoGrant) (id : Text) where
  in_rows :
      (g : RepoGrant) → Elem g (own_rows env id rows) → Elem g rows × (g.user_id ≡ trim_space id)
  in_rows g m =
      let (k, q) = Elem-keep _ rows (Elem-sort _ g _ m) in
      (k, (text_eq_iff g.user_id (trim_space id)).0 q)

  rows_in :
      (g : RepoGrant) → Elem g rows → g.user_id ≡ trim_space id → Elem g (own_rows env id rows)
  rows_in g m q = sort-Elem _ g _ (keep-Elem _ rows m ((text_eq_iff g.user_id (trim_space id)).1 q))

  listed-Holds :
      (gs : List RepoGrant)
      → scan_grants (parse_grant id) (own_rows env id rows) ≡ ok gs
      → Holds env rows id gs
  listed-Holds gs e = record {
    own = λ g m.
        let (row, n, p) = scanned-Elem (parse_grant id) g (own_rows env id rows) gs e m in
        let (k, q) = in_rows row n in
        let (role, name) = parse_grant-same id row g p in
        record { row = row; stored = k; owner = q; same_role = role; same_repository = name };
    all = inl (λ row m q.
        let (g, p, n) =
          scan_grants-Elem (parse_grant id) row (own_rows env id rows) gs e (rows_in row m q) in
        (g, n, (parse_grant-same id row g p).0, (parse_grant-same id row g p).1));
  }

  unlisted-Holds : Unlisted env rows id → Holds env rows id []
  unlisted-Holds u = record { own = λ g m. absurd m; all = inr (refl, u) }

  unscanned :
      (e : Error)
      → scan_grants (parse_grant id) (own_rows env id rows) ≡ err e
      → Unlisted env rows id
  unscanned e q =
      let (row, m, f, p) = scan_grants-err (parse_grant id) (own_rows env id rows) e q in
      let (k, o) = in_rows row m in inr (row, k, o, f, p)

-- The table of grants.
abbrev pub Rows : List RepoGrant → World → Type 0
Rows rows = Of (λ (db : Db). db.grants ≡ rows)

module _ (env : Env) (rows : List RepoGrant) where
  sends : Triple (Rows rows) (statement env) (λ _. Rows rows) (λ _. (n : ℕ) × (env.fails n ≡ true))
  unfolding statement
  sends = record { at = λ w h. sent w h (env.fails w.tick) refl }
    where
      sent :
          (w : World)
          → Rows rows w
          → (b : Bool) → env.fails w.tick ≡ b
          → Post
              (λ (_ : Unit {0}). Rows rows)
              (λ _. (n : ℕ) × (env.fails n ≡ true))
              (if b then err infra else ok tt, record w { tick = suc w.tick })
      sent w h true e = (w.tick, e)
      sent w h false e = record { holds = h.holds }

  listing :
      (id : Text)
      → Triple
          (Rows rows)
          (list_repo_grants env id)
          (λ gs _. Holds env rows id gs)
          (λ _. Unlisted env rows id)
  unfolding list_repo_grants
  listing id = then_do (excuse sends (λ w u. inl u)) (λ _.
      then_do {Q = λ found _. found ≡ own_rows env id rows}
        (reads _ (λ w h. ap (own_rows env id) h.holds))
        (λ found.
          lifts_or (scan_grants (parse_grant id) found)
            (λ gs w h e. listed-Holds env rows id gs (rw h at e))
            (λ e w h q. unscanned env rows id e (rw h at q))))

  -- What the principal's grants are, whether the listing succeeds or fails.
  pub tried-Holds :
      (id : Text)
      → Triple
          (Rows rows)
          (try (list_repo_grants env id))
          (λ r w. Holds env rows id (or_none r) × Anything w)
          Anything
  tried-Holds id =
      tried (listing id) (λ gs w h. (h, tt)) (λ e w u. (unlisted-Holds env rows id u, tt))
