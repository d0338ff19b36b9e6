-- ===== src/AuthService/Grants/Escalation.antt =====
-- What a caller who is no administrator can do to the grants (internal/app/auth/service.go).
use regixtry.Base.{
  ℕ, Bool, true, false, ◌&&◌, not, List, Text, text_eq_iff, ◌≡◌, refl, sym, ap, ◌∙◌, arith, Elem,
  find?-Elem, any_of_Elem, keep-Elem, sort-Elem, Result, ok, err,
}
use regixtry.Errors.{Error}
use regixtry.Strings.{trim_space}
use regixtry.Registry.Repository.{RepositoryRef, parse_repository_ref}
use regixtry.Auth.Grant.{RepoRole, RepoGrant, allows_admin, validate_role}
use regixtry.Auth.User.{User}
use regixtry.Auth.Principal.{Principal}
use regixtry.AuthStore.Actions.{Env, Db, World, gets}
use regixtry.Actions.Keeps.{Lasting, Keeps-ask, Keeps-statement, Keeps-lift, Keeps-reject}
use regixtry.Actions.Triples.{
  Post, Triple, then_do, kept, reads, writes, lifts, rejects, returns, branches, given,
}
use regixtry.AuthStore.Grants as Store
use regixtry.AuthStore.Grants.{same_key, scan_grants, parse_grant}
use regixtry.AuthStore.Users.{get_user_by_username, scan_one, normalize_username}
use regixtry.AuthStore.Sound.{scan_one-row}
use regixtry.AuthService.Guards.{require_admin_or_repo_admin}
use regixtry.AuthService.Grants.{
  grant_of, administers, protect_admins, put_repository_grant, delete_repository_grant,
}
use regixtry.AuthService.Grants.Delegation.{
  SameAdmins, NoAdmin, parse_grant-same, scan_grants-Elem, put_row-SameAdmins, keep-SameAdmins,
}

-- What the tables hold is `d`.
record Tables (d : Db) (w : World) : Type 0 where
  same : w.db ≡ d

Tables-Lasting : (d : Db) → Lasting (Tables d)
Tables-Lasting d = record { next = λ w h. record { same = h.same } }

-- The grants that make administrators are those of `d`.
record Administered (d : Db) (w : World) : Type 0 where
  rows : SameAdmins w.db.grants d.grants

unchanged : {d : Db} (w : World) → Tables d w → Administered d w
unchanged w h = record { rows = λ g a. rw (ap (λ (x : Db). x.grants) h.same) (λ m. m, λ m. m) }

table_read :
    {A : Type 0} (f : Db → A) (d : Db)
    → Triple (Tables d) (gets f) (λ a w. (a ≡ f d) × Tables d w) (Administered d)
table_read f d = reads f (λ w h. (ap f h.same, h))

refuted : (a b : Bool) → (a ≡ true → b ≡ true) → b ≡ false → a ≡ false
refuted true b f e = absurd (cc (f refl, e))
refuted false b f e = refl

both : (a b : Bool) → (a && b) ≡ true → (a ≡ true) × (b ≡ true)
both a b e = ground arith

conj : (a b : Bool) → a ≡ true → b ≡ true → (a && b) ≡ true
conj a b p q = ground arith

-- Where no grant that was read makes an administrator of the repository, no row does.
administers-NoAdmin :
    (id : Text) (repo : RepositoryRef) (gs existing : List RepoGrant)
    → ((g : RepoGrant)
        → Elem g gs
        → g.user_id ≡ trim_space id
        → (h : RepoGrant) × (parse_grant id g ≡ ok h) × Elem h existing)
    → administers repo existing ≡ false
    → NoAdmin (trim_space id) repo gs
unfolding administers
administers-NoAdmin id repo gs existing f e g m u r =
    refuted (allows_admin g.role) _
      (λ a.
        let (h, p, n) = f g m u in
        let (role, name) = parse_grant-same id g h p in
        any_of_Elem _ h existing n (
          conj _ _ ((text_eq_iff h.repository.name repo.name).1 (name ∙ r))
            (ap allows_admin role ∙ a)))
      e

module _ (env : Env) (d : Db) where
  grants_read :
      (id : Text)
      → Triple
          (Tables d)
          (Store.list_repo_grants env id)
          (λ existing w.
            ((g : RepoGrant)
              → Elem g d.grants
              → g.user_id ≡ trim_space id
              → (h : RepoGrant) × (parse_grant id g ≡ ok h) × Elem h existing)
            × Tables d w)
          (Administered d)
  unfolding Store.list_repo_grants
  grants_read id = then_do (kept (Keeps-statement (Tables-Lasting d) env) unchanged) (λ _.
      then_do (table_read _ d) (λ rows.
        lifts (scan_grants (parse_grant id) rows)
          (λ existing w h e. (
            λ g m u. scan_grants-Elem (parse_grant id) g rows existing e (
                rw h.0 (
                  sort-Elem _ g _
                    (keep-Elem _ d.grants m ((text_eq_iff g.user_id (trim_space id)).1 u)))),
            h.1,
          ))
          (λ w h. unchanged w h.1)))

  protected :
      (actor : Principal) (target : User) (repo : RepositoryRef)
      → actor.is_admin ≡ false
      → Triple
          (Tables d)
          (protect_admins env actor target repo)
          (λ _ w. NoAdmin (trim_space target.id) repo d.grants × Tables d w)
          (Administered d)
  unfolding protect_admins
  protected actor target repo e =
      branches (not actor.is_admin)
        (λ _. then_do (grants_read target.id) (λ existing.
          rejects _ _ (λ w h q. (administers-NoAdmin target.id repo d.grants existing h.0 q, h.1))
            (λ w h. unchanged w h.1)))
        (λ w h q. absurd (cc (ap not e, q)))

  target_read :
      (name : Text)
      → Triple
          (Tables d)
          (get_user_by_username env name)
          (λ u w. Elem u d.users × Tables d w)
          (Administered d)
  unfolding get_user_by_username
  target_read name = then_do (kept (Keeps-statement (Tables-Lasting d) env) unchanged) (λ _.
      then_do (table_read _ d) (λ row.
        lifts (scan_one row)
          (λ u w h e. ((find?-Elem _ d.users (sym h.0 ∙ scan_one-row row u e)).0, h.1))
          (λ w h. unchanged w h.1)))

  -- The rows that the deletion of a user's grant leaves.
  deleted :
      (id : Text) (repo : RepositoryRef)
      → NoAdmin (trim_space id) repo d.grants
      → Triple
          (Tables d)
          (Store.delete_repo_grant env id repo)
          (λ _. Administered d)
          (Administered d)
  unfolding Store.delete_repo_grant
  deleted id repo f = then_do (kept (Keeps-statement (Tables-Lasting d) env) unchanged) (λ _.
      then_do {Q = λ _. Tables d} (reads _ (λ w h. h)) (λ found.
        then_do {Q = λ _. Administered d}
          (writes _ (λ w h. record {
            rows =
                rw (ap (λ (x : Db). x.grants) h.same)
                  (keep-SameAdmins (trim_space id) repo d.grants f);
          }))
          (λ _. rejects _ _ (λ w h e. h) (λ w h. h))))

  -- The rows that storing a grant leaves.
  stored :
      (g : RepoGrant)
      → allows_admin g.role ≡ false
      → ((y : RepoGrant) → Elem y d.grants → same_key y g ≡ true → allows_admin y.role ≡ false)
      → Triple (Tables d) (Store.put_repo_grant env g) (λ _. Administered d) (Administered d)
  unfolding Store.put_repo_grant
  stored g p f = then_do {Q = λ _. Tables d} (lifts _ (λ _ w h e. h) unchanged) (λ _.
      then_do (kept (Keeps-statement (Tables-Lasting d) env) unchanged) (λ _.
        then_do {Q = λ _. Tables d} (reads _ (λ w h. h)) (λ known.
          then_do {Q = λ _. Tables d} (rejects _ _ (λ w h e. h) unchanged) (λ _. writes _ (λ w h.
            record {
              rows = rw (ap (λ (x : Db). x.grants) h.same) (put_row-SameAdmins g d.grants p f);
            })))))

  keyed :
      (target : User) (repo : RepositoryRef) (role : RepoRole) (now : ℕ)
      → trim_space target.id ≡ target.id
      → NoAdmin (trim_space target.id) repo d.grants
      → (y : RepoGrant) → Elem y d.grants
      → same_key y (grant_of target.id repo role now) ≡ true
      → allows_admin y.role ≡ false
  unfolding same_key
  keyed target repo role now t f y m e =
      let (u, r) = both _ _ e in
      f y m ((text_eq_iff y.user_id target.id).0 u ∙ sym t)
        ((text_eq_iff y.repository.name repo.name).0 r)

  put_triple :
      (actor : Principal) (repository username : Text) (role : RepoRole)
      → actor.is_admin ≡ false
      → ((u : User) → Elem u d.users → trim_space u.id ≡ u.id)
      → Triple
          (Tables d)
          (put_repository_grant env actor repository username role)
          (λ _. Administered d)
          (Administered d)
  unfolding put_repository_grant require_admin_or_repo_admin
  put_triple actor repository username role e trimmed =
      then_do (kept (Keeps-lift (parse_repository_ref (trim_space repository))) unchanged) (λ repo.
        then_do (kept (Keeps-reject _ _) unchanged) (λ _.
          then_do (kept (Keeps-lift (validate_role role)) unchanged) (λ _.
            then_do {Q = λ _ w. (allows_admin role ≡ false) × Tables d w}
              (rejects (not actor.is_admin && allows_admin role) _
                (λ w h q. (no_admin actor.is_admin (allows_admin role) e q, h)) unchanged)
              (λ _. given (λ p. then_do (target_read (normalize_username env username)) (λ target.
                given (λ known. then_do (protected actor target repo e) (λ _. given (λ f.
                  then_do (kept (Keeps-ask (Tables-Lasting d) env.now) unchanged) (λ now.
                    then_do
                      (stored (grant_of target.id repo role now) p
                        (keyed target repo role now (trimmed target known) f))
                      (λ _. returns _ (λ w h. h))))))))))))
    where
      no_admin : (a b : Bool) → a ≡ false → (not a && b) ≡ false → b ≡ false
      no_admin a b e q = ground arith

  delete_triple :
      (actor : Principal) (repository username : Text)
      → actor.is_admin ≡ false
      → Triple
          (Tables d)
          (delete_repository_grant env actor repository username)
          (λ _. Administered d)
          (Administered d)
  unfolding delete_repository_grant require_admin_or_repo_admin
  delete_triple actor repository username e =
      then_do (kept (Keeps-lift (parse_repository_ref (trim_space repository))) unchanged) (λ repo.
        then_do (kept (Keeps-reject _ _) unchanged) (λ _.
          then_do (target_read (normalize_username env username)) (λ target. given (λ known.
            then_do (protected actor target repo e) (λ _. given (λ f. deleted target.id repo f))))))

both_ways :
    {A : Type 0} (d : Db) (r : Result Error A) (w : World)
    → Post (λ _. Administered d) (Administered d) (r, w)
    → SameAdmins w.db.grants d.grants
both_ways d (ok a) w h = h.rows
both_ways d (err e) w h = h.rows

-- A caller who is no administrator, whatever its own grants are, leaves the grants that make
-- repository administrators as they are when it puts a grant, whether the call succeeds or fails:
-- it adds none and changes none. The ids of the users have no spaces at their ends.
pub put_repository_grant-SameAdmins :
    (env : Env) (actor : Principal) (repository username : Text) (role : RepoRole) (w : World)
    → actor.is_admin ≡ false
    → ((u : User) → Elem u w.db.users → trim_space u.id ≡ u.id)
    → SameAdmins (put_repository_grant env actor repository username role w).1.db.grants w.db.grants
put_repository_grant-SameAdmins env actor repository username role w e trimmed =
    let r = put_repository_grant env actor repository username role w in
    both_ways w.db r.0 r.1
      ((put_triple env w.db actor repository username role e trimmed).at w (record { same = refl }))

-- A caller who is no administrator, whatever its own grants are, leaves the grants that make
-- repository administrators as they are when it deletes a grant, whether the call succeeds or
-- fails.
pub delete_repository_grant-SameAdmins :
    (env : Env) (actor : Principal) (repository username : Text) (w : World)
    → actor.is_admin ≡ false
    → SameAdmins (delete_repository_grant env actor repository username w).1.db.grants w.db.grants
delete_repository_grant-SameAdmins env actor repository username w e =
    let r = delete_repository_grant env actor repository username w in
    both_ways w.db r.0 r.1
      ((delete_triple env w.db actor repository username e).at w (record { same = refl }))
