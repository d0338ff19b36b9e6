-- ===== src/AuthStore/Grants.antt =====
-- The statements on auth_repo_grants.
use regixtry.Base.{
  Bool, ◌&&◌, not, List, [], ◌∷◌, Text, codes, text_eq, any, keep, if◌then◌else◌, sort_by, Result,
  ok, err,
}
use regixtry.Errors.{Error, infra}
use regixtry.Strings.{trim_space}
use regixtry.Auth.Errors.{new_not_found_error}
use regixtry.Registry.Repository.{RepositoryRef, parse_repository_ref}
use regixtry.Auth.Grant
use regixtry.Auth.Grant.{RepoGrant}
use regixtry.AuthStore.Actions.{Env, M, lift, reject, gets, puts, statement, ◌>>=◌, ◌>>◌}

abbrev pub checked : RepoGrant → Result Error (Unit {0}) → Result Error RepoGrant
checked g (ok _) = ok g
checked g (err e) = err e

-- A grant is validated when it is read.
unfoldable pub scan_grant : RepoGrant → Result Error RepoGrant
unfolding Grant.validate
scan_grant g = checked g (Grant.validate g)

abbrev pub with_repository : Text → RepoGrant → Result Error RepositoryRef → Result Error RepoGrant
with_repository user_id g (ok r) = scan_grant (record g { user_id = user_id; repository = r })
with_repository user_id g (err e) = err e

-- ListRepoGrants parses the repository's name first.
unfoldable pub parse_grant : Text → RepoGrant → Result Error RepoGrant
unfolding scan_grant parse_repository_ref
parse_grant user_id g = with_repository user_id g (parse_repository_ref g.repository.name)

abbrev pub cons_ok :
    Result Error RepoGrant → Result Error (List RepoGrant) → Result Error (List RepoGrant)
cons_ok (ok g) (ok gs) = ok (g ∷ gs)
cons_ok (ok g) (err e) = err e
cons_ok (err e) gs = err e

unfoldable pub scan_grants :
    (RepoGrant → Result Error RepoGrant) → List RepoGrant → Result Error (List RepoGrant)
scan_grants scan [] = ok []
scan_grants scan (g ∷ gs) = cons_ok (scan g) (scan_grants scan gs)

-- PRIMARY KEY(user_id, repository)
unfoldable pub same_key : RepoGrant → RepoGrant → Bool
unfolding text_eq
same_key g h = text_eq g.user_id h.user_id && text_eq g.repository.name h.repository.name

-- INSERT ... ON CONFLICT(user_id, repository) DO UPDATE: role and update time are replaced.
unfoldable pub put_row : RepoGrant → List RepoGrant → List RepoGrant
unfolding same_key
put_row g [] = g ∷ []
put_row g (x ∷ xs) =
    let rest = put_row g xs in
    if same_key x g then record x { role = g.role; updated_at = g.updated_at } ∷ xs else x ∷ rest

module _ (env : Env) where
  -- The rows carry the id that was asked for, as given.
  unfoldable pub list_repo_grants : Text → M (List RepoGrant)
  unfolding trim_space text_eq scan_grants parse_grant
  list_repo_grants user_id = do
    statement env
    rows ← gets (λ db.
        sort_by (λ a b. env.collate a.repository.name b.repository.name)
          (keep (λ g. text_eq g.user_id (trim_space user_id)) db.grants))
    lift (scan_grants (parse_grant user_id) rows)

  unfoldable pub list_repo_grants_by_repository : RepositoryRef → M (List RepoGrant)
  unfolding text_eq scan_grants scan_grant
  list_repo_grants_by_repository repository = do
    statement env
    rows ← gets (λ db.
        sort_by (λ a b. env.collate a.user_id b.user_id)
          (keep (λ g. text_eq g.repository.name repository.name) db.grants))
    lift (scan_grants scan_grant rows)

  -- The user must exist: user_id is a foreign key.
  unfoldable pub put_repo_grant : RepoGrant → M (Unit {0})
  unfolding Grant.validate text_eq put_row
  put_repo_grant grant = do
    lift (Grant.validate grant)
    statement env
    known ← gets (λ db. any (λ u. text_eq u.id grant.user_id) db.users)
    reject (not known) infra
    puts (λ db. record db { grants = put_row grant db.grants })

  unfoldable pub delete_repo_grant : Text → RepositoryRef → M (Unit {0})
  unfolding trim_space text_eq
  delete_repo_grant user_id repository = do
    statement env
    found ← gets (λ db.
        any
          (λ g. text_eq g.user_id (trim_space user_id) && text_eq g.repository.name repository.name)
          db.grants)
    puts (λ db. record db {
      grants =
          keep
            (λ g.
              not (
                text_eq g.user_id (trim_space user_id)
                && text_eq g.repository.name repository.name))
            db.grants;
    })
    reject (not found) (new_not_found_error (codes "grant") repository.name)
