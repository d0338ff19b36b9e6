-- ===== src/AuthStore/Users.antt =====
-- The statements on auth_users.
use regixtry.Base.{
  Bool, ◌&&◌, not, List, [], ◌∷◌, Option, none, some, Text, codes, text_eq, any, find?, keep, map,
  if◌then◌else◌, sort_by, Result, ok, err,
}
use regixtry.Errors.{Error, infra}
use regixtry.Strings.{trim_space}
use regixtry.Auth.Errors.{new_not_found_error}
use regixtry.Auth.User
use regixtry.Auth.User.{User}
use regixtry.AuthStore.Actions.{Env, M, lift, reject, gets, puts, statement, ◌>>=◌, ◌>>◌}

abbrev pub checked : User → Result Error (Unit {0}) → Result Error User
checked u (ok _) = ok u
checked u (err e) = err e

-- scanUserRow: a row is validated when it is read.
unfoldable pub scan_user : User → Result Error User
unfolding User.validate
scan_user u = checked u (User.validate u)

-- scanUser: no row is a NotFound error.
unfoldable pub scan_one : Option User → Result Error User
unfolding scan_user
scan_one none = err (new_not_found_error (codes "user") [])
scan_one (some u) = scan_user u

abbrev pub cons_ok : Result Error User → Result Error (List User) → Result Error (List User)
cons_ok (ok u) (ok us) = ok (u ∷ us)
cons_ok (ok u) (err e) = err e
cons_ok (err e) us = err e

unfoldable pub scan_all : List User → Result Error (List User)
unfolding scan_user
scan_all [] = ok []
scan_all (u ∷ us) = cons_ok (scan_user u) (scan_all us)

-- INSERT ... ON CONFLICT(id) DO UPDATE: the row with the id is replaced, but for its creation time.
unfoldable pub upsert_row : User → List User → List User
unfolding text_eq
upsert_row u [] = u ∷ []
upsert_row u (x ∷ xs) =
    let rest = upsert_row u xs in
    if text_eq x.id u.id then record u { created_at = x.created_at } ∷ xs else x ∷ rest

-- username TEXT NOT NULL UNIQUE
unfoldable pub username_taken : User → List User → Bool
unfolding text_eq
username_taken u = any (λ x. text_eq x.username u.username && not (text_eq x.id u.id))

module _ (env : Env) where
  -- strings.ToLower(strings.TrimSpace(s))
  unfoldable pub normalize_username : Text → Text
  unfolding trim_space
  normalize_username s = map env.lower (trim_space s)

  unfoldable pub has_active_global_admin : M Bool
  has_active_global_admin = do
    statement env
    gets (λ db. any (λ u. u.is_admin && u.enabled) db.users)

  unfoldable pub list_users : M (List User)
  unfolding scan_all
  list_users = do
    statement env
    rows ← gets (λ db.
        sort_by (λ a b. env.collate a.username b.username) (keep (λ u. not u.is_robot) db.users))
    lift (scan_all rows)

  unfoldable pub list_robots : M (List User)
  unfolding scan_all
  list_robots = do
    statement env
    rows ←
        gets (λ db.
          sort_by (λ a b. env.collate a.username b.username) (keep (λ u. u.is_robot) db.users))
    lift (scan_all rows)

  unfoldable pub get_user_by_username : Text → M User
  unfolding normalize_username text_eq scan_one
  get_user_by_username username = do
    statement env
    row ← gets (λ db. find? (λ u. text_eq u.username (normalize_username username)) db.users)
    lift (scan_one row)

  unfoldable pub get_user_by_id : Text → M User
  unfolding trim_space text_eq scan_one
  get_user_by_id id = do
    statement env
    row ← gets (λ db. find? (λ u. text_eq u.id (trim_space id)) db.users)
    lift (scan_one row)

  unfoldable pub upsert_user : User → M (Unit {0})
  unfolding normalize_username User.validate username_taken upsert_row
  upsert_user user = do
    let u = record user { username = normalize_username user.username }
    lift (User.validate u)
    statement env
    taken ← gets (λ db. username_taken u db.users)
    reject taken infra
    puts (λ db. record db { users = upsert_row u db.users })

  -- One transaction of three statements. When no row was deleted the transaction is left open, so
  -- its deletions are never committed.
  unfoldable pub delete_user : Text → M (Unit {0})
  unfolding trim_space text_eq
  delete_user id = do
    statement env
    statement env
    statement env
    statement env
    found ← gets (λ db. any (λ u. text_eq u.id (trim_space id)) db.users)
    reject (not found) (new_not_found_error (codes "user") (trim_space id))
    statement env
    puts (λ db. record {
      users = keep (λ u. not (text_eq u.id (trim_space id))) db.users;
      grants = keep (λ g. not (text_eq g.user_id (trim_space id))) db.grants;
      tokens = keep (λ t. not (text_eq t.user_id (trim_space id))) db.tokens;
    })
