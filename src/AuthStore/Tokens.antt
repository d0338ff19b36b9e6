-- ===== src/AuthStore/Tokens.antt =====
-- The statements on auth_tokens.
use regixtry.Base.{
  ℕ, Bool, true, false, ◌||◌, ◌&&◌, not, List, [], ◌∷◌, ◌++◌, Option, none, some, Text, codes,
  text_eq, any, find?, keep, map, if◌then◌else◌, sort_by, Result, ok, err,
}
use regixtry.Errors.{Error, infra}
use regixtry.Strings.{trim_space}
use regixtry.Auth.Errors.{new_not_found_error}
use regixtry.Auth.Token
use regixtry.Auth.Token.{Token, TokenKind, access, admin_credential, other}
use regixtry.AuthStore.Actions.{Env, M, lift, reject, gets, puts, statement, ◌>>=◌, ◌>>◌}

unfoldable pub same_kind : TokenKind → TokenKind → Bool
unfolding text_eq
same_kind access access = true
same_kind admin_credential admin_credential = true
same_kind (other a) (other b) = text_eq a b
same_kind _ _ = false

abbrev pub checked : Token → Result Error (Unit {0}) → Result Error Token
checked t (ok _) = ok t
checked t (err e) = err e

-- scanTokenRow: a row is validated when it is read.
unfoldable pub scan_token : Token → Result Error Token
unfolding Token.validate
scan_token t = checked t (Token.validate t)

unfoldable pub scan_one : Option Token → Result Error Token
unfolding scan_token
scan_one none = err (new_not_found_error (codes "token") [])
scan_one (some t) = scan_token t

abbrev cons_ok : Result Error Token → Result Error (List Token) → Result Error (List Token)
cons_ok (ok t) (ok ts) = ok (t ∷ ts)
cons_ok (ok t) (err e) = err e
cons_ok (err e) ts = err e

unfoldable pub scan_all : List Token → Result Error (List Token)
unfolding scan_token
scan_all [] = ok []
scan_all (t ∷ ts) = cons_ok (scan_token t) (scan_all ts)

-- id, accessor and secret_hash are each unique.
unfoldable pub clashes : Token → List Token → Bool
unfolding text_eq
clashes t =
    any (λ x.
      text_eq x.id t.id || text_eq x.accessor t.accessor || text_eq x.secret_hash t.secret_hash)

abbrev is_unrevoked : Token → Bool
is_unrevoked t = elim t.revoked_at [ none ↦ true | some _ ↦ false ]

-- UPDATE ... SET revoked_at WHERE accessor = $1 AND revoked_at IS NULL, on one row
unfoldable pub revoke_row : Text → ℕ → Token → Token
unfolding text_eq
revoke_row accessor now t =
    if text_eq t.accessor accessor && is_unrevoked t then record t { revoked_at = some now } else t

module _ (env : Env) where
  -- The user must exist: user_id is a foreign key.
  unfoldable pub create_token : Token → M (Unit {0})
  unfolding Token.validate text_eq clashes
  create_token token = do
    lift (Token.validate token)
    statement env
    refused ←
        gets (λ db. clashes token db.tokens || not (any (λ u. text_eq u.id token.user_id) db.users))
    reject refused infra
    puts (λ db. record db { tokens = db.tokens ++ token ∷ [] })

  unfoldable pub get_token_by_secret_hash : TokenKind → Text → M Token
  unfolding same_kind trim_space text_eq scan_one
  get_token_by_secret_hash kind hash = do
    statement env
    row ← gets (λ db.
        find? (λ t. same_kind t.kind kind && text_eq t.secret_hash (trim_space hash)) db.tokens)
    lift (scan_one row)

  unfoldable pub get_token_by_accessor : TokenKind → Text → M Token
  unfolding same_kind trim_space text_eq scan_one
  get_token_by_accessor kind accessor = do
    statement env
    row ← gets (λ db.
        find? (λ t. same_kind t.kind kind && text_eq t.accessor (trim_space accessor)) db.tokens)
    lift (scan_one row)

  -- ORDER BY created_at DESC, on the text of the time
  unfoldable pub list_tokens_by_user : Text → TokenKind → M (List Token)
  unfolding same_kind trim_space text_eq scan_all
  list_tokens_by_user user_id kind = do
    statement env
    rows ← gets (λ db.
        sort_by (λ a b. env.collate_time b.created_at a.created_at)
          (keep (λ t. text_eq t.user_id (trim_space user_id) && same_kind t.kind kind) db.tokens))
    lift (scan_all rows)

  unfoldable pub revoke_token_by_accessor : Text → ℕ → M (Unit {0})
  unfolding trim_space text_eq revoke_row
  revoke_token_by_accessor accessor now = do
    statement env
    found ←
        gets (λ db. any (λ t. text_eq t.accessor (trim_space accessor) && is_unrevoked t) db.tokens)
    puts (λ db. record db { tokens = map (revoke_row (trim_space accessor) now) db.tokens })
    reject (not found) (new_not_found_error (codes "token") accessor)
