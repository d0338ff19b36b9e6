-- ===== src/AuthService/Sessions/Credentials.antt =====
-- What a caller has shown when a session is given or accepted (internal/app/auth/service.go).
use regixtry.Base.{
  ℕ, suc, ◌<◌, Bool, true, false, not, List, [], ◌∷◌, none, Text, codes, text_eq_iff, ◌≡◌, refl, ap,
  arith, Elem, Result, ok, err,
}
use regixtry.Errors.{Error}
use regixtry.Strings.{trim_space}
use regixtry.Auth.User.{User}
use regixtry.Auth.Token
use regixtry.Auth.Token.{
  Token, TokenKind, access, admin_credential, other, check_active, is_expired, is_revoked,
}
use regixtry.Auth.Scope.{Scope}
use regixtry.Auth.Principal.{Principal}
use regixtry.AuthStore.Actions.{Env, Db, World, M}
use regixtry.Actions.Triples.{
  Triple, then_do, lifts, rejects, returns, weaken, given, returned, kept,
}
use regixtry.Actions.Keeps.{Keeps, Keeps-bind, Keeps-pure, Keeps-lift, Keeps-gets, Keeps-reject}
use regixtry.Actions.States.{Keeps-puts, Keeps-asked, Keeps-asked?, after_sent, after_asked}
use regixtry.Auth.Grant.{RepoGrant}
use regixtry.AuthStore.Grants.{list_repo_grants}
use regixtry.AuthStore.Tokens.{create_token}
use regixtry.AuthService.Guards.{short_accessor}
use regixtry.AuthStore.Users.{normalize_username}
use regixtry.AuthService.Sessions.{
  LoginResult, hidden, or_invalid, issued_token, build_principal, issue_access_token,
  granted_scopes, get_active_user_by_username, login_with_password, login_with_preissued_token,
  login_with_preissued_token, verify_access_token,
}
use regixtry.AuthService.Sessions.Rights.{Holds, Rows, tried-Holds}
use regixtry.AuthService.Sessions.Reading.{
  Anything, At, unhidden, check_active-active, At-ask, token_read, user_read, name_read, tried_eq,
}

invalid_ok : {A : Type 0} (r : Result Error A) (a : A) → or_invalid r ≡ ok a → r ≡ ok a
invalid_ok (ok b) a e = e
invalid_ok (err f) a e = cc

enabled_user : (b : Bool) → not b ≡ false → b ≡ true
enabled_user b e = ground arith

module _ (env : Env) where
  -- What stands behind a principal that a bearer token is verified as.
  pub record Accepted (d : Db) (now : ℕ) (bearer : Text) (p : Principal) : Type 0 where
    pub token : Token
    pub stored : Elem token d.tokens
    pub is_access : token.kind ≡ access
    pub matches : token.secret_hash ≡ trim_space (env.hash_secret bearer)
    pub unrevoked : token.revoked_at ≡ none
    pub unexpired : now < token.expires_at
    pub user : User
    pub known : Elem user d.users
    pub owner : user.id ≡ trim_space token.user_id
    pub enabled : user.enabled ≡ true
    pub identity :
        (p.user_id ≡ user.id) × (p.is_admin ≡ user.is_admin) × (p.is_read_only ≡ user.is_read_only)
    pub rights : Holds env d.grants user.id p.grants
    pub until : p.expires_at ≡ token.expires_at
    pub scopes : Token.scopes token ≡ ok p.scopes

  Built : List RepoGrant → User → Token → Principal → Type 0
  Built rows user token p =
      ((p.user_id ≡ user.id) × (p.is_admin ≡ user.is_admin) × (p.is_read_only ≡ user.is_read_only))
      × Holds env rows user.id p.grants
      × (p.expires_at ≡ token.expires_at)
      × (Token.scopes token ≡ ok p.scopes)

  At-Rows : {d : Db} {n : ℕ} (w : World) → At d n w → Rows d.grants w
  At-Rows w h = record { holds = ap (λ (x : Db). x.grants) h.tables }

  build_principal-Built :
      (rows : List RepoGrant) (user : User) (token : Token)
      → Triple
          (Rows rows)
          (build_principal env user token)
          (λ p _. Built rows user token p)
          Anything
  unfolding build_principal Built
  build_principal-Built rows user token = then_do (tried-Holds env rows user.id) (λ grants.
      given (λ held.
        then_do {Q = λ ss _. Token.scopes token ≡ ok ss} (lifts _ (λ ss w h e. e) (λ w h. tt))
          (λ ss. returns _ (λ w h. ((refl, refl, refl), held, refl, h)))))

  verify_triple :
      (bearer : Text) (d : Db) (n : ℕ)
      → Triple
          (At d n)
          (verify_access_token env bearer)
          (λ p _. Accepted d (env.now (suc n)) bearer p)
          Anything
  unfolding verify_access_token Built
  verify_triple bearer d n =
      then_do (tried_eq env _ (token_read env access (env.hash_secret bearer) d n)) (λ found.
        then_do (lifts (hidden found) (λ t w h e. h t (unhidden found t e)) (λ w h. tt)) (λ stored.
          given (λ row. then_do (At-ask env env.now d (suc n)) (λ now.
            then_do
              {Q = λ _ w.
                ((stored.revoked_at ≡ none) × (env.now (suc n) < stored.expires_at))
                × At d (suc (suc n)) w}
              (lifts (check_active stored now)
                (λ _ w h e. (check_active-active stored _ (rw h.1 at e), h.0)) (λ w h. tt))
              (λ _. given (λ live. then_do (user_read env stored.user_id d (suc (suc n))) (λ user.
                given (λ who.
                  then_do {Q = λ _ w. (user.enabled ≡ true) × Rows d.grants w}
                    (rejects _ _ (λ w h e. (enabled_user user.enabled e, At-Rows w h)) (λ w h. tt))
                    (λ _. given (λ on.
                      then_do (tried_eq env _ (build_principal-Built d.grants user stored))
                        (λ built.
                          lifts (or_invalid built)
                            (λ p w h e.
                              let b = h p (invalid_ok built p e) in
                              record {
                                token = stored;
                                stored = row.0;
                                is_access = row.1;
                                matches = row.2;
                                unrevoked = live.0;
                                unexpired = live.1;
                                user = user;
                                known = who.0;
                                owner = who.1;
                                enabled = on;
                                identity = b.0;
                                rights = b.1;
                                until = b.2;
                                scopes = b.3;
                              })
                            (λ w h. tt))))))))))))

  -- A bearer token that is verified is one of the stored access tokens, by the hash of its secret;
  -- that token is neither revoked nor expired at the time the clock gives, its user is in the table
  -- and enabled, and the principal has that user's id and flags, the token's expiry and the scopes
  -- the token stores. Its grants are those of the user's rows in the table, each with the row's role
  -- and repository, or none where the database failed or such a row is not well formed.
  pub verify_access_token-Accepted :
      (bearer : Text) (w : World) (p : Principal)
      → (verify_access_token env bearer w).0 ≡ ok p
      → Accepted w.db (env.now (suc w.tick)) bearer p
  verify_access_token-Accepted bearer w p e =
      returned w p (verify_triple bearer w.db w.tick) (record { tables = refl; moment = refl }) e

  Known : Db → Text → User → Type 0
  Known d name u =
      Elem u d.users
      × (u.username ≡ normalize_username env (normalize_username env name))
      × (u.enabled ≡ true)

  active_read :
      (name : Text) (d : Db) (n : ℕ)
      → Triple
          (At d n)
          (get_active_user_by_username env name)
          (λ u w. Known d name u × At d (suc n) w)
          Anything
  unfolding get_active_user_by_username Known
  active_read name d n =
      then_do (tried_eq env _ (name_read env (normalize_username env name) d n)) (λ found.
        then_do (lifts (hidden found) (λ u w h e. h u (unhidden found u e)) (λ w h. tt)) (λ u.
          then_do {Q = λ _ w. Known d name u × At d (suc n) w}
            (rejects _ _ (λ w h e. ((h.0.0, h.0.1, enabled_user u.enabled e), h.1)) (λ w h. tt))
            (λ _. returns u (λ w h. h))))

  -- The principal has the user's identity, flags and grants.
  abbrev pub SameUser : List RepoGrant → User → LoginResult → Type 0
  SameUser rows user r =
      (r.principal.user_id ≡ user.id)
      × (r.principal.is_admin ≡ user.is_admin)
      × (r.principal.is_read_only ≡ user.is_read_only)
      × Holds env rows user.id r.principal.grants

  granted_scopes-Rows :
      (rows : List RepoGrant) (user : User) (requested : List Scope)
      → Keeps (Rows rows) (granted_scopes env user requested)
  unfolding granted_scopes list_repo_grants
  granted_scopes-Rows rows user [] = Keeps-pure []
  granted_scopes-Rows rows user (s ∷ ss) =
      Keeps-bind _ _ (after_sent _ _ (λ _. Keeps-bind _ _ (Keeps-gets _) (λ _. Keeps-lift _)))
        (λ grants. Keeps-pure _)

  create_token-Rows :
      (rows : List RepoGrant) (token : Token) → Keeps (Rows rows) (create_token env token)
  unfolding create_token
  create_token-Rows rows token = Keeps-bind _ _ (Keeps-lift _) (λ _. after_sent _ _ (λ _.
      Keeps-bind _ _ (Keeps-gets _)
        (λ _. Keeps-bind _ _ (Keeps-reject _ _) (λ _. Keeps-puts _ (λ db h. h)))))

  accessor-Rows :
      (rows : List RepoGrant) (prefix : Text) → Keeps (Rows rows) (short_accessor env prefix)
  accessor-Rows rows prefix = after_asked _ _ (λ id. Keeps-pure _)

  issue_access_token-SameUser :
      (rows : List RepoGrant) (user : User) (requested : List Scope)
      → Triple
          (Rows rows)
          (issue_access_token env user requested)
          (λ r _. SameUser rows user r)
          Anything
  unfolding issue_access_token Built
  issue_access_token-SameUser rows user requested = then_do (through (Keeps-asked? _)) (λ secret.
      then_do (through (granted_scopes-Rows rows user requested)) (λ scopes.
        then_do (through (Keeps-asked _)) (λ now. then_do (through (Keeps-asked _)) (λ id.
          then_do (through (accessor-Rows rows (codes "atk"))) (λ accessor.
            let token = issued_token env user scopes secret now id accessor in
            then_do (through (create_token-Rows rows token)) (λ _.
              then_do (build_principal-Built rows user token)
                (λ p. returns _ (λ w h. (h.0.0, h.0.1, h.0.2, h.1)))))))))
    where
      through :
          {A : Type 0} {m : M A}
          → Keeps (Rows rows) m
          → Triple (Rows rows) m (λ _. Rows rows) Anything
      through k = kept k (λ w h. tt)

  -- What stands behind a session that a password opens.
  pub record PasswordLogin (d : Db) (name password : Text) (r : LoginResult) : Type 0 where
    pub user : User
    pub known : Elem user d.users
    pub named : user.username ≡ normalize_username env (normalize_username env name)
    pub enabled : user.enabled ≡ true
    pub human : user.is_robot ≡ false
    pub proved : env.check_password user.password_hash password ≡ true
    pub identity : SameUser d.grants user r

  password_triple :
      (name password : Text) (requested : List Scope) (d : Db) (n : ℕ)
      → Triple
          (At d n)
          (login_with_password env name password requested)
          (λ r _. PasswordLogin d name password r)
          Anything
  unfolding login_with_password Known
  password_triple name password requested d n = then_do (active_read name d n) (λ user.
      given (λ who.
        then_do {Q = λ _ w. (user.is_robot ≡ false) × Rows d.grants w}
          (rejects _ _ (λ w h e. (e, At-Rows w h)) (λ w h. tt))
          (λ _. given (λ human.
            then_do
              {Q = λ _ w. (env.check_password user.password_hash password ≡ true) × Rows d.grants w}
              (rejects _ _ (λ w h e. (enabled_user _ e, h)) (λ w h. tt))
              (λ _. given (λ proved.
                weaken (λ w h. h) (issue_access_token-SameUser d.grants user requested)
                  (λ r w h. record {
                    user = user;
                    known = who.0;
                    named = who.1;
                    enabled = who.2;
                    human = human;
                    proved = proved;
                    identity = h;
                  })))))))

  -- A session that a password opens is for a user of the table with that name, who is enabled and
  -- no robot and whose password hash the password fits; the session's principal has that user's id
  -- and flags. Its grants are those of the user's rows in the table, each with the row's role and
  -- repository, or none where the database failed or such a row is not well formed.
  pub login_with_password-PasswordLogin :
      (name password : Text) (requested : List Scope) (w : World) (r : LoginResult)
      → (login_with_password env name password requested w).0 ≡ ok r
      → PasswordLogin w.db name password r
  login_with_password-PasswordLogin name password requested w r e =
      returned w r (password_triple name password requested w.db w.tick)
        (record { tables = refl; moment = refl }) e

  -- What stands behind a session that a stored credential opens.
  pub record TokenLogin (d : Db) (now : ℕ) (name secret : Text) (r : LoginResult) : Type 0 where
    pub user : User
    pub known : Elem user d.users
    pub named : user.username ≡ normalize_username env (normalize_username env name)
    pub enabled : user.enabled ≡ true
    pub token : Token
    pub stored : Elem token d.tokens
    pub is_credential : token.kind ≡ admin_credential
    pub matches : token.secret_hash ≡ trim_space (env.hash_secret secret)
    pub owner : token.user_id ≡ user.id
    pub unrevoked : token.revoked_at ≡ none
    pub unexpired : now < token.expires_at
    pub identity : SameUser d.grants user r

  token_triple :
      (name secret : Text) (requested : List Scope) (d : Db) (n : ℕ)
      → Triple
          (At d n)
          (login_with_preissued_token env name secret requested)
          (λ r _. TokenLogin d (env.now (suc (suc n))) name secret r)
          Anything
  unfolding login_with_preissued_token Known
  token_triple name secret requested d n = then_do (active_read name d n) (λ user. given (λ who.
      then_do (tried_eq env _ (token_read env admin_credential (env.hash_secret secret) d (suc n)))
        (λ found.
          then_do (lifts (hidden found) (λ t w h e. h t (unhidden found t e)) (λ w h. tt))
            (λ stored. given (λ row.
              then_do {Q = λ _ w. (stored.user_id ≡ user.id) × At d (suc (suc n)) w}
                (rejects _ _
                  (λ w h e. ((text_eq_iff stored.user_id user.id).0 (enabled_user _ e), h))
                  (λ w h. tt))
                (λ _. given (λ owner. then_do (At-ask env env.now d (suc (suc n))) (λ now.
                  then_do
                    {Q = λ _ w.
                      ((stored.revoked_at ≡ none) × (env.now (suc (suc n)) < stored.expires_at))
                      × Rows d.grants w}
                    (lifts (check_active stored now)
                      (λ _ w h e. (check_active-active stored _ (rw h.1 at e), At-Rows w h.0))
                      (λ w h. tt))
                    (λ _. given (λ live.
                      weaken (λ w h. h) (issue_access_token-SameUser d.grants user requested)
                        (λ r w h. record {
                          user = user;
                          known = who.0;
                          named = who.1;
                          enabled = who.2;
                          token = stored;
                          stored = row.0;
                          is_credential = row.1;
                          matches = row.2;
                          owner = owner;
                          unrevoked = live.0;
                          unexpired = live.1;
                          identity = h;
                        })))))))))))

  -- A session that a stored credential opens is for a user of the table with that name, who is
  -- enabled and owns one of the stored administrative credentials, by the hash of its secret; that
  -- credential is neither revoked nor expired at the time the clock gives, and the session's
  -- principal has the user's id and flags. Its grants are those of the user's rows in the table,
  -- each with the row's role and repository, or none where the database failed or such a row is not
  -- well formed.
  pub login_with_preissued_token-TokenLogin :
      (name secret : Text) (requested : List Scope) (w : World) (r : LoginResult)
      → (login_with_preissued_token env name secret requested w).0 ≡ ok r
      → TokenLogin w.db (env.now (suc (suc w.tick))) name secret r
  login_with_preissued_token-TokenLogin name secret requested w r e =
      returned w r (token_triple name secret requested w.db w.tick)
        (record { tables = refl; moment = refl }) e
