-- ===== src/AuthService/Tokens/Issuing.antt =====
-- What issuing an administrative credential yields (internal/app/auth/service.go).
use regixtry.Base.{
  ℕ, suc, ◌+◌, ◌<◌, ◌≤◌, ℤ, Bool, true, false, not, [], ◌∷◌, ◌++◌, none, Text, codes, ◌≡◌, refl, ap,
  arith, Elem, ok,
}
use regixtry.Strings.{trim_space}
use regixtry.Auth.Token.{Token, TokenKind, default_admin_token_ttl}
use regixtry.Auth.Principal.{Principal}
use regixtry.AuthStore.Actions.{Env, Db, World, ask}
use regixtry.Actions.Keeps.{Lasting, Keeps-statement, Keeps-ask}
use regixtry.Actions.Triples.{
  Triple, then_do, kept, reads, writes, lifts, rejects, returns, weaken, given, returned,
}
use regixtry.AuthStore.Tokens.{create_token}
use regixtry.AuthService.Guards.{require_admin, short_accessor}
use regixtry.AuthService.Sessions.Reading.{Anything, At, At-ask, At-ask?, user_read}
use regixtry.AuthService.Tokens.{
  CreateAdminTokenInput, CreatedAdminToken, admin_token_ttl, create_admin_token,
}

-- A lifetime is positive, and thirty days at most.
admin_token_ttl-bounds :
    (asked : ℤ) (ttl : ℕ)
    → admin_token_ttl asked ≡ ok ttl
    → (0 < ttl) × (ttl ≤ default_admin_token_ttl)
unfolding admin_token_ttl
admin_token_ttl-bounds asked ttl e = ground arith

-- What the tables hold is `d`.
record Holds (d : Db) (w : World) : Type 0 where
  same : w.db ≡ d

Holds-Lasting : (d : Db) → Lasting (Holds d)
Holds-Lasting d = record { next = λ w h. record { same = h.same } }

holding : (b : Bool) → not b ≡ false → b ≡ true
holding b e = ground arith

module _ (env : Env) where
  -- What is so of a credential that was issued, between the tables before and after.
  -- The clock showed `now`.
  pub record Issued (before after : Db) (now : ℕ) (actor : Principal)
      (input : CreateAdminTokenInput) (r : CreatedAdminToken) : Type 0 where
    pub by_admin : actor.is_admin ≡ true
    pub known : Elem r.target_user before.users
    pub asked : r.target_user.id ≡ trim_space input.user_id
    pub enabled : r.target_user.enabled ≡ true
    pub owner : r.token.user_id ≡ r.target_user.id
    pub is_credential : r.token.kind ≡ TokenKind.admin_credential
    pub hashed : r.token.secret_hash ≡ env.hash_secret r.secret
    pub unrevoked : r.token.revoked_at ≡ none
    pub created : r.token.created_at ≡ now
    pub lives : now < r.token.expires_at
    pub dies : r.token.expires_at ≤ now + default_admin_token_ttl
    pub told : r.expires_at ≡ r.token.expires_at
    pub stored : after.tokens ≡ before.tokens ++ r.token ∷ []

  appended :
      (token : Token) (d : Db)
      → Triple
          (Holds d)
          (create_token env token)
          (λ _ w. w.db.tokens ≡ d.tokens ++ token ∷ [])
          Anything
  unfolding create_token
  appended token d = then_do {Q = λ _. Holds d} (lifts _ (λ _ w h e. h) (λ w h. tt)) (λ _.
      then_do (kept (Keeps-statement (Holds-Lasting d) env) (λ w h. tt)) (λ _.
        then_do {Q = λ _. Holds d} (reads _ (λ w h. h)) (λ refused.
          then_do {Q = λ _. Holds d} (rejects _ _ (λ w h e. h) (λ w h. tt))
            (λ _. writes _ (λ w h. ap (λ (x : Db). x.tokens ++ token ∷ []) h.same)))))

  accessor_kept :
      (d : Db) (prefix : Text)
      → Triple (Holds d) (short_accessor env prefix) (λ _. Holds d) Anything
  accessor_kept d prefix =
      then_do (kept (Keeps-ask (Holds-Lasting d) env.uuid) (λ w h. tt)) (λ id. returns _ (λ w h. h))

  -- What the clock shows.
  time_read :
      (d : Db) (n : ℕ)
      → Triple (At d n) (ask env.now) (λ now w. (now ≡ env.now n) × Holds d w) Anything
  time_read d n =
      weaken (λ w h. h) (At-ask env env.now d n) (λ now w h. (h.1, record { same = h.0.tables }))

  issue_triple :
      (actor : Principal) (input : CreateAdminTokenInput) (d : Db) (n : ℕ)
      → Triple
          (At d n)
          (create_admin_token env actor input)
          (λ r w. Issued d w.db (env.now (suc (suc n))) actor input r)
          Anything
  unfolding create_admin_token require_admin
  issue_triple actor input d n =
      then_do {Q = λ _ w. (actor.is_admin ≡ true) × At d n w}
        (rejects _ _ (λ w h e. (holding actor.is_admin e, h)) (λ w h. tt))
        (λ _. given (λ admin. then_do (user_read env input.user_id d n) (λ user. given (λ found.
          then_do {Q = λ _ w. (user.enabled ≡ true) × At d (suc n) w}
            (rejects _ _ (λ w h e. (holding user.enabled e, h)) (λ w h. tt))
            (λ _. given (λ enabled.
              then_do {Q = λ ttl w. ((0 < ttl) × (ttl ≤ default_admin_token_ttl)) × At d (suc n) w}
                (lifts (admin_token_ttl input.ttl)
                  (λ ttl w h e. (admin_token_ttl-bounds input.ttl ttl e, h)) (λ w h. tt))
                (λ ttl. given (λ bounds. then_do (At-ask? env env.random d (suc n)) (λ secret.
                  then_do (time_read d (suc (suc n))) (λ now. given (λ clock.
                    then_do (kept (Keeps-ask (Holds-Lasting d) env.uuid) (λ w h. tt)) (λ id.
                      then_do (accessor_kept d (codes "act")) (λ accessor.
                        then_do (appended _ d) (λ _. returns _ (λ w h. record {
                          by_admin = admin;
                          known = found.0;
                          asked = found.1;
                          enabled = enabled;
                          owner = refl;
                          is_credential = refl;
                          hashed = refl;
                          unrevoked = refl;
                          created = clock;
                          lives = omega (arith, bounds.0);
                          dies = omega (arith, bounds.1);
                          told = refl;
                          stored = h;
                        })))))))))))))))

  -- A credential that is issued was asked for by an administrator, and is for the user of the table
  -- with the id that was asked for, who is enabled; it stands under the hash of the secret that is
  -- returned, is created at the time the clock shows, expires later than that and within thirty
  -- days, is not revoked, and is the only token added to the table.
  pub create_admin_token-Issued :
      (actor : Principal) (input : CreateAdminTokenInput) (w : World) (r : CreatedAdminToken)
      → (create_admin_token env actor input w).0 ≡ ok r
      → Issued w.db
          (create_admin_token env actor input w).1.db
          (env.now (suc (suc w.tick)))
          actor
          input
          r
  create_admin_token-Issued actor input w r e =
      returned w r (issue_triple actor input w.db w.tick) (record { tables = refl; moment = refl })
        e
