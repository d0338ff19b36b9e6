-- ===== src/AuthService/Users/LastAdmin.antt =====
-- The operations on existing users, against the invariant of auth_users (internal/app/auth/service.go).
use regixtry.Base.{
  ℕ, Bool, true, false, ◌&&◌, not, List, Text, text_eq, text_eq_iff, if◌then◌else◌, ◌≡◌, ◌≢◌, ◌⊎◌,
  inl, inr, refl, sym, arith, Elem, Elem-of_any, Bool-cases,
}
use regixtry.Auth.User.{User}
use regixtry.Auth.Principal.{Principal}
use regixtry.AuthStore.Actions.{Env, Db, World, pure, ask, lift, try, when, ◌>>=◌, ◌>>◌}
use regixtry.AuthStore.Users.{upsert_user, get_user_by_username}
use regixtry.Actions.Keeps.{Keeps, Lasting, Keeps-ask, Keeps-ask?, keeps_rules}
use regixtry.Actions.Triples.{Triple, then_do, kept, rejects, lifts, branches, returns, weaken}
use regixtry.AuthStore.Tables.{IsActiveAdmin, DistinctIds, HasAdmin, OtherAdmin, other_admin}
use regixtry.AuthStore.Sound.{
  Sound, With, With-Lasting, Replaces, Row, get_user_by_id-Row, list_users-rows, upsert_user-Sound,
  delete_user-Sound,
}
use regixtry.AuthService.Guards.{
  require_admin, validate_password, has_other_admin, ensure_another_active_admin,
}
use regixtry.AuthService.Users.{
  set_user_enabled, update_user, delete_user, reset_password, UpdateUserInput, expect_free,
  next_username,
}

other_active :
    (id : Text) (u : User)
    → (if text_eq u.id id then false else u.is_admin && u.enabled) ≡ true
    → (u.id ≢ id) × IsActiveAdmin u
other_active id u e = ground (arith, text_eq_iff u.id id)

has_other_admin-other :
    (id : Text) (us all : List User)
    → ((u : User) → Elem u us → Elem u all)
    → has_other_admin id us ≡ true
    → OtherAdmin id all
unfolding has_other_admin
has_other_admin-other id us all f e =
    let (u, m, q) = Elem-of_any _ us e in
    let (ne, active) = other_active id u q in (u, f u m, ne, active)

-- A row may be replaced where an active administrator's replacement is one, or there is another.
safe :
    (us : List User) (user next : User)
    → DistinctIds us
    → Elem user us
    → HasAdmin us
    → (IsActiveAdmin user → OtherAdmin user.id us ⊎ IsActiveAdmin next)
    → OtherAdmin user.id us ⊎ IsActiveAdmin next
safe us user next d m h f = elim (Bool-cases user.is_admin) [
  | inl a ↦ elim (Bool-cases user.enabled) [
    | inl e ↦ f (a, e)
    | inr e ↦ inl (other_admin us user d m h (λ active. cc (active.1, e)))
  ]
  | inr a ↦ inl (other_admin us user d m h (λ active. cc (active.0, a)))
]

inactive : (a e : Bool) → (a ≡ true) × (e ≡ true) → (a && e) ≡ false → ⊥
inactive a e active h = ground (arith, active.0, active.1)

passed : (other include : Bool) → (not other && include) ≡ false → include ≡ true → other ≡ true
passed other include e h = ground arith

module _ (env : Env) where
  pub require_admin-passes :
      (actor : Principal) → Triple (Sound env) (require_admin actor) (λ _. Sound env) (Sound env)
  unfolding require_admin
  require_admin-passes actor = rejects _ _ (λ w h e. h) (λ w h. h)

  pub ensure_another_active_admin-other :
      (F : Db → Type 0) (id : Text) (include : Bool)
      → Triple
          (With env F)
          (ensure_another_active_admin env id include)
          (λ _. With env (λ db. F db × (include ≡ true → OtherAdmin id db.users)))
          (Sound env)
  unfolding ensure_another_active_admin
  ensure_another_active_admin-other F id include = then_do (list_users-rows env F) (λ us.
      rejects _ _
        (λ w h e. record {
          sound = h.sound;
          fact = (
            h.fact.0,
            λ i. has_other_admin-other id us w.db.users h.fact.1 (passed _ include e i),
          );
        })
        (λ w h. h.sound))

  -- A guard that is run where `test` holds.
  pub guarded :
      (F : Db → Type 0) (id : Text) (test include : Bool)
      → Triple
          (With env F)
          (when test (ensure_another_active_admin env id include))
          (λ _. With env (λ db. F db × (test ≡ true → include ≡ true → OtherAdmin id db.users)))
          (Sound env)
  guarded F id test include =
      branches test
        (λ t.
          weaken (λ w h. h) (ensure_another_active_admin-other F id include)
            (λ _ w h. record { sound = h.sound; fact = (h.fact.0, λ _. h.fact.1) }))
        (λ w h e. record { sound = h.sound; fact = (h.fact, λ t. absurd (cc (t, e))) })

  -- The time is read and the row is written.
  replaces :
      (user : User) (next : ℕ → User)
      → ((t : ℕ) → Replaces env (next t) ≡ Replaces env (next 0))
      → Triple
          (With env (Replaces env (next 0)))
          (do now ← ask env.now; upsert_user env (next now); pure (next now))
          (λ _. Sound env)
          (Sound env)
  replaces user next same =
      then_do (kept (Keeps-ask (With-Lasting env (Replaces env (next 0))) env.now) (λ w h. h.sound))
        (λ now.
          then_do (rw (sym (same now)) (upsert_user-Sound env (next now)))
            (λ _. returns (next now) (λ w h. h)))

  -- Enabling or disabling a user leaves an active administrator, whether it succeeds or fails.
  pub set_user_enabled-Sound :
      (actor : Principal) (id : Text) (enabled : Bool)
      → Triple (Sound env) (set_user_enabled env actor id enabled) (λ _. Sound env) (Sound env)
  unfolding set_user_enabled
  set_user_enabled-Sound actor id enabled = then_do (require_admin-passes actor) (λ _.
      then_do (get_user_by_id-Row env id) (λ user.
        then_do (guarded (Row env id user) user.id _ true) (λ _.
          weaken
            (λ w h. record {
              sound = h.sound;
              fact = (
                (user, h.fact.0.0, refl),
                safe w.db.users user (record user { enabled = enabled }) h.sound.distinct h.fact.0.0
                    h.sound.admin
                    (λ active. stays w.db.users user enabled active (λ t. h.fact.1 t refl)),
              );
            })
            (replaces user (λ t. record user { enabled = enabled; updated_at = t }) (λ t. refl))
            (λ _ w h. h))))
    where
      stays :
          (us : List User) (user : User) (enabled : Bool)
          → IsActiveAdmin user
          → ((user.is_admin && user.enabled && not enabled) ≡ true → OtherAdmin user.id us)
          → OtherAdmin user.id us ⊎ IsActiveAdmin (record user { enabled = enabled })
      stays us user true active f = inr (active.0, refl)
      stays us user false active f = inl (f (ground (arith, active.0, active.1)))

  Keeps-get_user_by_username :
      (P : World → Type 0) → Lasting P → (name : Text) → Keeps P (get_user_by_username env name)
  unfolding get_user_by_username
  Keeps-get_user_by_username P lasts name = search (keeps_rules, lasts)

  -- Changing a user's name or privileges leaves an active administrator.
  pub update_user-Sound :
      (actor : Principal) (input : UpdateUserInput)
      → Triple (Sound env) (update_user env actor input) (λ _. Sound env) (Sound env)
  unfolding update_user
  update_user-Sound actor input = then_do (require_admin-passes actor) (λ _.
      then_do (get_user_by_id-Row env input.user_id) (λ user.
        then_do (kept (renames user) (λ w h. h.sound)) (λ _.
          then_do (guarded (Row env input.user_id user) user.id _ user.enabled) (λ _.
            weaken
              (λ w h. record {
                sound = h.sound;
                fact = (
                  (user, h.fact.0.0, refl),
                  safe w.db.users user (record user { is_admin = input.is_admin }) h.sound.distinct
                      h.fact.0.0 h.sound.admin
                      (λ active. stays w.db.users user input.is_admin active h.fact.1),
                );
              })
              (replaces user (next user) (λ t. refl)) (λ _ w h. h)))))
    where
      next : User → ℕ → User
      next user t = record user {
        username = next_username env input user;
        is_admin = input.is_admin;
        is_read_only = input.is_read_only;
        updated_at = t;
      }

      renames :
          (user : User)
          → Keeps (With env (Row env input.user_id user)) (
              when (not (text_eq (next_username env input user) user.username)) (do
                found ← try (get_user_by_username env (next_username env input user))
                lift (expect_free env user.id found)))
      renames user = search (
        keeps_rules,
        Keeps-get_user_by_username _ (With-Lasting env (Row env input.user_id user)),
      )

      stays :
          (us : List User) (user : User) (admin : Bool)
          → IsActiveAdmin user
          → ((user.is_admin && not admin) ≡ true → user.enabled ≡ true → OtherAdmin user.id us)
          → OtherAdmin user.id us ⊎ IsActiveAdmin (record user { is_admin = admin })
      stays us user true active f = inr (refl, active.1)
      stays us user false active f = inl (f (ground (arith, active.0)) active.1)

  -- Deleting a user leaves an active administrator.
  pub delete_user-keeps :
      (actor : Principal) (id : Text)
      → Triple (Sound env) (delete_user env actor id) (λ _. Sound env) (Sound env)
  unfolding delete_user
  delete_user-keeps actor id = then_do (require_admin-passes actor) (λ _.
      then_do (get_user_by_id-Row env id) (λ user.
        then_do (guarded (Row env id user) user.id _ true) (λ _.
          weaken
            (λ w h. record {
              sound = h.sound;
              fact = rw (sym h.fact.0.1) (
                  left w.db.users user h.sound.distinct h.fact.0.0 h.sound.admin
                    (λ t. h.fact.1 t refl));
            })
            (delete_user-Sound env id) (λ _ w h. h))))
    where
      left :
          (us : List User) (user : User)
          → DistinctIds us
          → Elem user us
          → HasAdmin us
          → ((user.is_admin && user.enabled) ≡ true → OtherAdmin user.id us)
          → OtherAdmin user.id us
      left us user d m h f = elim (Bool-cases (user.is_admin && user.enabled)) [
        | inl e ↦ f e
        | inr e ↦ other_admin us user d m h (λ active. inactive user.is_admin user.enabled active e)
      ]

  -- Setting a user's password leaves an active administrator.
  pub reset_password-Sound :
      (actor : Principal) (id password : Text)
      → Triple (Sound env) (reset_password env actor id password) (λ _. Sound env) (Sound env)
  unfolding reset_password
  reset_password-Sound actor id password = then_do (require_admin-passes actor) (λ _.
      then_do (lifts (validate_password password) (λ _ w h e. h) (λ w h. h)) (λ _.
        then_do (get_user_by_id-Row env id) (λ user.
          then_do (kept (Keeps-ask? (With-Lasting env _) _) (λ w h. h.sound)) (λ hash.
            then_do (kept (Keeps-ask (With-Lasting env _) _) (λ w h. h.sound)) (λ now.
              weaken
                (λ w h. record {
                  sound = h.sound;
                  fact = (
                    (user, h.fact.0, refl),
                    safe w.db.users user user h.sound.distinct h.fact.0 h.sound.admin
                        (λ active. inr active),
                  );
                })
                (upsert_user-Sound env (record user { password_hash = hash; updated_at = now }))
                (λ _ w h. h))))))
