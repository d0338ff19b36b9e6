-- ===== src/AuthStore/Sound.antt =====
-- What the statements on auth_users do to an invariant of the table: an active administrator is
-- there, ids are distinct, and no id is one that is still to be drawn.
use regixtry.Base.{
  ℕ, ◌≤◌, true, not, List, [], ◌∷◌, Option, none, some, Text, text_eq, text_eq_iff, ◌≡◌, ◌≢◌, ◌⊎◌,
  inl, inr, refl, sym, ap, ◌∙◌, arith, Elem, All, All-of_Elem, All-elem, keep-Elem, Elem-keep,
  find?-Elem, Result, ok, err, Elem-sort,
}
use regixtry.Strings.{trim_space}
use regixtry.Errors.{Error}
use regixtry.Auth.User
use regixtry.Auth.User.{User}
use regixtry.AuthStore.Actions.{Env, Db, World, statement}
use regixtry.AuthStore.Users.{
  upsert_row, upsert_user, delete_user, get_user_by_id, list_users, scan_user, scan_one, scan_all,
  checked, cons_ok, normalize_username,
}
use regixtry.Actions.Keeps.{Lasting, Keeps-statement}
use regixtry.Actions.Triples.{Triple, then_do, kept, reads, writes, lifts, rejects}
use regixtry.AuthStore.Tables.{
  DistinctIds, IsActiveAdmin, HasAdmin, OtherAdmin, upsert-other, upsert_self, upsert-All,
  upsert-DistinctIds, keep-DistinctIds,
}

-- A user that is read is the row.
scanned : (r : Result Error (Unit {0})) (x u : User) → checked x r ≡ ok u → x ≡ u
scanned (ok _) x u e = cc
scanned (err _) x u e = cc

pub scan_user-row : (x u : User) → scan_user x ≡ ok u → x ≡ u
unfolding scan_user
scan_user-row x u e = scanned (User.validate x) x u e

pub scan_one-row : (row : Option User) (u : User) → scan_one row ≡ ok u → row ≡ some u
unfolding scan_one
scan_one-row none u e = cc
scan_one-row (some x) u e = ap some (scan_user-row x u e)

consed :
    (r : Result Error User) (rs : Result Error (List User)) (us : List User)
    → cons_ok r rs ≡ ok us
    → (v : User) × (vs : List User) × (r ≡ ok v) × (rs ≡ ok vs) × (us ≡ v ∷ vs)
consed (ok v) (ok vs) us e = (v, vs, refl, refl, cc)
consed (ok v) (err f) us e = cc
consed (err f) rs us e = cc

pub scan_all-rows : (rows us : List User) → scan_all rows ≡ ok us → rows ≡ us
unfolding scan_all
scan_all-rows [] us e = cc
scan_all-rows (x ∷ rows) us e =
    let (v, vs, p, q, r) = consed (scan_user x) (scan_all rows) us e in
    ap (λ y. y ∷ rows) (scan_user-row x v p) ∙ ap (λ ys. v ∷ ys) (scan_all-rows rows vs q) ∙ sym r

module _ (env : Env) where
  -- No user has an id that the source of ids is still to give.
  abbrev pub Unused : ℕ → Text → Type 0
  Unused tick id = (t : ℕ) → tick ≤ t → id ≢ env.uuid t

  pub record Sound (w : World) : Type 0 where
    pub distinct : DistinctIds w.db.users
    pub unused : All (λ (u : User). Unused w.tick u.id) w.db.users
    pub admin : HasAdmin w.db.users

  -- The invariant, and something else about the tables.
  pub record With (F : Db → Type 0) (w : World) : Type 0 where
    pub sound : Sound w
    pub fact : F w.db

  pub Sound-Lasting : Lasting Sound
  Sound-Lasting = record {
    next = λ w h. record {
      distinct = h.distinct;
      unused = All-of_Elem _ w.db.users (λ u m t le.
          All-elem (λ (x : User). Unused w.tick x.id) u w.db.users h.unused m t
            (omega (arith, le)));
      admin = h.admin;
    };
  }

  pub With-Lasting : (F : Db → Type 0) → Lasting (With F)
  With-Lasting F = record {
    next = λ w h. record { sound = Sound-Lasting.next w h.sound; fact = h.fact };
  }

  abbrev pub Row : Text → User → Db → Type 0
  Row id u db = Elem u db.users × (u.id ≡ trim_space id)

  -- A user that is found by id is a row of the table, with that id.
  pub get_user_by_id-Row :
      (id : Text) → Triple Sound (get_user_by_id env id) (λ u. With (Row id u)) Sound
  unfolding get_user_by_id
  get_user_by_id-Row id = then_do (kept (Keeps-statement Sound-Lasting env) (λ w h. h)) (λ _.
      then_do {Q = λ row. With (λ db. (u : User) → row ≡ some u → Row id u db)}
        (reads _ (λ w h. record {
          sound = h;
          fact = λ u e.
              let (m, q) = find?-Elem _ w.db.users e in (m, (text_eq_iff u.id (trim_space id)).0 q);
        }))
        (λ row.
          lifts (scan_one row)
            (λ u w h e. record { sound = h.sound; fact = h.fact u (scan_one-row row u e) })
            (λ w h. h.sound)))

  -- The users that are listed are rows of the table.
  pub list_users-rows :
      (F : Db → Type 0)
      → Triple
          (With F)
          (list_users env)
          (λ us. With (λ db. F db × ((u : User) → Elem u us → Elem u db.users)))
          Sound
  unfolding list_users
  list_users-rows F = then_do (kept (Keeps-statement (With-Lasting F) env) (λ w h. h.sound)) (λ _.
      then_do {Q = λ rows. With (λ db. F db × ((u : User) → Elem u rows → Elem u db.users))}
        (reads _ (λ w h. record {
          sound = h.sound;
          fact = (h.fact, λ u m. (Elem-keep _ w.db.users (Elem-sort _ u _ m)).0);
        }))
        (λ rows.
          lifts (scan_all rows)
            (λ us w h e. record {
              sound = h.sound;
              fact = (h.fact.0, λ u m. h.fact.1 u (rw (scan_all-rows rows us e) m));
            })
            (λ w h. h.sound)))

  -- What lets a row be replaced: it is there, and there is another active administrator or the row
  -- that replaces it is one.
  abbrev pub Replaces : User → Db → Type 0
  Replaces u db =
      ((x : User) × Elem x db.users × (x.id ≡ u.id)) × (OtherAdmin u.id db.users ⊎ IsActiveAdmin u)

  upsert-admin :
      (u : User) (us : List User)
      → OtherAdmin u.id us ⊎ IsActiveAdmin u
      → HasAdmin (upsert_row u us)
  upsert-admin u us (inl (x, m, ne, active)) = (x, upsert-other u x us m ne, active)
  upsert-admin u us (inr active) =
      let (c, m) = upsert_self u us in (record u { created_at = c }, m, active)

  pub upsert_user-Sound :
      (u : User) → Triple (With (Replaces u)) (upsert_user env u) (λ _. Sound) Sound
  unfolding upsert_user
  upsert_user-Sound u =
      then_do {Q = λ _. With (Replaces u)} (lifts _ (λ _ w h e. h) (λ w h. h.sound)) (λ _.
        then_do (kept (Keeps-statement (With-Lasting (Replaces u)) env) (λ w h. h.sound)) (λ _.
          then_do {Q = λ _. With (Replaces u)} (reads _ (λ w h. h)) (λ taken.
            then_do {Q = λ _. With (Replaces u)} (rejects taken _ (λ w h e. h) (λ w h. h.sound))
              (λ _. writes _ (λ w h.
                let row = record u { username = normalize_username env u.username } in
                let ((x, m, e), other) = h.fact in
                record {
                  distinct = upsert-DistinctIds row w.db.users h.sound.distinct;
                  unused = upsert-All (Unused w.tick) row w.db.users h.sound.unused (
                      rw (sym e) (
                        All-elem (λ (y : User). Unused w.tick y.id) x w.db.users h.sound.unused m));
                  admin = upsert-admin row w.db.users other;
                })))))

  -- Deleting a row leaves the invariant where another active administrator is there.
  pub delete_user-Sound :
      (id : Text)
      → Triple
          (With (λ db. OtherAdmin (trim_space id) db.users))
          (delete_user env id)
          (λ _. Sound)
          Sound
  unfolding delete_user
  delete_user-Sound id = then_do statement_kept (λ _. then_do statement_kept (λ _.
      then_do statement_kept (λ _. then_do statement_kept (λ _.
        then_do {Q = λ _. With Other} (reads _ (λ w h. h)) (λ found.
          then_do {Q = λ _. With Other} (rejects (not found) _ (λ w h e. h) (λ w h. h.sound)) (λ _.
            then_do statement_kept (λ _. writes _ (λ w h.
              let (x, m, ne, active) = h.fact in
              record {
                distinct = keep-DistinctIds _ w.db.users h.sound.distinct;
                unused = All-of_Elem _ _ (λ u n.
                    All-elem (λ (y : User). Unused w.tick y.id) u w.db.users h.sound.unused
                      (Elem-keep _ w.db.users n).0);
                admin = (x, keep-Elem _ w.db.users m (differs x.id (trim_space id) ne), active);
              }))))))))
    where
      Other : Db → Type 0
      Other db = OtherAdmin (trim_space id) db.users

      statement_kept : Triple (With Other) (statement env) (λ _. With Other) Sound
      statement_kept = kept (Keeps-statement (With-Lasting Other) env) (λ w h. h.sound)

      differs : (a b : Text) → a ≢ b → not (text_eq a b) ≡ true
      differs a b h = ground (arith, text_eq_iff a b)
