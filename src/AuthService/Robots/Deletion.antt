-- ===== src/AuthService/Robots/Deletion.antt =====
-- What deleting a robot leaves (internal/app/auth/service.go).
use regixtry.Base.{
  Bool, true, false, not, List, Text, text_eq, text_eq_iff, ◌≡◌, ◌≢◌, refl, sym, ap, ◌∙◌, arith,
  Elem, keep-Elem, Result, ok, err,
}
use regixtry.Errors.{Error}
use regixtry.Strings.{trim_space}
use regixtry.Auth.User.{User}
use regixtry.Auth.Principal.{Principal}
use regixtry.AuthStore.Actions.{Env, World, statement}
use regixtry.Actions.Keeps.{Lasting, Keeps-statement}
use regixtry.Actions.Triples.{Post, Triple, then_do, kept, reads, writes, rejects, given}
use regixtry.AuthStore.Tables.{DistinctIds, same_id}
use regixtry.AuthStore.Users as Store
use regixtry.AuthService.Guards.{require_admin}
use regixtry.AuthService.Robots.{delete_robot}
use regixtry.AuthStore.Sound.{scan_one-row}
use regixtry.AuthStore.Users.{get_user_by_id, scan_one}
use regixtry.Actions.Triples.{lifts}
use regixtry.Base.{find?, find?-Elem}

-- The table of users is `us`.
record Users (us : List User) (w : World) : Type 0 where
  same : w.db.users ≡ us

-- A user is in the table.
record Stays (u : User) (w : World) : Type 0 where
  there : Elem u w.db.users

Users-Lasting : (us : List User) → Lasting (Users us)
Users-Lasting us = record { next = λ w h. record { same = h.same } }

module _ (env : Env) (us : List User) (u : User) (m : Elem u us) where
  still : (w : World) → Users us w → Stays u w
  still w h = record { there = rw h.same m }

  sent : Triple (Users us) (statement env) (λ _. Users us) (Stays u)
  sent = kept (Keeps-statement (Users-Lasting us) env) still

  row_of :
      (id : Text)
      → Triple
          (Users us)
          (get_user_by_id env id)
          (λ x w. (Elem x us × (x.id ≡ trim_space id)) × Users us w)
          (Stays u)
  unfolding get_user_by_id
  row_of id = then_do sent (λ _.
      then_do {Q = λ row w. (row ≡ find? (λ x. text_eq x.id (trim_space id)) us) × Users us w}
        (reads _ (λ w h. (ap (find? (λ x. text_eq x.id (trim_space id))) h.same, h)))
        (λ row.
          lifts (scan_one row)
            (λ x w h e.
              let (n, q) = find?-Elem _ us (sym h.0 ∙ scan_one-row row x e) in
              ((n, (text_eq_iff x.id (trim_space id)).0 q), h.1))
            (λ w h. still w h.1)))

  spared :
      (id : Text)
      → u.id ≢ trim_space id
      → Triple (Users us) (Store.delete_user env id) (λ _. Stays u) (Stays u)
  unfolding Store.delete_user
  spared id ne = then_do sent (λ _. then_do sent (λ _. then_do sent (λ _. then_do sent (λ _.
      then_do {Q = λ _. Users us} (reads _ (λ w h. h)) (λ found.
        then_do {Q = λ _. Users us} (rejects (not found) _ (λ w h e. h) still) (λ _.
          then_do sent (λ _. writes _ (λ w h. record {
            there = keep-Elem _ w.db.users (rw h.same m) (differs u.id (trim_space id) ne);
          }))))))))
    where
      differs : (a b : Text) → a ≢ b → not (text_eq a b) ≡ true
      differs a b h = ground (arith, text_eq_iff a b)

  delete_triple :
      (actor : Principal) (id : Text)
      → DistinctIds us
      → u.is_robot ≡ false
      → Triple (Users us) (delete_robot env actor id) (λ _. Stays u) (Stays u)
  unfolding delete_robot require_admin
  delete_triple actor id distinct human =
      then_do {Q = λ _. Users us} (rejects _ _ (λ w h e. h) still) (λ _. then_do (row_of id) (λ x.
        given (λ found.
          then_do {Q = λ _ w. (x.is_robot ≡ true) × Users us w}
            (rejects _ _ (λ w h e. (robotic x.is_robot e, h)) still)
            (λ _. given (λ robot. spared id (λ e.
              let q = same_id us u x distinct m found.0 (e ∙ sym found.1) in
              let r = ap (λ (y : User). y.is_robot) q in cc (human, robot, r)))))))
    where
      robotic : (b : Bool) → not b ≡ false → b ≡ true
      robotic b e = ground arith

either_way :
    {A : Type 0} (u : User) (r : Result Error A) (w : World)
    → Post (λ _. Stays u) (Stays u) (r, w)
    → Elem u w.db.users
either_way u (ok a) w h = h.there
either_way u (err e) w h = h.there

-- In a table with distinct ids, deleting a robot leaves every user who is no robot as it was,
-- whichever id is given and whether the call succeeds or fails.
pub delete_robot-human :
    (env : Env) (actor : Principal) (id : Text) (w : World) (u : User)
    → DistinctIds w.db.users
    → Elem u w.db.users
    → u.is_robot ≡ false
    → Elem u (delete_robot env actor id w).1.db.users
delete_robot-human env actor id w u distinct m human =
    let r = delete_robot env actor id w in
    either_way u r.0 r.1
      ((delete_triple env w.db.users u m actor id distinct human).at w (record { same = refl }))
