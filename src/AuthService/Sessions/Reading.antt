-- ===== src/AuthService/Sessions/Reading.antt =====
-- What the reads of the tables yield to the operations on sessions (internal/app/auth/service.go).
use regixtry.Base.{
  ℕ, suc, ◌<◌, Bool, true, false, ◌&&◌, Option, none, some, Text, text_eq_iff, ◌≡◌, refl, sym, ap,
  ◌∙◌, arith, Elem, find?-Elem, Result, ok, err, if◌then◌else◌,
}
use regixtry.Errors.{Error, infra}
use regixtry.Strings.{trim_space}
use regixtry.Auth.Token
use regixtry.Auth.Token.{
  Token, TokenKind, access, admin_credential, other, check_active, is_expired, is_revoked,
}
use regixtry.AuthStore.Actions.{Env, Db, World, M, gets, try, ask, ask?, statement}
use regixtry.Actions.{answer}
use regixtry.Actions.Triples.{Post, Triple, then_do, reads, lifts, tried}
use regixtry.AuthStore.Sound.{scan_one-row}
use regixtry.AuthStore.Users as Store
use regixtry.AuthStore.Users.{normalize_username, get_user_by_username, get_user_by_id}
use regixtry.AuthStore.Tokens as Rows
use regixtry.AuthStore.Tokens.{get_token_by_secret_hash, same_kind, scan_token}
use regixtry.AuthService.Sessions.{hidden}

-- Nothing is said of a failure.
abbrev pub Anything : World → Type 0
Anything w = Unit {0}

-- The tables, and the number of the next interaction.
pub record At (d : Db) (n : ℕ) (w : World) : Type 0 where
  pub tables : w.db ≡ d
  pub moment : w.tick ≡ n

checked_token : (r : Result Error (Unit {0})) (x t : Token) → Rows.checked x r ≡ ok t → x ≡ t
checked_token (ok _) x t e = cc
checked_token (err _) x t e = cc

scan_one-token : (row : Option Token) (t : Token) → Rows.scan_one row ≡ ok t → row ≡ some t
unfolding Rows.scan_one scan_token
scan_one-token none t e = cc
scan_one-token (some x) t e = ap some (checked_token (Token.validate x) x t e)

same_kind-eq : (a b : TokenKind) → same_kind a b ≡ true → a ≡ b
unfolding same_kind
same_kind-eq access access e = refl
same_kind-eq access admin_credential e = cc
same_kind-eq access (other b) e = cc
same_kind-eq admin_credential access e = cc
same_kind-eq admin_credential admin_credential e = refl
same_kind-eq admin_credential (other b) e = cc
same_kind-eq (other a) access e = cc
same_kind-eq (other a) admin_credential e = cc
same_kind-eq (other a) (other b) e = ap other ((text_eq_iff a b).0 e)

pub both : (a b : Bool) → (a && b) ≡ true → (a ≡ true) × (b ≡ true)
both a b e = ground arith

pub unhidden : {A : Type 0} (r : Result Error A) (a : A) → hidden r ≡ ok a → r ≡ ok a
unhidden (ok x) a e = e
unhidden (err x) a e = cc

-- A token that is active is not revoked, and its time has not come.
pub check_active-active :
    (t : Token) (now : ℕ)
    → check_active t now ≡ ok tt
    → (t.revoked_at ≡ none) × (now < t.expires_at)
unfolding check_active is_expired is_revoked
check_active-active t now e = ground arith

module _ (env : Env) where
  pub At-statement : (d : Db) (n : ℕ) → Triple (At d n) (statement env) (λ _. At d (suc n)) Anything
  unfolding statement
  At-statement d n = record { at = λ w h. sent (env.fails w.tick) w h }
    where
      sent :
          (b : Bool) (w : World)
          → At d n w
          → Post
              (λ (_ : Unit {0}). At d (suc n))
              Anything
              (if b then err infra else ok tt, record w { tick = suc w.tick })
      sent true w h = tt
      sent false w h = record { tables = h.tables; moment = ap suc h.moment }

  pub At-ask :
      {A : Type 0} (f : ℕ → A) (d : Db) (n : ℕ)
      → Triple (At d n) (ask f) (λ a w. At d (suc n) w × (a ≡ f n)) Anything
  unfolding ask
  At-ask f d n = record {
    at = λ w h. (record { tables = h.tables; moment = ap suc h.moment }, ap f h.moment);
  }

  pub At-ask? :
      {A : Type 0} (f : ℕ → Option A) (d : Db) (n : ℕ)
      → Triple (At d n) (ask? f) (λ _. At d (suc n)) Anything
  unfolding ask?
  At-ask? {A} f d n = record { at = λ w h. asked (f w.tick) w h }
    where
      asked :
          (o : Option A) (w : World)
          → At d n w
          → Post (λ (_ : A). At d (suc n)) Anything (answer o, record w { tick = suc w.tick })
      asked none w h = tt
      asked (some a) w h = record { tables = h.tables; moment = ap suc h.moment }

  pub At-read :
      {A : Type 0} (f : Db → A) (d : Db) (n : ℕ)
      → Triple (At d n) (gets f) (λ a w. (a ≡ f d) × At d n w) Anything
  At-read f d n = reads f (λ w h. (ap f h.tables, h))

  abbrev pub TokenRow : Db → TokenKind → Text → Token → Type 0
  TokenRow d kind hash t = Elem t d.tokens × (t.kind ≡ kind) × (t.secret_hash ≡ trim_space hash)

  pub token_read :
      (kind : TokenKind) (hash : Text) (d : Db) (n : ℕ)
      → Triple
          (At d n)
          (get_token_by_secret_hash env kind hash)
          (λ t w. TokenRow d kind hash t × At d (suc n) w)
          Anything
  unfolding get_token_by_secret_hash
  token_read kind hash d n = then_do (At-statement d n) (λ _. then_do (At-read _ d (suc n)) (λ row.
      lifts (Rows.scan_one row)
        (λ t w h e.
          let (m, q) = find?-Elem _ d.tokens (sym h.0 ∙ scan_one-token row t e) in
          let (k, s) = both _ _ q in
          ((m, same_kind-eq t.kind kind k, (text_eq_iff t.secret_hash (trim_space hash)).0 s), h.1))
        (λ w h. tt)))

  pub user_read :
      (id : Text) (d : Db) (n : ℕ)
      → Triple
          (At d n)
          (get_user_by_id env id)
          (λ u w. (Elem u d.users × (u.id ≡ trim_space id)) × At d (suc n) w)
          Anything
  unfolding get_user_by_id
  user_read id d n = then_do (At-statement d n) (λ _. then_do (At-read _ d (suc n)) (λ row.
      lifts (Store.scan_one row)
        (λ u w h e.
          let (m, q) = find?-Elem _ d.users (sym h.0 ∙ scan_one-row row u e) in
          ((m, (text_eq_iff u.id (trim_space id)).0 q), h.1))
        (λ w h. tt)))

  pub name_read :
      (name : Text) (d : Db) (n : ℕ)
      → Triple
          (At d n)
          (get_user_by_username env name)
          (λ u w. (Elem u d.users × (u.username ≡ normalize_username env name)) × At d (suc n) w)
          Anything
  unfolding get_user_by_username
  name_read name d n = then_do (At-statement d n) (λ _. then_do (At-read _ d (suc n)) (λ row.
      lifts (Store.scan_one row)
        (λ u w h e.
          let (m, q) = find?-Elem _ d.users (sym h.0 ∙ scan_one-row row u e) in
          ((m, (text_eq_iff u.username (normalize_username env name)).0 q), h.1))
        (λ w h. tt)))

  pub anyway : {A : Type 0} (m : M A) → Triple Anything m (λ _. Anything) Anything
  anyway m = record { at = λ w h. any_post (m w).0 (m w).1 }
    where
      any_post :
          {A : Type 0} (r : Result Error A) (w : World) → Post (λ (_ : A). Anything) Anything (r, w)
      any_post (ok a) w = tt
      any_post (err e) w = tt

  pub tried_eq :
      {A : Type 0} (Q : A → World → Type 0) {P : World → Type 0} {m : M A}
      → Triple P m Q Anything
      → Triple P (try m) (λ r w. (a : A) → r ≡ ok a → Q a w) Anything
  tried_eq Q t =
      tried t (λ a w q b e. let s : a ≡ b = cc in rw (sym s) q) (λ e w q b x. absurd (cc))
