-- ===== src/Actions.antt =====
-- Actions that read and write a state and may fail. What was written before an error stays written,
-- so the world comes back beside the error too.
pub mod Keeps
pub mod Triples
pub mod States
use regixtry.Base.{
  ℕ, suc, Bool, true, false, List, Option, none, some, Text, if◌then◌else◌, Result, ok, err,
}
use regixtry.Errors.{Error, infra}

-- What is not in the repository's source: the database driver, the clock, the random sources, the
-- hash functions, the case mapping of Unicode and the collation of the database. A number counts
-- the interactions so far, and the answer of each may depend on it.
pub record Env : Type 0 where
  -- whether the statement fails in the driver or the database
  pub fails : ℕ → Bool
  pub now : ℕ → ℕ
  -- uuid.NewString, and the hexadecimal text of `rand.Read`, which may fail
  pub uuid : ℕ → Text
  pub random : ℕ → Option Text
  -- SHA-256 as hexadecimal text; bcrypt, salted by the interaction, and its comparison
  pub hash_secret : Text → Text
  pub hash_password : ℕ → Text → Option Text
  pub check_password : Text → Text → Bool
  -- unicode.ToLower; the database's order of texts, and of times by their stored text
  pub lower : ℕ → ℕ
  pub collate : Text → Text → Bool
  pub collate_time : ℕ → ℕ → Bool

-- The state, and how many interactions there were.
pub record World (S : Type 0) : Type 0 where
  pub db : S
  pub tick : ℕ

abbrev pub M : Type 0 → Type 0 → Type 0
M S A = World S → Result Error A × World S

abbrev pub continue : {S A B : Type 0} → Result Error A → (A → M S B) → M S B
continue (ok a) f w = f a w
continue (err e) f w = (err e, w)

module _ {S A : Type 0} where
  unfoldable pub pure : A → M S A
  pure a w = (ok a, w)

  unfoldable pub raise : Error → M S A
  raise e w = (err e, w)

  unfoldable pub lift : Result Error A → M S A
  lift r w = (r, w)

  -- the error as a value, for code that looks at it
  unfoldable pub try : M S A → M S (Result Error A)
  try m w = let (r, w') = m w in (ok r, w')

module _ {S A B : Type 0} where
  infixl 5 ◌>>=◌ ◌>>◌
  unfoldable pub ◌>>=◌ : M S A → (A → M S B) → M S B
  unfolding pure raise lift try
  ◌>>=◌ m f w = let (r, w') = m w in continue r f w'

  abbrev pub ◌>>◌ : M S A → M S B → M S B
  m >> n = m >>= λ _. n

-- `if bad { return err }`
unfoldable pub reject : {S : Type 0} → Bool → Error → M S (Unit {0})
reject true e w = (err e, w)
reject false e w = (ok tt, w)

-- Reading the tables and writing them, inside a statement.
unfoldable pub gets : {S A : Type 0} → (S → A) → M S A
gets f w = (ok (f w.db), w)

unfoldable pub puts : {S : Type 0} → (S → S) → M S (Unit {0})
puts f w = (ok tt, record w { db = f w.db })

-- An interaction: the answer is a function of its number.
unfoldable pub ask : {S A : Type 0} → (ℕ → A) → M S A
ask f w = (ok (f w.tick), record w { tick = suc w.tick })

abbrev pub answer : {A : Type 0} → Option A → Result Error A
answer none = err infra
answer (some a) = ok a

-- One that may fail.
unfoldable pub ask? : {S A : Type 0} → (ℕ → Option A) → M S A
ask? f w = (answer (f w.tick), record w { tick = suc w.tick })

-- A statement is sent; the driver may report an error.
unfoldable pub statement : {S : Type 0} → Env → M S (Unit {0})
statement env w = (if env.fails w.tick then err infra else ok tt, record w { tick = suc w.tick })

-- `if b { ... }`
abbrev pub when : {S : Type 0} → Bool → M S (Unit {0}) → M S (Unit {0})
when b m = if b then m else pure tt
