-- ===== src/Sql.antt =====
-- The platform's dealings with MySQL (internal/svc): each `db.Exec`, `QueryRow` or `Query` is one
-- statement, which the server runs on the tables or refuses. A refused statement has had no effect.
-- A method of a store is an action: it returns a result or an error, and the state that it leaves.
pub mod Keeps
pub mod Invert
pub mod Returns
use a2a_platform_go.Prelude.{
  ℕ, ◌+◌, String, ◌≡◌, Bool, true, false, Option, none, some, List, [], ◌∷◌, arith, refl, ◌∙◌,
}

pub data Error : Type 0 where
  -- what the server or the driver reports
  db_error : Error
  -- INSERT of a row whose key is there
  duplicate_key : Error
  -- a NULL column is scanned into a Go string
  null_column : Error
  -- crypto/rand gives no bytes
  no_entropy : Error
  -- an error that the platform itself makes, by its text
  failure : String → Error

pub data Result (A : Type 0) : Type 0 where
  ok : A → Result A
  err : Error → Result A

-- What the process draws from outside itself and the repository does not define: MySQL's order of
-- texts by their sort keys, SHA-256 in hexadecimal, and the generators of identifiers and tokens.
pub record Env : Type 0 where
  pub collation : String → String
  pub digest : String → String
  pub identifier : ℕ → String
  pub access_token : ℕ → Option String

-- `faults` says of each statement to come whether the server refuses it; `seq` counts what has been
-- drawn: AUTO_INCREMENT values, identifiers and tokens; `now` is the clock of process and server.
pub record World (T : Type 0) : Type 0 where
  pub tables : T
  pub faults : List Bool
  pub seq : ℕ
  pub now : ℕ

abbrev pub Sql : Type 0 → Type 0 → Type 0
Sql T A = Env → World T → Result A × World T

module _ {T A : Type 0} where
  unfoldable pub pure : A → Sql T A
  pure a env w = (ok a, w)

  unfoldable pub raise : Error → Sql T A
  raise e env w = (err e, w)

  -- a pure computation that may fail
  unfoldable pub lift : Result A → Sql T A
  lift r env w = (r, w)

  unfoldable pub asks : (Env → World T → A) → Sql T A
  asks f env w = (ok (f env w), w)

  -- a statement that the server accepts, under the schedule of faults
  abbrev pub outcome : List Bool → Result A × T → World T → Result A × World T
  outcome [] (r, t) w = (r, record w { tables = t })
  outcome (true ∷ rest) (r, t) w = (err db_error, record w { faults = rest })
  outcome (false ∷ rest) (r, t) w = (r, record w { tables = t; faults = rest })

  unfoldable pub statement : (Env → World T → Result A × T) → Sql T A
  statement f env w = outcome w.faults (f env w) w

  -- SELECT
  unfoldable pub query : (Env → World T → Result A) → Sql T A
  unfolding statement
  query f = statement (λ env w. (f env w, w.tables))

  -- The result and the error as two values: what `v, err := …` binds.
  unfoldable pub try : Sql T A → Sql T (Result A)
  try m env w = let (r, w') = m env w in (ok r, w')

-- UPDATE, DELETE and INSERT that hit no key.
unfoldable pub exec : {T : Type 0} → (Env → World T → T) → Sql T (Unit {0})
unfolding statement
exec f = statement (λ env w. (ok tt, f env w))

-- The number that AUTO_INCREMENT, uuid.New or crypto/rand is asked at.
unfoldable pub draw : {T : Type 0} → Sql T ℕ
draw env w = (ok w.seq, record w { seq = w.seq + 1 })

module _ {T A B : Type 0} where
  abbrev pub continue : Result A → (A → World T → Result B × World T) → World T → Result B × World T
  continue (ok a) f w = f a w
  continue (err e) f w = (err e, w)

  infixl 10 ◌>>=◌ ◌>>◌
  -- Opening this opens the primitive actions too.
  unfoldable pub ◌>>=◌ : Sql T A → (A → Sql T B) → Sql T B
  unfolding pure raise lift asks statement query exec draw try
  ◌>>=◌ m f env w = let (r, w') = m env w in continue r (λ a. f a env) w'

  abbrev pub ◌>>◌ : Sql T A → Sql T B → Sql T B
  m >> n = m >>= λ _. n

-- COMMIT, and BEGIN, are statements that change no table.
abbrev pub same_tables : {T : Type 0} → Env → World T → T
same_tables env w = w.tables

-- What an error of COMMIT leaves. The next fault says whether the server had committed and only its
-- answer is lost; otherwise the tables are those that BEGIN found. Generators do not go back.
abbrev pub unanswered : {T : Type 0} → T → List Bool → World T → World T
unanswered t [] w = record w { tables = t }
unanswered t (true ∷ rest) w = record w { faults = rest }
unanswered t (false ∷ rest) w = record w { tables = t; faults = rest }

module _ {T A : Type 0} where
  -- tx.Commit, or the deferred tx.Rollback to the tables that BEGIN found.
  abbrev pub committed : T → A → Result (Unit {0}) × World T → Result A × World T
  committed t a (ok _, w) = (ok a, w)
  committed t a (err e, w) = (err e, unanswered t w.faults w)

  abbrev pub settle : Env → T → Result A × World T → Result A × World T
  settle env t (err e, w) = (err e, record w { tables = t })
  settle env t (ok a, w) = committed t a (exec same_tables env w)

  abbrev pub begun : Sql T A → Env → Result (Unit {0}) × World T → Result A × World T
  begun m env (err e, w) = (err e, w)
  begun m env (ok _, w) = settle env w.tables (m env w)

  unfoldable pub transaction : Sql T A → Sql T A
  unfolding exec
  transaction m env w = begun m env (exec same_tables env w)
