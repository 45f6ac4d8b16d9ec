-- ===== src/Backend/Connection.antt =====
-- The `Open` of internal/infra/sqlite/store.go, internal/infra/postgres/store.go and
-- internal/infra/db/open.go, and their `Close`. `database/sql` and goose are parameters.
use text.Mathlib.Text.{starts_with}
use mathlib.Core.List.{Memᴰ}
use skills.Prelude.{
  ℕ, ◌*◌, String, Bool, true, false, ◌≡◌, ◌≢◌, refl, Option, none, some, List, [], ◌∷◌, ◌++◌, All,
  same, if◌then◌else◌, Option-cases, Bool-cases, inl, inr, arith,
}
use skills.Domain.Errors.{Error, wrap}
use skills.Email.Console.{second}

-- What is done to a connection: the calls that can fail, and the settings of the pool, which
-- cannot; the lifetime is in nanoseconds.
pub data Step : Type 0 where
  opened : String → String → Step
  executed : String → Step
  pinged : Step
  dialect : String → Step
  migrated : Step
  closed : Step

pub data Setting : Type 0 where
  max_open max_idle lifetime : ℕ → Setting

pub data Effect : Type 0 where
  did : Step → Effect
  put : Setting → Effect

-- The error of `database/sql` or goose at each call.
abbrev pub Driver : Type 0
Driver = Step → Option Error

abbrev pub Opening : Type 0
Opening = Option Error × List Effect

-- `if err := …; err != nil { return nil, fmt.Errorf("text: %w", err) }`, and what follows.
abbrev pub checked : Driver → String → Step → Opening → Opening
checked driver text step rest = elim (driver step) [
  | some e ↦ (some (wrap text e), did step ∷ [])
  | none ↦ (rest.0, did step ∷ rest.1)
]

abbrev pub setting : Setting → Opening → Opening
setting s rest = (rest.0, put s ∷ rest.1)

module _ (driver : Driver) (dsn : String) where
  -- `sqlite.Open`: an empty DSN is a database in memory, and there is one connection.
  unfoldable pub sqlite_open : Opening
  sqlite_open =
      checked driver "open sqlite" (opened "sqlite" (if same dsn "" then ":memory:" else dsn)) (
        setting (max_open 1) (
          checked driver "set WAL mode" (executed "PRAGMA journal_mode=WAL") (
            checked driver "enable foreign keys" (executed "PRAGMA foreign_keys=ON") (
              checked driver "set busy timeout" (executed "PRAGMA busy_timeout=5000") (
                checked driver "set dialect" (dialect "sqlite3")
                  (checked driver "run migrations" migrated (none, [])))))))

  -- `postgres.Open`.
  unfoldable pub postgres_open : Opening
  postgres_open = checked driver "open postgres" (opened "pgx" dsn) (
      setting (max_open 25) (
        setting (max_idle 5) (
          setting (lifetime (300 * second)) (
            checked driver "ping postgres" pinged (
              checked driver "set dialect" (dialect "postgres")
                (checked driver "run migrations" migrated (none, [])))))))

  -- `db.Open`.
  unfoldable pub open_connection : Opening
  unfolding sqlite_open postgres_open
  open_connection = if starts_with dsn "postgres" then postgres_open else sqlite_open

-- `Close` of each store.
unfoldable pub close_connection : Driver → Opening
close_connection driver = (driver closed, did closed ∷ [])

-- The call that opens the database: an empty DSN is one in memory.
abbrev pub opening_call : Bool → String → Step
opening_call true dsn = opened "pgx" dsn
opening_call false dsn = opened "sqlite" (if same dsn "" then ":memory:" else dsn)

-- What the specification asks of a connection before the migrations run, in no order: for
-- PostgreSQL the pool's bounds and a ping, for SQLite one connection and the three PRAGMAs.
abbrev pub required : Bool → String → List Effect
required true dsn =
    did (opening_call true dsn)
    ∷ put (max_open 25)
    ∷ put (max_idle 5)
    ∷ put (lifetime (300 * second))
    ∷ did pinged
    ∷ did (dialect "postgres")
    ∷ []
required false dsn =
    did (opening_call false dsn)
    ∷ put (max_open 1)
    ∷ did (executed "PRAGMA journal_mode=WAL")
    ∷ did (executed "PRAGMA foreign_keys=ON")
    ∷ did (executed "PRAGMA busy_timeout=5000")
    ∷ did (dialect "sqlite3")
    ∷ []

-- A setting, or a call that has been made without an error and is no `Close`.
abbrev pub IsFine : Driver → Effect → Type 0
IsFine driver (put s) = Unit {0}
IsFine driver (did step) = (driver step ≡ none) × (step ≢ closed)

abbrev pub Prepared : List Effect → List Effect → Type 0
Prepared needed before = All (λ e. Memᴰ e before) needed

-- An opening ends with the migrations, all that is needed done before, or with the first failed
-- call.
pub data Opens (driver : Driver) (needed : List Effect) (r : Opening) : Type 0 where
  ready :
      (before : List Effect)
      → r ≡ (none, before ++ (did migrated ∷ []))
      → Prepared needed before
      → All (IsFine driver) (before ++ (did migrated ∷ []))
      → Opens driver needed r
  too_early :
      (before : List Effect) (step : Step) (text : String) (e : Error)
      → r ≡ (some (wrap text e), before ++ (did step ∷ []))
      → driver step ≡ some e
      → step ≢ migrated
      → step ≢ closed
      → All (IsFine driver) before
      → Opens driver needed r
  unmigrated :
      (before : List Effect) (e : Error)
      → r ≡ (some (wrap "run migrations" e), before ++ (did migrated ∷ []))
      → driver migrated ≡ some e
      → Prepared needed before
      → All (IsFine driver) before
      → Opens driver needed r

Prepared-cons :
    (x : Effect) (before needed : List Effect)
    → Prepared needed before
    → Prepared needed (x ∷ before)
Prepared-cons x before [] h = tt
Prepared-cons x before (e ∷ needed) (m, h) = (Memᴰ.tail m, Prepared-cons x before needed h)

module _ (driver : Driver) where
  -- One more effect in front that is fine.
  Opens-cons :
      (x : Effect) (needed : List Effect) (rest : Opening)
      → IsFine driver x
      → Opens driver needed rest
      → Opens driver (x ∷ needed) (rest.0, x ∷ rest.1)
  Opens-cons x needed rest f (ready before q p h) =
      ready (x ∷ before) (ground arith) (Memᴰ.head refl, Prepared-cons x before needed p) (f, h)
  Opens-cons x needed rest f (too_early before step text e q d m c h) =
      too_early (x ∷ before) step text e (ground arith) d m c (f, h)
  Opens-cons x needed rest f (unmigrated before e q d p h) =
      unmigrated (x ∷ before) e (ground arith) d (Memᴰ.head refl, Prepared-cons x before needed p)
        (f, h)

  checked-Opens :
      (text : String) (step : Step) (needed : List Effect) (rest : Opening)
      → step ≢ migrated
      → step ≢ closed
      → Opens driver needed rest
      → Opens driver (did step ∷ needed) (checked driver text step rest)
  checked-Opens text step needed rest m c o = elim (Option-cases (driver step)) [
    | inr (e, p) ↦ too_early [] step text e (rw (p, checked) refl) p m c tt
    | inl n ↦ rw (n, checked) (Opens-cons (did step) needed rest (n, c) o)
  ]

  setting-Opens :
      (s : Setting) (needed : List Effect) (rest : Opening)
      → Opens driver needed rest
      → Opens driver (put s ∷ needed) (setting s rest)
  setting-Opens s needed rest o = Opens-cons (put s) needed rest tt o

  checked-first :
      (text : String) (step : Step) (rest : Opening)
      → (more : List Effect) × ((checked driver text step rest).1 ≡ did step ∷ more)
  checked-first text step rest = elim (Option-cases (driver step)) [
    | inr (e, p) ↦ ([], rw (p, checked) refl)
    | inl n ↦ (rest.1, rw (n, checked) refl)
  ]

  migrations-Opens : Opens driver [] (checked driver "run migrations" migrated (none, []))
  migrations-Opens = elim (Option-cases (driver migrated)) [
    | inr (e, p) ↦ unmigrated [] e (rw (p, checked) refl) p tt tt
    | inl n ↦ ready [] (rw (n, checked) refl) tt ((n, λ h. cc), tt)
  ]

module _ (driver : Driver) (dsn : String) where
  sqlite-Opens : Opens driver (required false dsn) (sqlite_open driver dsn)
  unfolding sqlite_open
  sqlite-Opens =
      checked-Opens driver _ _ _ _ (λ h. cc) (λ h. cc)
        (setting-Opens driver _ _ _ (
          checked-Opens driver _ _ _ _ (λ h. cc) (λ h. cc)
            (checked-Opens driver _ _ _ _ (λ h. cc) (λ h. cc)
              (checked-Opens driver _ _ _ _ (λ h. cc) (λ h. cc)
                (checked-Opens driver _ _ _ _ (λ h. cc) (λ h. cc) (migrations-Opens driver))))))

  postgres-Opens : Opens driver (required true dsn) (postgres_open driver dsn)
  unfolding postgres_open
  postgres-Opens =
      checked-Opens driver _ _ _ _ (λ h. cc) (λ h. cc)
        (setting-Opens driver _ _ _ (
          setting-Opens driver _ _ _ (
            setting-Opens driver _ _ _ (
              checked-Opens driver _ _ _ _ (λ h. cc) (λ h. cc)
                (checked-Opens driver _ _ _ _ (λ h. cc) (λ h. cc) (migrations-Opens driver))))))

  first_sqlite :
      (rest : List Effect) × ((sqlite_open driver dsn).1 ≡ did (opening_call false dsn) ∷ rest)
  unfolding sqlite_open
  first_sqlite = checked-first driver _ _ _

  first_postgres :
      (rest : List Effect) × ((postgres_open driver dsn).1 ≡ did (opening_call true dsn) ∷ rest)
  unfolding postgres_open
  first_postgres = checked-first driver _ _ _

-- For every DSN and driver, opening the store of the selected backend begins with the call that
-- opens the database. It runs the migrations only as its last call, and only after each setting
-- and call that the specification asks for before them: one connection, the three PRAGMAs and the
-- dialect for SQLite, the bounds and the lifetime of the pool, the ping and the dialect for
-- PostgreSQL. It succeeds exactly when every call does, and otherwise ends at the first call that
-- fails, with that call's error wrapped. In no case is the connection closed, so that a failure
-- after the first call leaves it open.
pub open_connection-Opens :
    (driver : Driver) (dsn : String)
    → let postgres = starts_with dsn "postgres" in
      Opens driver (required postgres dsn) (open_connection driver dsn)
      × ((rest : List Effect) × ((open_connection driver dsn).1
            ≡ did (opening_call postgres dsn) ∷ rest))
unfolding open_connection
open_connection-Opens driver dsn = elim (Bool-cases (starts_with dsn "postgres")) [
  | inl p ↦ rw p (postgres-Opens driver dsn, first_postgres driver dsn)
  | inr p ↦ rw p (sqlite-Opens driver dsn, first_sqlite driver dsn)
]
