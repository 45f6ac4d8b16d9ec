-- ===== src/Backend/Contract.antt =====
-- Whatever the DSN, the service runs over a backend that keeps the contract of the interface.
use text.Mathlib.Text.{starts_with}
use skills.Prelude.{String, ◌≡◌, true, false, Bool-cases, inl, inr}
use skills.Environment.{Env}
use skills.Store.Contract.{IsStore}
use skills.Sqlite.Contract as SqliteContract
use skills.Postgres.Contract as PostgresContract
use skills.Backend.{open_store}

-- The selected backend's driver names a violated constraint in its error.
abbrev pub ReportsUnique : Env → String → Type 0
ReportsUnique env dsn =
    ((starts_with dsn "postgres" ≡ true) → PostgresContract.ReportsUnique env)
    × ((starts_with dsn "postgres" ≡ false) → SqliteContract.ReportsUnique env)

-- With a driver that names a violated constraint as the selected backend expects, the store that
-- `Open` selects for any DSN keeps the contract, on every failure of the driver.
pub open_store-IsStore :
    (env : Env) (dsn : String) → ReportsUnique env dsn → IsStore env (open_store env dsn)
unfolding open_store
open_store-IsStore env dsn u = elim (Bool-cases (starts_with dsn "postgres")) [
  | inl p ↦ rw p (PostgresContract.postgres_store-IsStore env (u.0 p))
  | inr p ↦ rw p (SqliteContract.sqlite_store-IsStore env (u.1 p))
]
