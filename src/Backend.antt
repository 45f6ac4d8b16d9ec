-- ===== src/Backend.antt =====
-- internal/infra/db/open.go: the backend that a DSN selects. The methods of its `Store` pass every
-- call on to the backend, so that the store is the backend's; opening the connection, `DB` and
-- `Close` are not modelled.
pub mod Contract
pub mod Connection
use text.Mathlib.Text.{starts_with}
use skills.Prelude.{String, if◌then◌else◌}
use skills.Environment.{Env}
use skills.Store.{Store}
use skills.Sqlite.{sqlite_store}
use skills.Postgres.{postgres_store}

-- `Open`.
unfoldable pub open_store : Env → String → Store
open_store env dsn = if starts_with dsn "postgres" then postgres_store env else sqlite_store env
