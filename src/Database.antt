-- ===== src/Database.antt =====
-- The SQL statements of internal/infra/sqlite/store.go and internal/infra/postgres/store.go over
-- the table of their migrations: a primary key `id`, a UNIQUE `email`.
pub mod Table
pub mod Order
use Prim.Native.Nat.{Ordering, compare}
use Prim.Native.String.{compare as compare_text}
use skills.Prelude.{
  ℕ, ◌+◌, String, ◌≡◌, refl, ◌⊎◌, inl, inr, Bool, true, false, ◌||◌, Option, none, some, List, [],
  ◌∷◌, take, length, same, if◌then◌else◌, Bool-cases, Option-cases,
}
use skills.Domain.Errors.{Error, wrap, Result, ok, err, plain}
use skills.World.{Row, LogRow, World}
use skills.Environment.{Listing, querying, scanning, iterating, Env}

-- `SELECT … WHERE email = ?`, the one row that `QueryRow` reads.
unfoldable pub by_email : String → List Row → Option Row
by_email email [] = none
by_email email (r ∷ rs) = if same r.email email then some r else by_email email rs

-- `SELECT … WHERE id = ?`.
unfoldable pub by_id : String → List Row → Option Row
by_id id [] = none
by_id id (r ∷ rs) = if same r.id id then some r else by_id id rs

-- `UPDATE … WHERE id = ?`: every row that has the id.
unfoldable pub update_row : String → (Row → Row) → List Row → List Row
update_row id f [] = []
update_row id f (r ∷ rs) = (if same r.id id then f r else r) ∷ update_row id f rs

-- Whether an INSERT breaks the primary key or the UNIQUE email.
unfoldable pub conflicts : Row → List Row → Bool
conflicts row [] = false
conflicts row (r ∷ rs) = same r.id row.id || (same r.email row.email || conflicts row rs)

-- The row value comparison `(created_at, id) < (created_at, id)`, ids by their bytes: SQLite's
-- order, and PostgreSQL's in the C collation.
unfoldable pub row_lt : Row → Row → Bool
row_lt a b = elim (compare a.created_at b.created_at) [
  | Ordering.lt ↦ true
  | Ordering.eq ↦ elim (compare_text a.id b.id) [ Ordering.lt ↦ true | _ ↦ false ]
  | Ordering.gt ↦ false
]

unfoldable pub insert_sorted : Row → List Row → List Row
insert_sorted r [] = r ∷ []
insert_sorted r (s ∷ rs) = if row_lt s r then s ∷ insert_sorted r rs else r ∷ s ∷ rs

-- `ORDER BY created_at ASC, id ASC`.
unfoldable pub order_rows : List Row → List Row
unfolding insert_sorted row_lt
order_rows [] = []
order_rows (r ∷ rs) = insert_sorted r (order_rows rs)

-- `WHERE (created_at, id) > cursor`.
unfoldable pub rows_after : Row → List Row → List Row
rows_after cursor [] = []
rows_after cursor (r ∷ rs) =
    let rest = rows_after cursor rs in if row_lt cursor r then r ∷ rest else rest

-- The two queries of `ListNotifications`. A cursor that names no row compares with NULL: no row.
unfoldable pub select_page : String → ℕ → List Row → List Row
unfolding order_rows rows_after by_id
select_page after limit rows =
    if same after "" then take limit (order_rows rows) else elim (by_id after rows) [
      | none ↦ []
      | some cursor ↦ take limit (order_rows (rows_after cursor rows))
    ]

abbrev pub next_call : World → World
next_call w = record w { calls = w.calls + 1 }

abbrev pub with_rows : List Row → World → World
with_rows rows w = record w { state = record w.state { rows = rows } }

-- One statement: the driver fails, or the statement runs.
unfoldable pub statement :
    {A : Type 0} → Env → (World → Result A × World) → World → Result A × World
statement env body w = elim (env.faults w.calls) [
  | some text ↦ (err (plain text), next_call w)
  | none ↦ body (next_call w)
]

-- The error of `ListNotifications`.
unfoldable pub list_error : Listing → Error → Error
list_error querying e = wrap "list notifications" e
list_error scanning e = wrap "scan notification" e
list_error iterating e = e

-- `INSERT INTO notifications`.
unfoldable pub insert_row : Env → Row → World → Result (Unit {0}) × World
unfolding conflicts
insert_row env row w =
    if conflicts row w.state.rows
    then (err (plain (env.unique_error row)), w)
    else (ok tt, with_rows (row ∷ w.state.rows) w)

-- The other statements' effects.
abbrev pub query_by_email : String → World → Result (Option Row) × World
query_by_email email w = (ok (by_email email w.state.rows), w)

abbrev pub query_by_id : String → World → Result (Option Row) × World
query_by_id id w = (ok (by_id id w.state.rows), w)

abbrev pub query_page : String → ℕ → World → Result (List Row) × World
query_page after limit w = (ok (select_page after limit w.state.rows), w)

abbrev pub query_count : World → Result ℕ × World
query_count w = (ok (length w.state.rows), w)

abbrev pub exec_update : String → (Row → Row) → World → Result (Unit {0}) × World
exec_update id f w = (ok tt, with_rows (update_row id f w.state.rows) w)

abbrev pub exec_log : LogRow → World → Result (Unit {0}) × World
exec_log entry w = (ok tt, record w { state = record w.state { log = entry ∷ w.state.log } })

abbrev pub ping_driver : World → Result (Unit {0}) × World
ping_driver w = (ok tt, w)

module _ {A : Type 0} (env : Env) (body : World → Result A × World) (w : World) where
  -- How a statement can end.
  pub statement-cases :
      ((text : String) × (env.faults w.calls ≡ some text)
        × (statement env body w ≡ (err (plain text), next_call w)))
      ⊎ (statement env body w ≡ body (next_call w))
  unfolding statement
  statement-cases = elim (Option-cases (env.faults w.calls)) [
    | inr (text, e) ↦ inl (text, e, rw (e, statement))
    | inl e ↦ inr (rw (e, statement))
  ]

module _ (env : Env) (row : Row) (w : World) where
  pub insert_row-cases :
      ((conflicts row w.state.rows ≡ true)
        × (insert_row env row w ≡ (err (plain (env.unique_error row)), w)))
      ⊎ ((conflicts row w.state.rows ≡ false)
          × (insert_row env row w ≡ (ok tt, with_rows (row ∷ w.state.rows) w)))
  unfolding insert_row
  insert_row-cases = elim (Bool-cases (conflicts row w.state.rows)) [
    | inl c ↦ inl (c, rw c)
    | inr c ↦ inr (c, rw c)
  ]
