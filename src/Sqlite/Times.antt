-- ===== src/Sqlite/Times.antt =====
-- What the TEXT columns of internal/infra/sqlite keep of a time.
use skills.Prelude.{ℕ, ◌+◌, ◌≤◌, ◌<◌, false, ◌≡◌, refl, ◌∷◌, same_refl, arith}
use skills.Domain.Types.{Notification}
use skills.Domain.Errors.{ok}
use skills.World.{World}
use skills.Environment.{Env, Healthy}
use skills.Database.{with_rows, next_call, statement, insert_row, conflicts}
use skills.Sqlite.{
  insert_values, scan, format_rfc3339, parse_rfc3339, create_notification,
  get_notification_by_email,
}

-- A time that is read against the time that was meant: the whole seconds of it.
abbrev pub WholeSeconds : ℕ → ℕ → Type 0
WholeSeconds read meant = (read ≤ meant) × (meant < read + 1000000000)

whole_seconds : (t : ℕ) → WholeSeconds (parse_rfc3339 (format_rfc3339 t)) t
unfolding parse_rfc3339 format_rfc3339
whole_seconds t = (omega arith, omega arith)

-- Over SQLite, with a driver that does not fail, a notification whose id and email no row has is
-- created with the time of the clock, and read back with both times less than a second before it.
pub create-get-WholeSeconds :
    (env : Env) (n : Notification) (w : World)
    → Healthy env
    → conflicts (insert_values n (env.clock w.ticks)) w.state.rows ≡ false
    → (m m' : Notification) × (w1 w2 : World) × (create_notification env n w ≡ (ok m, w1))
      × (get_notification_by_email env n.email w1 ≡ (ok m', w2))
      × (m.created_at ≡ env.clock w.ticks)
      × WholeSeconds m'.created_at m.created_at
      × WholeSeconds m'.updated_at m.updated_at
unfolding create_notification get_notification_by_email statement insert_row
create-get-WholeSeconds env n w healthy fresh =
    let now = env.clock w.ticks in
    let row = insert_values n now in
    let w1 = with_rows (row ∷ w.state.rows) (next_call (record w { ticks = w.ticks + 1 })) in
    (
      record n { created_at = now; updated_at = now },
      scan row,
      w1,
      next_call w1,
      ground (arith, healthy w.calls),
      ground (arith, healthy (w.calls + 1), same_refl n.email),
      refl,
      whole_seconds now,
      whole_seconds now,
    )
