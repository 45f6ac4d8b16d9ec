-- ===== src/Sqlite.antt =====
-- internal/infra/sqlite/store.go: the methods of `Store`, statement by statement. `Open` and
-- `Close` are in Backend.Connection.
pub mod Contract
pub mod Times
use skills.Prelude.{
  ℕ, ◌+◌, ◌*◌, ◌/◌, String, ◌<>◌, Bool, Option, none, some, List, ◌∷◌, map, length, contains,
  if◌then◌else◌,
}
use skills.Domain.Types.{
  Status, status, to_int, status_string, Trigger, trigger_string, Notification,
}
use skills.Domain.Errors.{
  Error, sentinel, plain, wrap, not_found, already_notified, Result, ok, err, error_text,
}
use skills.World.{Row, LogRow, World}
use skills.Environment.{Env}
use skills.Database.{
  list_error, by_email, by_id, update_row, select_page, statement, insert_row, query_by_email,
  query_by_id, query_page, query_count, exec_update, exec_log, ping_driver,
}
use skills.Store.{Store}

-- `t.Format(time.RFC3339)` keeps the seconds; the text of a UTC time stands for their number.
unfoldable pub format_rfc3339 : ℕ → ℕ
format_rfc3339 t = t / 1000000000

unfoldable pub parse_rfc3339 : ℕ → ℕ
parse_rfc3339 s = s * 1000000000

unfoldable pub is_unique_violation : Error → Bool
is_unique_violation e = contains (error_text e) "UNIQUE constraint failed"

-- The columns that `CreateNotification` inserts.
unfoldable pub insert_values : Notification → ℕ → Row
unfolding format_rfc3339 to_int
insert_values n now = record {
  id = n.id;
  email = n.email;
  status = to_int n.status;
  retry_count = n.retry_count;
  retry_limit = n.retry_limit;
  created_at = format_rfc3339 now;
  updated_at = format_rfc3339 now;
}

-- `row.Scan` and the conversions below it.
unfoldable pub scan : Row → Notification
unfolding parse_rfc3339 status
scan r = record {
  id = r.id;
  email = r.email;
  status = status r.status;
  retry_count = r.retry_count;
  retry_limit = r.retry_limit;
  created_at = parse_rfc3339 r.created_at;
  updated_at = parse_rfc3339 r.updated_at;
}

-- The SET lists of the two UPDATE statements.
unfoldable pub set_columns : Notification → ℕ → Row → Row
unfolding format_rfc3339 to_int
set_columns n now r = record r {
  status = to_int n.status;
  retry_count = n.retry_count;
  retry_limit = n.retry_limit;
  updated_at = format_rfc3339 now;
}

unfoldable pub set_status : Status → ℕ → Row → Row
unfolding format_rfc3339 to_int
set_status s now r = record r { status = to_int s; updated_at = format_rfc3339 now }

module _ (env : Env) where
  unfoldable pub create_notification : Notification → World → Result Notification × World
  unfolding insert_values is_unique_violation
  create_notification n w =
      let now = env.clock w.ticks in
      let (r, w') =
        statement env (insert_row env (insert_values n now)) (record w { ticks = w.ticks + 1 }) in
      elim r [
        | ok _ ↦ (ok (record n { created_at = now; updated_at = now }), w')
        | err e ↦ (
          err (
              if is_unique_violation e
              then wrap ("create notification " <> n.email) (sentinel already_notified)
              else wrap "create notification" e),
          w',
        )
      ]

  unfoldable pub get_notification_by_email : String → World → Result Notification × World
  unfolding by_email scan
  get_notification_by_email email w =
      let (r, w') = statement env (query_by_email email) w in
      elim r [
        | err e ↦ (err (wrap "get notification" e), w')
        | ok none ↦ (err (wrap ("get notification " <> email) (sentinel not_found)), w')
        | ok (some row) ↦ (ok (scan row), w')
      ]

  unfoldable pub update_notification : Notification → World → Result Notification × World
  unfolding set_columns update_row
  update_notification n w =
      let now = env.clock w.ticks in
      let (r, w') =
        statement env (exec_update n.id (set_columns n now)) (record w { ticks = w.ticks + 1 }) in
      elim r [
        | err e ↦ (err (wrap "update notification" e), w')
        | ok _ ↦ (ok (record n { updated_at = now }), w')
      ]

  unfoldable pub list_notifications : String → ℕ → World → Result (List Notification) × World
  unfolding select_page scan
  list_notifications after limit w =
      let (r, w') = statement env (query_page after limit) w in
      elim r [
        | err e ↦ (err (list_error (env.listing w.calls) e), w')
        | ok rows ↦ (ok (map scan rows), w')
      ]

  unfoldable pub count_notifications : World → Result ℕ × World
  count_notifications w =
      let (r, w') = statement env query_count w in
      elim r [ err e ↦ (err (wrap "count notifications" e), w') | ok n ↦ (ok n, w') ]

  unfoldable pub notification_state_accessor : String → World → Result Status × World
  unfolding by_id status
  notification_state_accessor id w =
      let (r, w') = statement env (query_by_id id) w in
      elim r [
        | err e ↦ (err (wrap "read notification state" e), w')
        | ok none ↦ (err (wrap "read notification state" (plain "sql: no rows in result set")), w')
        | ok (some row) ↦ (ok (status row.status), w')
      ]

  unfoldable pub notification_state_mutator : String → Status → World → Option Error × World
  unfolding set_status update_row
  notification_state_mutator id s w =
      let now = env.clock w.ticks in
      let (r, w') =
        statement env (exec_update id (set_status s now)) (record w { ticks = w.ticks + 1 }) in
      elim r [ err e ↦ (some (wrap "write notification state" e), w') | ok _ ↦ (none, w') ]

  unfoldable pub log_transition :
      String → String → Status → Status → Trigger → World → Option Error × World
  unfolding status_string trigger_string
  log_transition entity_type entity_id from to trigger w =
      let entry : LogRow = record {
        entity_type = entity_type;
        entity_id = entity_id;
        from_state = status_string from;
        to_state = status_string to;
        trigger = trigger_string trigger;
      } in
      let (r, w') = statement env (exec_log entry) (record w { ticks = w.ticks + 1 }) in
      elim r [ err e ↦ (some (wrap "log transition" e), w') | ok _ ↦ (none, w') ]

  unfoldable pub ping : World → Option Error × World
  ping w =
      let (r, w') = statement env ping_driver w in
      elim r [ err e ↦ (some e, w') | ok _ ↦ (none, w') ]

  -- `*sqlite.Store` as a `domain.Store`.
  abbrev pub sqlite_store : Store
  sqlite_store = record {
    create_notification = create_notification;
    get_notification_by_email = get_notification_by_email;
    update_notification = update_notification;
    list_notifications = list_notifications;
    count_notifications = count_notifications;
    log_transition = log_transition;
    notification_state_accessor = notification_state_accessor;
    notification_state_mutator = notification_state_mutator;
    ping = ping;
  }
