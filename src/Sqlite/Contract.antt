-- ===== src/Sqlite/Contract.antt =====
-- The SQLite store keeps the contract of the storage interface.
use skills.Prelude.{ℕ, String, true, ◌≡◌, refl, ◌+◌, ◌∷◌, map, length, inl, inr, Option-cases}
use skills.Domain.Types.{Status, Trigger, Notification}
use skills.Domain.Errors.{plain, is}
use skills.World.{Row, World}
use skills.Environment.{Env}
use skills.Database.{
  by_email, by_id, update_row, select_page, statement-cases, insert_row-cases, insert_row,
  next_call, query_by_email, query_by_id, query_page, query_count, exec_update, exec_log,
  ping_driver,
}
use skills.Store.Contract.{
  Shows, Stores, Creates, Gets, Updates, Answers, Accesses, Writes, IsStore, put_status, put_rows,
  log_row,
}
use skills.Sqlite.{
  scan, set_columns, set_status, insert_values, is_unique_violation, create_notification,
  get_notification_by_email, update_notification, list_notifications, count_notifications,
  notification_state_accessor, notification_state_mutator, log_transition, ping, sqlite_store,
}

-- What the driver documents: the error of a broken UNIQUE constraint says so.
abbrev pub ReportsUnique : Env → Type 0
ReportsUnique env = (r : Row) → is_unique_violation (plain (env.unique_error r)) ≡ true

scan-Shows : (r : Row) → Shows (scan r) r
unfolding scan
scan-Shows r = record {
  id = refl;
  email = refl;
  status = refl;
  retry_count = refl;
  retry_limit = refl;
}

abbrev tick : World → World
tick w = record w { ticks = w.ticks + 1 }

module _ (env : Env) where
  get-Gets :
      (email : String) (w : World) → Gets env w scan email (get_notification_by_email env email w)
  unfolding get_notification_by_email is
  get-Gets email w = elim (statement-cases env (query_by_email email) w) [
    | inl (text, k, e) ↦
        rw (e, get_notification_by_email, e) (Gets.broken _ _ (_, text, k) refl refl refl)
    | inr e ↦ elim (Option-cases (by_email email w.state.rows)) [
      | inl m ↦ rw (e, get_notification_by_email, m, e) (Gets.missing _ _ m refl refl refl)
      | inr (row, m) ↦ rw (e, get_notification_by_email, m, e) (Gets.found row _ m refl refl)
    ]
  ]

  access-Accesses :
      (id : String) (w : World) → Accesses env w id (notification_state_accessor env id w)
  unfolding notification_state_accessor
  access-Accesses id w = elim (statement-cases env (query_by_id id) w) [
    | inl (text, k, e) ↦
        rw (e, notification_state_accessor, e) (Accesses.broken _ _ (_, text, k) refl refl)
    | inr e ↦ elim (Option-cases (by_id id w.state.rows)) [
      | inl m ↦ rw (e, notification_state_accessor, m, e) (Accesses.missing _ _ m refl refl)
      | inr (row, m) ↦ rw (e, notification_state_accessor, m, e) (Accesses.found row _ m refl refl)
    ]
  ]

  update-Updates : (n : Notification) (w : World) → Updates env w n (update_notification env n w)
  unfolding update_notification
  update-Updates n w =
      elim (statement-cases env (exec_update n.id (set_columns n (env.clock w.ticks))) (tick w)) [
        | inl (text, k, e) ↦
            rw (e, update_notification, e) (Updates.broken _ _ (_, text, k) refl refl)
        | inr e ↦ rw (e, update_notification, e) (Updates.updated _ _ _ refl refl)
      ]

  list-Answers :
      (after : String) (limit : ℕ) (w : World)
      → Answers env w
          (map scan (select_page after limit w.state.rows))
          (list_notifications env after limit w)
  unfolding list_notifications
  list-Answers after limit w = elim (statement-cases env (query_page after limit) w) [
    | inl (text, k, e) ↦ rw (e, list_notifications, e) (Answers.broken _ _ (_, text, k) refl refl)
    | inr e ↦ rw (e, list_notifications, e) (Answers.answered _ refl refl)
  ]

  count-Answers : (w : World) → Answers env w (length w.state.rows) (count_notifications env w)
  unfolding count_notifications
  count-Answers w = elim (statement-cases env query_count w) [
    | inl (text, k, e) ↦ rw (e, count_notifications, e) (Answers.broken _ _ (_, text, k) refl refl)
    | inr e ↦ rw (e, count_notifications, e) (Answers.answered _ refl refl)
  ]

  mutate-Writes :
      (id : String) (s : Status) (w : World)
      → Writes env w
          (λ t. put_rows (update_row id (put_status s t) w.state.rows) w.state)
          (notification_state_mutator env id s w)
  unfolding notification_state_mutator
  mutate-Writes id s w =
      elim (statement-cases env (exec_update id (set_status s (env.clock w.ticks))) (tick w)) [
        | inl (text, k, e) ↦
            rw (e, notification_state_mutator, e) (Writes.broken _ _ (_, text, k) refl refl)
        | inr e ↦ rw (e, notification_state_mutator, e) (Writes.written _ _ refl refl)
      ]

  log-Writes :
      (entity_type id : String) (from to : Status) (t : Trigger) (w : World)
      → Writes env w
          (λ _. record w.state { log = log_row entity_type id from to t ∷ w.state.log })
          (log_transition env entity_type id from to t w)
  unfolding log_transition
  log-Writes entity_type id from to t w =
      elim (statement-cases env (exec_log (log_row entity_type id from to t)) (tick w)) [
        | inl (text, k, e) ↦ rw (e, log_transition, e) (Writes.broken _ _ (_, text, k) refl refl)
        | inr e ↦ rw (e, log_transition, e) (Writes.written 0 _ refl refl)
      ]

  ping-Writes : (w : World) → Writes env w (λ _. w.state) (ping env w)
  unfolding ping
  ping-Writes w = elim (statement-cases env ping_driver w) [
    | inl (text, k, e) ↦ rw (e, ping, e) (Writes.broken _ _ (_, text, k) refl refl)
    | inr e ↦ rw (e, ping, e) (Writes.written 0 _ refl refl)
  ]

  create-Creates :
      ReportsUnique env
      → (n : Notification) (w : World) → Creates env w n (create_notification env n w)
  unfolding create_notification is
  create-Creates u n w =
      let row : Row = insert_values n (env.clock w.ticks) in
      let stores : Stores row n = record {
        id = refl;
        email = refl;
        status = refl;
        retry_count = refl;
        retry_limit = refl;
      } in
      elim (statement-cases env (insert_row env row) (tick w)) [
        | inl (text, k, e) ↦
            rw (e, create_notification, e) (Creates.broken _ _ (_, text, k) refl refl)
        | inr e ↦ elim (insert_row-cases env row (next_call (tick w))) [
          | inl (c, f) ↦
              rw (e, create_notification, f, u row, e, f)
                (Creates.taken row _ _ stores c refl refl refl)
          | inr (c, f) ↦
              rw (e, create_notification, f, e, f) (Creates.created row _ _ stores c refl refl)
        ]
      ]

-- With a driver that names the UNIQUE constraint in its error, the SQLite store keeps the contract.
pub sqlite_store-IsStore : (env : Env) → ReportsUnique env → IsStore env (sqlite_store env)
sqlite_store-IsStore env u = record {
  scan = scan;
  scan-Shows = scan-Shows;
  create = create-Creates env u;
  get = get-Gets env;
  update = update-Updates env;
  list = list-Answers env;
  count = count-Answers env;
  access = access-Accesses env;
  mutate = mutate-Writes env;
  log = log-Writes env;
  ping = ping-Writes env;
}
