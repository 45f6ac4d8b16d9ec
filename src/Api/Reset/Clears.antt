-- ===== src/Api/Reset/Clears.antt =====
-- From the fired reset trigger on: the audit row, the cleared count and the new job.
use skills.Prelude.{ℕ, String, ◌≡◌, refl, ap, ◌⊎◌, inl, inr, ◌∙◌, some, List, ◌∷◌}
use skills.Domain.Types.{status, to_int, pending, Trigger, Notification}
use skills.Domain.Errors.{ok}
use skills.World.{Row, LogRow, State, World}
use skills.Environment.{Env, EmailJobPayload}
use skills.Database.{by_id, update_row}
use skills.Database.Table.{IsTable, update_row_settles}
use skills.Queue.{enqueue}
use skills.Queue.Effect.{enqueue-Writes}
use skills.Store.{Store}
use skills.Store.Contract.{
  Fault, Updates, Writes, IsStore, put_status, put_columns, put_rows, log_row,
}
use skills.Api.Code
use skills.Api.Response.{Response, empty, write_json}
use skills.Api.Notify.{internal_error}
use skills.Api.Reset.{cleared, clear_and_enqueue}

-- The row after a reset at the time `t`.
abbrev pub reset_row : ℕ → Row → Row
reset_row t r = record r { status = to_int pending; retry_count = 0; updated_at = t }

abbrev pub reset_job : Row → String → EmailJobPayload
reset_job row request_id = record {
  notification_id = row.id;
  email = row.email;
  request_id = request_id;
}

abbrev pub reset_entry : Row → LogRow
reset_entry row = log_row "notification" row.id (status row.status) pending Trigger.reset

-- The audit log has the transition, unless writing it failed.
abbrev pub Logged : Env → Row → List LogRow → List LogRow → Type 0
Logged env row before after = (after ≡ reset_entry row ∷ before) ⊎ (Fault env × (after ≡ before))

pub data Clears (env : Env) (request_id : String) (row : Row) (s : State) (r : Response × World)
    : Type 0 where
  half :
      (f : Row → Row) (t : ℕ) (log : List LogRow)
      → Fault env
      → (f ≡ put_status pending t) ⊎ (f ≡ reset_row t)
      → Logged env row s.log log
      → r.0 ≡ internal_error
      → r.1.state ≡ record s { rows = update_row row.id f s.rows; log = log }
      → Clears env request_id row s r
  done :
      (t : ℕ) (log : List LogRow)
      → Logged env row s.log log
      → r.0 ≡ write_json Code.no_content empty
      → r.1.state ≡ record s {
        rows = update_row row.id (reset_row t) s.rows;
        log = log;
        queue = env.marshal (reset_job row request_id) ∷ s.queue;
      }
      → Clears env request_id row s r

module _ (env : Env) (store : Store) (contract : IsStore env store) (request_id : String)
    (row : Row) (s : State) (w1 : World) (t1 : ℕ) where
  abbrev n : Notification
  n = contract.scan row

  abbrev Goal : Response × World → Type 0
  Goal r = Clears env request_id row s r

  abbrev payload : String
  payload =
      env.marshal (record { notification_id = n.id; email = n.email; request_id = request_id })

  module _ (table : IsTable s.rows) (found : by_id row.id s.rows ≡ some row)
      (before : w1.state ≡ put_rows (update_row row.id (put_status pending t1) s.rows) s) where
    settled :
        (t : ℕ)
        → update_row n.id
            (put_columns (cleared n) t)
            (update_row row.id (put_status pending t1) s.rows)
          ≡ update_row row.id (reset_row t) s.rows
    settled t =
        let shows = contract.scan-Shows row in
        rw (shows.id, shows.retry_limit)
          (update_row_settles row.id
            (put_columns (record (cleared n) { retry_limit = row.retry_limit }) t)
            (put_status pending t1) (reset_row t) row s.rows (λ v. (refl, refl)) table found refl)

    same_payload : payload ≡ env.marshal (reset_job row request_id)
    same_payload =
        let shows = contract.scan-Shows row in
        let same : (record { notification_id = n.id; email = n.email; request_id = request_id })
            ≡ reset_job row request_id =
          rw (shows.id, shows.email) in
        ap env.marshal same

    logged :
        (log : List LogRow) × Logged env row s.log log
        × ((store.log_transition "notification" n.id n.status pending Trigger.reset w1).1.state
            ≡ record w1.state { log = log })
    logged = go (contract.log "notification" n.id n.status pending Trigger.reset w1)
      where
        go :
            Writes env w1
              (λ _. record w1.state {
                log = log_row "notification" n.id n.status pending Trigger.reset ∷ w1.state.log;
              })
              (store.log_transition "notification" n.id n.status pending Trigger.reset w1)
            → (log : List LogRow) × Logged env row s.log log
              × ((store.log_transition "notification" n.id n.status pending Trigger.reset
                    w1).1.state
                  ≡ record w1.state { log = log })
        go (Writes.broken e w2 k r q) = (s.log, inr (k, refl), rw r (q ∙ rw before))
        go (Writes.written _ w2 r q) =
            let shows = contract.scan-Shows row in
            (reset_entry row ∷ s.log, inl refl, rw r (q ∙ rw (before, shows.id, shows.status)))

    pub clear_and_enqueue-Clears : Goal (clear_and_enqueue env store request_id n w1)
    unfolding clear_and_enqueue
    clear_and_enqueue-Clears = go (contract.update (cleared n) w2)
      where
        w2 : World
        w2 = (store.log_transition "notification" n.id n.status pending Trigger.reset w1).1

        queued :
            (t : ℕ) (m : Notification) (w3 : World)
            → store.update_notification (cleared n) w2 ≡ (ok m, w3)
            → w3.state
              ≡ put_rows (update_row n.id (put_columns (cleared n) t) w2.state.rows) w2.state
            → Writes env w3
                (λ _. record w3.state { queue = payload ∷ w3.state.queue })
                (enqueue env payload w3)
            → Goal (clear_and_enqueue env store request_id n w1)
        queued t m w3 r q (Writes.broken e w4 k u v) =
            let (log, said, after) = logged in
            rw (r, clear_and_enqueue, r, u, r, u)
              (Clears.half (reset_row t) t log k (inr refl) said refl
                (v ∙ q ∙ rw (after, before, settled t)))
        queued t m w3 r q (Writes.written _ w4 u v) =
            let (log, said, after) = logged in
            rw (r, clear_and_enqueue, r, u, r, u)
              (Clears.done t log said refl (v ∙ rw (q, after, before, settled t, same_payload)))

        go :
            Updates env w2 (cleared n) (store.update_notification (cleared n) w2)
            → Goal (clear_and_enqueue env store request_id n w1)
        go (Updates.broken e w3 k r q) =
            let (log, said, after) = logged in
            rw (r, clear_and_enqueue, r)
              (Clears.half (put_status pending t1) t1 log k (inl refl) said refl
                (q ∙ after ∙ rw before))
        go (Updates.updated t m w3 r q) = queued t m w3 r q (enqueue-Writes env payload w3)
