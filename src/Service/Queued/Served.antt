-- ===== src/Service/Queued/Served.antt =====
-- The jobs in the queue beside the rows of the table, under any sequence of requests to
-- internal/infra/httpapi and receptions by internal/infra/queue/worker.go.
use skills.Prelude.{
  String, Bool, refl, ap, ◌∙◌, Option, none, some, List, [], ◌∷◌, All, inl, inr, Option-cases,
}
use skills.Domain.Types.{pending}
use skills.World.{Row, World}
use skills.Environment.{Env, EmailJobPayload, IsStateless, Survives}
use skills.Database.{by_email, update_row}
use skills.Database.Table.{Keeps, by_id_of_by_email, email_of_by_email}
use skills.Store.{Store}
use skills.Store.Contract.{IsStore, put_status}
use skills.Worker.{handle}
use skills.Worker.Changes.Handled.{handle-Changes}
use skills.Worker.Sound.{IsSound, handle_unknown}
use skills.Api.Response.{Response}
use skills.Api.Notify.{handle_notify}
use skills.Api.Notify.Accepts.{Accepts, handle_notify-Accepts, issued_id, job_of}
use skills.Api.Reset.{handle_reset}
use skills.Api.Reset.Clears.{Clears, reset_row, reset_job}
use skills.Api.Reset.Resets.{Resets, handle_reset-Resets}
use skills.Service.Runs.{Call, perform, serve, perform-IsSound}
use skills.Service.Queued.{
  Names, Queues, IsQueued, by_id_of_head, by_email_of_head, update_row-Names, update_row-Queued,
  insert-Queued, Changes-IsQueued,
}

module _ (env : Env) (store : Store) (law : IsStateless env) (contract : IsStore env store)
    (survives : (job : EmailJobPayload) → Survives env job) (b : Bool) where
  handle-IsQueued :
      (payload : String) (w : World)
      → IsSound w.state
      → IsQueued env w.state
      → IsQueued env (handle env store b payload w).1.state
  unfolding handle
  handle-IsQueued payload w i h = elim (Option-cases (env.unmarshal payload)) [
    | inl e ↦ rw (e, handle) h
    | inr (job, e) ↦ elim (Option-cases (by_email job.email w.state.rows)) [
      | inl m ↦ rw (handle_unknown env store law contract b payload w job e m) h
      | inr (row, m) ↦
          Changes-IsQueued env row.id row.retry_limit row.retry_count
            (handle-Changes env store law contract b payload w e i.table m) h
    ]
  ]

  notify-IsQueued :
      (request_id : String) (email : Option String) (w : World)
      → IsQueued env w.state
      → IsQueued env (handle_notify env store request_id email w).1.state
  unfolding handle_notify
  notify-IsQueued request_id none w h = h
  notify-IsQueued request_id (some email) w h =
      go _ (handle_notify-Accepts env store contract request_id email w)
    where
      go : (r : Response × World) → Accepts env request_id email w r → IsQueued env r.1.state
      go r (Accepts.invalid e v q) = rw q h
      go r (Accepts.taken row a s c e q) = rw q h
      go r (Accepts.broken a k e q) = rw q h
      go r (Accepts.lost row a k s c e q) =
          rw q (insert-Queued env row w.state.rows w.state.queue c h)
      go r (Accepts.accepted row a s c e q) =
          let job = job_of (issued_id env request_id email w) email request_id in
          rw q (
            (
              job,
              survives job,
              (
                row,
                by_id_of_head row _ w.state.rows s.id,
                by_email_of_head row _ w.state.rows s.email,
              ),
            ),
            insert-Queued env row w.state.rows w.state.queue c h,
          )

  reset-IsQueued :
      (request_id : String) (email : Option String) (w : World)
      → IsSound w.state
      → IsQueued env w.state
      → IsQueued env (handle_reset env store request_id email w).1.state
  unfolding handle_reset
  reset-IsQueued request_id none w i h = h
  reset-IsQueued request_id (some email) w i h =
      go _ (handle_reset-Resets env store law contract request_id email w i.table)
    where
      updated :
          (row : Row) (f : Row → Row)
          → Keeps f
          → All (Queues env (update_row row.id f w.state.rows)) w.state.queue
      updated row f keeps = update_row-Queued env row.id f w.state.rows w.state.queue keeps h

      go : (r : Response × World) → Resets env request_id email w r → IsQueued env r.1.state
      go r (Resets.missing m e q) = rw q h
      go r (Resets.broken k e q) = rw q h
      go r (Resets.held row m x e q) = rw q h
      go r (Resets.refused row m p e q) = rw q h
      go r (Resets.cleared row m x (Clears.half f t log k (inl p) l e q)) =
          rw (q, p) (updated row (put_status pending t) (λ r. (refl, refl)))
      go r (Resets.cleared row m x (Clears.half f t log k (inr p) l e q)) =
          rw (q, p) (updated row (reset_row t) (λ r. (refl, refl)))
      go r (Resets.cleared row m x (Clears.done t log l e q)) =
          let job = reset_job row request_id in
          let named : Names job w.state.rows = (
            row,
            by_id_of_by_email email row w.state.rows i.table m,
            ap (λ e. by_email e w.state.rows) (email_of_by_email email row w.state.rows m) ∙ m,
          ) in
          rw q (
            (
              job,
              survives job,
              update_row-Names row.id (reset_row t) job w.state.rows (λ r. (refl, refl)) named,
            ),
            updated row (reset_row t) (λ r. (refl, refl)),
          )

  perform-IsQueued :
      (c : Call) (w : World)
      → IsSound w.state
      → IsQueued env w.state
      → IsQueued env (perform env store b c w).state
  unfolding perform
  perform-IsQueued (Call.notify request_id email) w i h = notify-IsQueued request_id email w h
  perform-IsQueued (Call.reset request_id email) w i h = reset-IsQueued request_id email w i h
  perform-IsQueued (Call.receive payload) w i h = handle-IsQueued payload w i h

  -- Over a backend that keeps the contract, with `stateless` as documented and payloads that JSON
  -- reads back as they were written, any sequence of notify requests, reset requests and
  -- receptions of any payloads, with any failures of the driver, the templates and the sender,
  -- from a state whose table has unique ids and emails, the five statuses and retry counts up to
  -- their limits, and whose queue holds only jobs of stored notifications: that is so after it
  -- too. Every payload in the queue is a job, and its id and its email find the same row, so no
  -- job outlives its notification.
  pub serve-IsQueued :
      (calls : List Call) (w : World)
      → IsSound w.state
      → IsQueued env w.state
      → IsSound (serve env store b calls w).state × IsQueued env (serve env store b calls w).state
  unfolding serve
  serve-IsQueued [] w i h = (i, h)
  serve-IsQueued (c ∷ calls) w i h =
      serve-IsQueued calls (perform env store b c w)
        (perform-IsSound env store law contract b c w i) (perform-IsQueued c w i h)
