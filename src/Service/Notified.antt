-- ===== src/Service/Notified.antt =====
-- From POST /v1/notify to the last delivery attempt.
use skills.Prelude.{String, Bool, ◌≡◌, ap, inl, ◌∷◌, some, arith, same_refl, List}
use skills.Domain.Types.{pending, default_retry_limit, status-to_int}
use skills.World.{Row, World}
use skills.Environment.{Env, Healthy, IsStateless, Survives}
use skills.Database.{by_email}
use skills.Database.Table.{IsTable}
use skills.Queue.{Flavor, queue_opts}
use skills.Store.{Store}
use skills.Store.Contract.{IsStore}
use skills.Worker.Retries.{redeliver, Settled, redeliver-Settled}
use skills.Api.Code
use skills.Api.Response.{Response}
use skills.Api.Notify.{handle_notify}
use skills.Api.Notify.Accepts.{Accepts, job_of, issued_id, handle_notify-Accepts}
use skills.Service.{Renders}

abbrev pub notify_job : Env → String → String → World → String
notify_job env request_id email w =
    env.marshal (job_of (issued_id env request_id email w) email request_id)

by_email_first :
    (email : String) (row : Row) (rows : List Row)
    → row.email ≡ email
    → by_email email (row ∷ rows) ≡ some row
unfolding by_email
by_email_first email row rows e = rw (e, same_refl email)

module _ (env : Env) (store : Store) (law : IsStateless env) (contract : IsStore env store)
    (healthy : Healthy env) (renders : Renders env) (b : Bool) (flavor : Flavor)
    (request_id email : String) (w : World) where
  abbrev answer : Response × World
  answer = handle_notify env store request_id (some email) w

  abbrev Serves : Response × World → Type 0
  Serves r =
      (r.1.state.queue ≡ notify_job env request_id email w ∷ w.state.queue)
      × Settled email default_retry_limit 0 r.1 (
          redeliver env store b (queue_opts flavor).max_receive (notify_job env request_id email w)
            r.1)

  -- Over a backend that keeps the contract and with `stateless` as documented, a notify request
  -- that is answered with 202, with a driver that does not fail, templates that render, a table
  -- whose ids and emails are unique and a payload that JSON reads back, puts one job on the queue.
  -- Within the receptions that the queue allows, that job is acknowledged after at least one and
  -- at most four of them, whatever the sender answers; each hands over one email, and then the
  -- notification of that email is delivered or failed.
  pub notify-Settled :
      IsTable w.state.rows
      → Survives env (job_of (issued_id env request_id email w) email request_id)
      → (handle_notify env store request_id (some email) w).0.code ≡ Code.accepted
      → ((handle_notify env store request_id (some email) w).1.state.queue
          ≡ notify_job env request_id email w ∷ w.state.queue)
        × Settled email default_retry_limit 0
            (handle_notify env store request_id (some email) w).1
            (redeliver env store b
              (queue_opts flavor).max_receive
              (notify_job env request_id email w)
              (handle_notify env store request_id (some email) w).1)
  notify-Settled table json said = go (handle_notify-Accepts env store contract request_id email w)
    where
      go : Accepts env request_id email w answer → Serves answer
      go (Accepts.invalid e v r) = absurd (let c = ap (λ x. x.0.code) r in omega arith)
      go (Accepts.taken row a s c r q) = absurd (let c' = ap (λ x. x.code) r in omega arith)
      go (Accepts.broken a (k, text, f) r q) = absurd (let h = healthy k in ground arith)
      go (Accepts.lost row a (k, text, f) s c r q) = absurd (let h = healthy k in ground arith)
      go (Accepts.accepted row a s c r q) =
          let (html, text, rendered) = renders _ in
          let settled =
            redeliver-Settled env store law contract healthy b (notify_job env request_id email w) 8
              answer.1 row json rendered (rw q (c, table))
              (rw q (by_email_first email row w.state.rows s.email))
              (inl (rw (s.status, status-to_int pending)))
              (let x = s.retry_count in let y = s.retry_limit in omega arith)
              (let x = s.retry_count in let y = s.retry_limit in omega arith) in
          (ap (λ x. x.queue) q, rw (s.retry_limit, s.retry_count) at settled)
