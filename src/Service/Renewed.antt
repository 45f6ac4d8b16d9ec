-- ===== src/Service/Renewed.antt =====
-- From POST /v1/notify/reset to the last delivery attempt.
use skills.Prelude.{
  ℕ, String, Bool, ◌≡◌, refl, sym, subst, ap, inl, ◌∷◌, some, ◌+◌, arith, same_refl, List,
}
use mathlib.Core.Option
use skills.Domain.Types.{pending, status-to_int}
use skills.World.{Row, World}
use skills.Environment.{Env, Healthy, IsStateless, Survives}
use skills.Database.{by_email, update_row}
use skills.Database.Table.{IsTable, by_email-update_row, update_row-IsTable, email_of_by_email}
use skills.Store.{Store}
use skills.Store.Contract.{IsStore}
use skills.Worker.Retries.{redeliver, Settled, redeliver-Settled}
use skills.Api.Code
use skills.Api.Response.{Response}
use skills.Api.Reset.{handle_reset}
use skills.Api.Reset.Clears.{Clears, reset_row, reset_job}
use skills.Api.Reset.Resets.{Resets, handle_reset-Resets}
use skills.Service.{Renders}

reset-found :
    (email : String) (row : Row) (t : ℕ) (rows : List Row)
    → by_email email rows ≡ some row
    → by_email email (update_row row.id (reset_row t) rows) ≡ some (reset_row t row)
reset-found email row t rows found = rw (
  by_email-update_row row.id (reset_row t) (λ r. (refl, refl)) email rows,
  found,
  Option.map,
  same_refl row.id,
)

module _ (env : Env) (store : Store) (law : IsStateless env) (contract : IsStore env store)
    (healthy : Healthy env) (renders : Renders env) (b : Bool) (request_id email : String)
    (w : World) where
  abbrev answer : Response × World
  answer = handle_reset env store request_id (some email) w

  -- Over a backend that keeps the contract and with `stateless` as documented, a reset request for
  -- the email of a row that is answered with 204, with a driver that does not fail, templates that
  -- render, a table whose ids and emails are unique and a payload that JSON reads back, puts one
  -- job on the queue for that row. That job is acknowledged after at least one and at most
  -- `retry_limit + 1` receptions, whatever the sender answers, each of which hands over one email,
  -- and then the notification is again delivered or failed.
  pub reset-Settled :
      (row : Row)
      → IsTable w.state.rows
      → by_email email w.state.rows ≡ some row
      → Survives env (reset_job row request_id)
      → (handle_reset env store request_id (some email) w).0.code ≡ Code.no_content
      → ((handle_reset env store request_id (some email) w).1.state.queue
          ≡ env.marshal (reset_job row request_id) ∷ w.state.queue)
        × Settled email row.retry_limit 0 (handle_reset env store request_id (some email) w).1 (
            redeliver env store b
              (row.retry_limit + 1)
              (env.marshal (reset_job row request_id))
              (handle_reset env store request_id (some email) w).1)
  reset-Settled row table m json said =
      go (handle_reset-Resets env store law contract request_id email w table)
    where
      Serves : Response × World → Type 0
      Serves r =
          (r.1.state.queue ≡ env.marshal (reset_job row request_id) ∷ w.state.queue)
          × Settled email row.retry_limit 0 r.1 (
              redeliver env store b (row.retry_limit + 1) (env.marshal (reset_job row request_id))
                r.1)

      go : Resets env request_id email w answer → Serves answer
      go (Resets.missing _ r q) = absurd (let c = ap (λ x. x.code) r in omega arith)
      go (Resets.broken (k, text, f) r q) = absurd (let h = healthy k in ground arith)
      go (Resets.held _ _ h r q) = absurd (let c = ap (λ x. x.code) r in omega arith)
      go (Resets.refused _ _ p r q) = absurd (let c = ap (λ x. x.code) r in omega arith)
      go (Resets.cleared _ _ h (Clears.half f t log (k, text, e) p l r q)) =
          absurd (let h' = healthy k in ground arith)
      go (Resets.cleared row' m' h (Clears.done t log l r q')) =
          let here : row' ≡ row = ground arith in
          let q = rw here at q' in
          let (html, text, rendered) = renders _ in
          let same : row.email ≡ email = email_of_by_email email row w.state.rows m in
          let settled =
            redeliver-Settled env store law contract healthy b
              (env.marshal (reset_job row request_id)) (row.retry_limit + 1) answer.1
              (reset_row t row) json rendered
              (rw q
                (update_row-IsTable row.id (reset_row t) (λ r. (refl, refl)) w.state.rows table))
              (rw q (
                reset-found row.email row t w.state.rows
                  (subst (λ e. by_email e w.state.rows ≡ some row) (sym same) m)))
              (inl (status-to_int pending)) (omega arith) (omega arith) in
          (
            ap (λ x. x.queue) q,
            subst
                (λ e. Settled e row.retry_limit 0 answer.1 (
                  redeliver env store b (row.retry_limit + 1)
                    (env.marshal (reset_job row request_id)) answer.1))
                same settled,
          )
