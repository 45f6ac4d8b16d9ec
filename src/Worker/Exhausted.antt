-- ===== src/Worker/Exhausted.antt =====
-- A job whose sender fails for a passing reason at every attempt.
use skills.Prelude.{
  ℕ, zero, suc, ◌+◌, ◌≤◌, ◌<◌, ◌≡◌, ◌⊎◌, refl, ◌∙◌, String, Bool, none, some, ltb, ltb→lt, arith,
  Bool-cases, Option-cases, inl, inr, length,
}
use skills.Domain.Types.{status, pending, failed, not_sent, status-to_int}
use skills.Domain.Errors.{ok}
use skills.World.{Row, World}
use skills.Environment.{Env, EmailJobPayload, Healthy, IsStateless}
use skills.Database.{by_email}
use skills.Database.Table.{IsTable, update_row-IsTable}
use skills.Store.{Store}
use skills.Store.Contract.{IsStore}
use skills.Email.{render_notification}
use skills.Worker.{message, handle}
use skills.Worker.Attempt.{transient, verdict, plan, retry_or_fail, attempted_row}
use skills.Worker.Refines.{data_of, handle-Plan}
use skills.Worker.Refines.Endings.{Ends}
use skills.Worker.Retries.{redeliver, attempted-found}

-- What holds when the receptions `r` of a job for `email` are over.
pub record Exhausts (email : String) (limit count : ℕ) (r : ℕ × World) : Type 0 where
  pub received : r.0 + count ≡ limit + 1
  pub row : Row
  pub found : by_email email r.1.state.rows ≡ some row
  pub ended : status row.status ≡ failed
  pub counted : row.retry_count ≡ limit

module _ (env : Env) (store : Store) (law : IsStateless env) (contract : IsStore env store)
    (healthy : Healthy env) (b : Bool) (payload : String) {job : EmailJobPayload}
    {html text : String}
    (fails : (k : ℕ) → verdict (env.send k (message job html text)) ≡ transient) where
  attempt-Ends :
      (w : World) (row : Row)
      → env.unmarshal payload ≡ some job
      → render_notification env (data_of job) ≡ ok (html, text)
      → IsTable w.state.rows
      → by_email job.email w.state.rows ≡ some row
      → (status row.status ≡ pending) ⊎ (status row.status ≡ not_sent)
      → Ends b row
          (message job html text)
          (retry_or_fail (ltb row.retry_count row.retry_limit) row.retry_count)
          w.state
          (handle env store b payload w)
  unfolding plan
  attempt-Ends w row parsed rendered table found ready =
      let ends =
        handle-Plan env store law contract healthy b payload w parsed table found ready rendered in
      rw (fails (length w.state.mailbox)) at ends

  -- Over a backend that keeps the contract and with `stateless` as documented, with a driver that
  -- does not fail, templates that render, a table whose ids and emails are unique and a sender that
  -- fails for a passing reason at every message, a job whose notification is pending or waits for a
  -- retry, with a retry count up to its limit, is acknowledged after exactly `retry_limit -
  -- retry_count + 1` receptions if so many are allowed; then the notification is failed, and its
  -- retry count is the limit.
  pub redeliver-Exhausts :
      (k : ℕ) (w : World) (row : Row)
      → env.unmarshal payload ≡ some job
      → render_notification env (data_of job) ≡ ok (html, text)
      → IsTable w.state.rows
      → by_email job.email w.state.rows ≡ some row
      → (status row.status ≡ pending) ⊎ (status row.status ≡ not_sent)
      → row.retry_count ≤ row.retry_limit
      → row.retry_limit < k + row.retry_count
      → Exhausts job.email row.retry_limit row.retry_count (redeliver env store b k payload w)
  unfolding redeliver
  redeliver-Exhausts zero w row parsed rendered table found ready c f = absurd (omega arith)
  redeliver-Exhausts (suc k) w row parsed rendered table found ready c f =
      let p = retry_or_fail (ltb row.retry_count row.retry_limit) row.retry_count in
      let (t, s, ends) = attempt-Ends w row parsed rendered table found ready in
      let w1 = (handle env store b payload w).1 in
      let found1 : by_email job.email w1.state.rows ≡ some (attempted_row p t row) =
        rw s (attempted-found job.email row p t w.state.rows found) in
      let table1 : IsTable w1.state.rows =
        rw s
          (update_row-IsTable row.id (attempted_row p t) (λ r. (refl, refl)) w.state.rows table) in
      elim (Bool-cases (ltb row.retry_count row.retry_limit)) [
        | inr l ↦
            let e : (handle env store b payload w).0 ≡ none = ends.1 (rw l) in
            rw (e, redeliver)
              (record {
                received = ground arith;
                row = attempted_row p t row;
                found = found1;
                ended = rw (status-to_int p.final, l);
                counted = ground arith;
              })
        | inl l ↦ elim (Option-cases (handle env store b payload w).0) [
          | inl e ↦ absurd (let d = ends.0 e in ground arith)
          | inr (x, e) ↦
              let below = ltb→lt row.retry_count row.retry_limit l in
              let counted : p.count ≡ suc row.retry_count = rw l (omega arith) in
              let rest =
                redeliver-Exhausts k w1 (attempted_row p t row) parsed rendered table1 found1
                  (inr (status-to_int p.final ∙ rw l)) (omega arith) (omega arith) in
              rw (e, redeliver)
                (record {
                  received = let q = rest.received in omega arith;
                  row = rest.row;
                  found = rest.found;
                  ended = rest.ended;
                  counted = rest.counted;
                })
        ]
      ]
