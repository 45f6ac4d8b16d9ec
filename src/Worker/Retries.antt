-- ===== src/Worker/Retries.antt =====
-- A job that is received again as long as its run ends in an error, as `goqite` does.
use mathlib.Core.Option
use skills.Prelude.{
  ℕ, zero, suc, ◌+◌, ◌≤◌, ◌<◌, ◌≡◌, ◌⊎◌, refl, ◌∙◌, String, Bool, true, false, none, some, List,
  arith, Bool-cases, Option-cases, inl, inr, length, same_refl,
}
use skills.Domain.Types.{status, pending, delivered, failed, not_sent, status-to_int, EmailMessage}
use skills.Domain.Errors.{ok}
use skills.World.{Row, World}
use skills.Environment.{Env, EmailJobPayload, Healthy, IsStateless}
use skills.Database.{by_email, update_row}
use skills.Database.Table.{IsTable, by_email-update_row, update_row-IsTable}
use skills.Store.{Store}
use skills.Store.Contract.{IsStore}
use skills.Email.{render_notification}
use skills.Worker.{message, handle}
use skills.Worker.Attempt.{
  Verdict, accepted, permanent, transient, verdict, Plan, plan, attempted_row,
}
use skills.Worker.Refines.{data_of, handle-Plan}

-- At most `k` receptions of a payload; how many there were, and the world they left.
unfoldable pub redeliver : Env → Store → Bool → ℕ → String → World → ℕ × World
redeliver env store b zero payload w = (0, w)
redeliver env store b (suc k) payload w =
    let (e, w1) = handle env store b payload w in
    let rest = redeliver env store b k payload w1 in
    elim e [ none ↦ (1, w1) | some _ ↦ (suc rest.0, rest.1) ]

-- A plan that is not done leaves the row in `not_sent` with one retry more.
pub plan_again :
    (v : Verdict) (limit count : ℕ)
    → (plan v limit count).done ≡ false
    → ((plan v limit count).final ≡ not_sent)
      × ((plan v limit count).count ≡ suc count)
      × (count < limit)
unfolding plan
plan_again accepted limit count h = cc
plan_again permanent limit count h = cc
plan_again transient limit count h = ground arith

plan_done :
    (v : Verdict) (limit count : ℕ)
    → (plan v limit count).done ≡ true
    → ((plan v limit count).final ≡ delivered) ⊎ ((plan v limit count).final ≡ failed)
unfolding plan
plan_done accepted limit count h = inl refl
plan_done permanent limit count h = inr refl
plan_done transient limit count h = ground arith

pub attempted-found :
    (e : String) (row : Row) (p : Plan) (t : ℕ) (rows : List Row)
    → by_email e rows ≡ some row
    → by_email e (update_row row.id (attempted_row p t) rows) ≡ some (attempted_row p t row)
attempted-found e row p t rows found = rw (
  by_email-update_row row.id (attempted_row p t) (λ r. (refl, refl)) e rows,
  found,
  Option.map,
  same_refl row.id,
)

-- What holds when the receptions `r` of a job for `email` from the world `w` are over.
pub record Settled (email : String) (limit count : ℕ) (w : World) (r : ℕ × World) : Type 0 where
  pub received : 1 ≤ r.0
  pub bounded : r.0 + count ≤ limit + 1
  pub sent : length r.1.state.mailbox ≡ length w.state.mailbox + r.0
  pub row : Row
  pub found : by_email email r.1.state.rows ≡ some row
  pub ended : (status row.status ≡ delivered) ⊎ (status row.status ≡ failed)

module _ (env : Env) (store : Store) (law : IsStateless env) (contract : IsStore env store)
    (healthy : Healthy env) (b : Bool) (payload : String) {job : EmailJobPayload}
    {html text : String} where
  -- Over a backend that keeps the contract and with `stateless` as documented, with a driver that
  -- does not fail, templates that render and a table whose ids and emails are unique, a job whose
  -- notification is pending or waits for a retry, with a retry count up to its limit, is
  -- acknowledged after at least one and at most `retry_limit - retry_count + 1` receptions,
  -- whatever the sender answers, if so many receptions are allowed. Each reception hands over one
  -- email, and at the end the notification is delivered or failed.
  pub redeliver-Settled :
      (k : ℕ) (w : World) (row : Row)
      → env.unmarshal payload ≡ some job
      → render_notification env (data_of job) ≡ ok (html, text)
      → IsTable w.state.rows
      → by_email job.email w.state.rows ≡ some row
      → (status row.status ≡ pending) ⊎ (status row.status ≡ not_sent)
      → row.retry_count ≤ row.retry_limit
      → row.retry_limit < k + row.retry_count
      → Settled job.email row.retry_limit row.retry_count w (redeliver env store b k payload w)
  unfolding redeliver
  redeliver-Settled zero w row parsed rendered table found ready c f = absurd (omega arith)
  redeliver-Settled (suc k) w row parsed rendered table found ready c f =
      let (t, s, ends) =
        handle-Plan env store law contract healthy b payload w parsed table found ready rendered in
      let msg : EmailMessage = message job html text in
      let v = verdict (env.send (length w.state.mailbox) msg) in
      let p = plan v row.retry_limit row.retry_count in
      let w1 = (handle env store b payload w).1 in
      let found1 : by_email job.email w1.state.rows ≡ some (attempted_row p t row) =
        rw s (attempted-found job.email row p t w.state.rows found) in
      let table1 : IsTable w1.state.rows =
        rw s
          (update_row-IsTable row.id (attempted_row p t) (λ r. (refl, refl)) w.state.rows table) in
      let sent1 : length w1.state.mailbox ≡ suc (length w.state.mailbox) = rw s in
      elim (Option-cases (handle env store b payload w).0) [
        | inl e ↦
            rw (e, redeliver)
              (record {
                received = omega arith;
                bounded = omega arith;
                sent = omega arith;
                row = attempted_row p t row;
                found = found1;
                ended = rw status-to_int (plan_done v row.retry_limit row.retry_count (ends.0 e));
              })
        | inr (x, e) ↦ elim (Bool-cases p.done) [
          | inl d ↦
              absurd (let c : (handle env store b payload w).0 ≡ none = ends.1 d in ground arith)
          | inr d ↦
              let (is_not_sent, counted, below) = plan_again v row.retry_limit row.retry_count d in
              let rest =
                redeliver-Settled k w1 (attempted_row p t row) parsed rendered table1 found1
                  (inr (status-to_int p.final ∙ is_not_sent)) (omega arith) (omega arith) in
              rw (e, redeliver)
                (record {
                  received = omega arith;
                  bounded = let q = rest.bounded in omega arith;
                  sent = let q = rest.sent in omega arith;
                  row = rest.row;
                  found = rest.found;
                  ended = rest.ended;
                })
        ]
      ]
